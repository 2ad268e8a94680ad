-- ===== src/Services/Subscription/Links.antt =====
-- src/services/subscription.c: the trigger links of monitored items, and the list of the items.
use micro_opcua.Base.{
  ℕ, Bool, true, false, not, ◌||◌, Option, none, some, List, [], ◌∷◌, ◌++◌, length, set, leb, ◌==◌,
  if◌then◌else◌,
}
use micro_opcua.Base.Status.{
  bad_monitoreditemidinvalid, bad_toomanyoperations, bad_subscriptionidinvalid,
}
use micro_opcua.Base.Outcome.{Outcome, ok, err, Prog}
use micro_opcua.Services.Subscription.{MonitoredItem, Subscription, Engine}
use micro_opcua.Services.Subscription.Table.{find_from, is_item, in_subscription, subscription_find}

-- find_monitored_item_in_subscription; the result is the slot and what stands there.
unfoldable pub find_item : Engine → ℕ → ℕ → Option (ℕ × MonitoredItem)
unfolding find_from
find_item subs subscription id = find_from (is_item subscription id) 0 subs.monitored_items

abbrev pub member : ℕ → List ℕ → Bool
member id [] = false
member id (x ∷ xs) = x == id || member id xs

-- The first occurrence is taken out and what follows moves up.
abbrev pub remove_first : ℕ → List ℕ → List ℕ
remove_first id [] = []
remove_first id (x ∷ xs) = if x == id then xs else x ∷ remove_first id xs

abbrev with_links : Engine → ℕ → MonitoredItem → List ℕ → Engine
with_links subs i item links = record subs {
  monitored_items = set subs.monitored_items i (record item { triggered_items = links });
}

-- With MU_MAX_TRIGGER_LINKS.
abbrev pub link :
    ℕ
    → ℕ
    → Engine
    → Option (ℕ × MonitoredItem)
    → Option (ℕ × MonitoredItem)
    → Outcome Engine (Unit {0})
link max_links linked subs (some (i, item)) (some (j, other)) =
    if member linked item.triggered_items
    then ok tt subs
    else if leb max_links (length item.triggered_items)
    then err bad_toomanyoperations subs
    else ok tt (with_links subs i item (item.triggered_items ++ (linked ∷ [])))
link max_links linked subs _ _ = err bad_monitoreditemidinvalid subs

pub add_trigger_link : ℕ → ℕ → ℕ → ℕ → Prog Engine (Unit {0})
unfolding find_item
add_trigger_link max_links subscription triggering linked subs =
    link max_links linked subs (find_item subs subscription triggering)
      (find_item subs subscription linked)

abbrev pub unlink :
    ℕ → Engine → Option (ℕ × MonitoredItem) → Option (ℕ × MonitoredItem) → Outcome Engine (Unit {0})
unlink linked subs (some (i, item)) (some (j, other)) =
    if member linked item.triggered_items
    then ok tt (with_links subs i item (remove_first linked item.triggered_items))
    else err bad_monitoreditemidinvalid subs
unlink linked subs _ _ = err bad_monitoreditemidinvalid subs

pub remove_trigger_link : ℕ → ℕ → ℕ → Prog Engine (Unit {0})
unfolding find_item
remove_trigger_link subscription triggering linked subs =
    unlink linked subs (find_item subs subscription triggering) (find_item subs subscription linked)

-- The loop over the items, with room for `max_handles` handles; `false` where there is no room for the next.
abbrev pub collect : ℕ → ℕ → List MonitoredItem → List (ℕ × ℕ) → Bool × List (ℕ × ℕ)
collect id max_handles [] handles = (true, handles)
collect id max_handles (item ∷ items) handles =
    let rest =
      collect id max_handles items
        (handles ++ ((item.monitored_item_id, item.client_handle) ∷ [])) in
    let skip = collect id max_handles items handles in
    if not (in_subscription id item)
    then skip
    else if leb max_handles (length handles)
    then (false, handles)
    else rest

-- mu_subscription_get_monitored_items: the status, and the handles that are written in any case.
pub get_monitored_items : ℕ → ℕ → ℕ → Engine → Outcome Engine (List (ℕ × ℕ)) × List (ℕ × ℕ)
unfolding subscription_find
get_monitored_items session id max_handles subs = answer (subscription_find subs session id)
  where
    collected : Bool × List (ℕ × ℕ) → Outcome Engine (List (ℕ × ℕ)) × List (ℕ × ℕ)
    collected (true, handles) = (ok handles subs, handles)
    collected (false, handles) = (err bad_toomanyoperations subs, handles)

    answer : Option (ℕ × Subscription) → Outcome Engine (List (ℕ × ℕ)) × List (ℕ × ℕ)
    answer none = (err bad_subscriptionidinvalid subs, [])
    answer (some (i, sub)) = collected (collect id max_handles subs.monitored_items [])
