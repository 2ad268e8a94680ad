-- ===== src/Services/Subscription/Table.antt =====
-- src/services/subscription.c: the operations on the tables of subscriptions, of monitored items and of
-- publish requests. No pointer is NULL.
pub mod Ids
pub mod Unique
pub mod Keep
pub mod Change
pub mod Reach
pub mod Effects
use micro_opcua.Base.{
  ℕ, zero, suc, ◌+◌, ◌-◌, ◌*◌, ◌%◌, ◌^◌, Bool, true, false, not, ◌&&◌, ◌||◌, Option, none, some,
  List, [], ◌∷◌, ◌++◌, length, get_elem?, set, ltb, leb, ◌==◌, if◌then◌else◌,
}
use micro_opcua.Base.Status.{
  good, bad_subscriptionidinvalid, bad_toomanysubscriptions, bad_toomanypublishrequests,
  bad_sequencenumberunknown, bad_messagenotavailable, bad_toomanymonitoreditems,
  bad_monitoreditemidinvalid, bad_toomanyoperations,
}
use micro_opcua.Base.Outcome.{Outcome, ok, err, Prog, ◌>>=◌, ◌>>◌, done, fails, fault}
use micro_opcua.Services.Subscription.{
  Ring, MonitoredItem, Retransmit, Subscription, PublishRequest, Engine, replicate, zero_item,
  zero_subscription, zero_request,
}

-- mu_subscriptions_init, with MU_MAX_SUBSCRIPTIONS, MU_MAX_MONITORED_ITEMS, MU_MAX_PUBLISH_REQUESTS and
-- MU_MONITORED_QUEUE_DEPTH
unfoldable pub subscriptions_init : ℕ → ℕ → ℕ → ℕ → Engine
subscriptions_init subscriptions items requests depth = record {
  subscriptions = replicate subscriptions zero_subscription;
  monitored_items = replicate items (zero_item depth);
  publish_queue = replicate requests zero_request;
  next_subscription_id = 1;
  next_monitored_item_id = 1;
  active_monitored_items_count = 0;
}

-- The first element that passes the test, from index `i` on.
unfoldable pub find_from {ℓ} : {A : Type ℓ} → (A → Bool) → ℕ → List A → Option (ℕ × A)
find_from test i [] = none
find_from test i (x ∷ xs) =
    let rest = find_from test (suc i) xs in if test x then some (i, x) else rest

abbrev pub any {ℓ} : {A : Type ℓ} → (A → Bool) → List A → Bool
any test [] = false
any test (x ∷ xs) = test x || any test xs

abbrev pub has_subscription_id : ℕ → Subscription → Bool
has_subscription_id id sub = sub.in_use && sub.subscription_id == id

abbrev pub has_item_id : ℕ → MonitoredItem → Bool
has_item_id id item = item.in_use && item.monitored_item_id == id

abbrev pub subscription_id_in_use : Engine → ℕ → Bool
subscription_id_in_use subs id = any (has_subscription_id id) subs.subscriptions

abbrev pub monitored_item_id_in_use : Engine → ℕ → Bool
monitored_item_id_in_use subs id = any (has_item_id id) subs.monitored_items

abbrev pub nonzero : ℕ → ℕ
nonzero id = if id == 0 then 1 else id

-- The id that is tried, and the next one.
abbrev pub following : ℕ → ℕ
following id = nonzero ((nonzero id + 1) % 2 ^ 32)

-- The loop of allocate_subscription_id and of allocate_monitored_item_id: the id, or 0, and the next one.
pub allocate : (ℕ → Bool) → ℕ → ℕ → ℕ × ℕ
allocate in_use zero next = (0, next)
allocate in_use (suc rounds) next =
    let rest = allocate in_use rounds (following next) in
    if not (in_use (nonzero next)) then (nonzero next, following next) else rest

unfoldable pub allocate_subscription_id : Engine → ℕ × ℕ
unfolding allocate
allocate_subscription_id subs =
    allocate (subscription_id_in_use subs) (suc (length subs.subscriptions))
      subs.next_subscription_id

unfoldable pub allocate_monitored_item_id : Engine → ℕ × ℕ
unfolding allocate
allocate_monitored_item_id subs =
    allocate (monitored_item_id_in_use subs) (suc (length subs.monitored_items))
      subs.next_monitored_item_id

-- The revised keep-alive count.
abbrev pub revise_keep_alive : ℕ → ℕ
revise_keep_alive requested =
    let at_least = if requested == 0 then 1 else requested in
    if ltb 0x55555555 at_least then 0x55555555 else at_least

-- The revised lifetime count and the revised keep-alive count.
pub revise_subscription_counts : ℕ → ℕ → ℕ × ℕ
revise_subscription_counts lifetime keep_alive =
    let least = revise_keep_alive keep_alive * 3 % 2 ^ 32 in
    (if ltb lifetime least then least else lifetime, revise_keep_alive keep_alive)

pub apply_parameters : ℕ → ℕ → ℕ → ℕ → ℕ → Subscription → Subscription
unfolding revise_subscription_counts
apply_parameters interval lifetime keep_alive max_notifications priority sub =
    let (revised_lifetime, revised_keep_alive) = revise_subscription_counts lifetime keep_alive in
    record sub {
      publishing_interval_ms = interval;
      max_keep_alive_count = revised_keep_alive;
      lifetime_count = revised_lifetime;
      max_notifications_per_publish = max_notifications;
      priority = priority;
    }

-- The parameters of mu_subscription_create.
pub record Parameters : Type 0 where
  pub session_id : ℕ
  pub publishing_interval_ms : ℕ
  pub lifetime_count : ℕ
  pub max_keep_alive_count : ℕ
  pub max_notifications_per_publish : ℕ
  pub priority : ℕ
  pub publishing_enabled : Bool

pub new_subscription : Parameters → ℕ → ℕ → Subscription
unfolding apply_parameters
new_subscription p id now =
    let sub =
      apply_parameters p.publishing_interval_ms p.lifetime_count p.max_keep_alive_count
        p.max_notifications_per_publish p.priority
        (record zero_subscription {
          in_use = true;
          subscription_id = id;
          session_id = p.session_id;
        }) in
    record sub {
      publishing_enabled = p.publishing_enabled;
      sequence_number = 1;
      next_publish_ms = (now + p.publishing_interval_ms) % 2 ^ 64;
    }

abbrev pub unused_subscription : Subscription → Bool
unused_subscription sub = not sub.in_use

abbrev pub create_at : Parameters → ℕ → ℕ → ℕ × ℕ → Prog Engine ℕ
create_at p now i (id, next) subs =
    if id == 0
    then err bad_toomanysubscriptions (record subs { next_subscription_id = next })
    else ok i (record subs {
      subscriptions = set subs.subscriptions i (new_subscription p id now);
      next_subscription_id = next;
    })

abbrev pub create_in : Parameters → ℕ → Engine → Option (ℕ × Subscription) → Outcome Engine ℕ
create_in p now subs none = err bad_toomanysubscriptions subs
create_in p now subs (some (i, sub)) = create_at p now i (allocate_subscription_id subs) subs

-- mu_subscription_create; the result is the slot.
unfoldable pub create : Parameters → ℕ → Prog Engine ℕ
unfolding find_from new_subscription
create p now subs = create_in p now subs (find_from unused_subscription 0 subs.subscriptions)

abbrev pub owned : ℕ → ℕ → Subscription → Bool
owned session id sub = sub.in_use && sub.session_id == session && sub.subscription_id == id

-- mu_subscription_find; the result is the slot and what stands there.
unfoldable pub subscription_find : Engine → ℕ → ℕ → Option (ℕ × Subscription)
unfolding find_from
subscription_find subs session id = find_from (owned session id) 0 subs.subscriptions

abbrev pub holds : Retransmit → ℕ → Bool
holds r sequence_number = r.valid && r.sequence_number == sequence_number

abbrev pub purged : Subscription → Subscription
purged sub = record sub { retransmit = record sub.retransmit { valid = false; message = [] } }

abbrev pub acknowledge_in : ℕ → Engine → Option (ℕ × Subscription) → Outcome Engine (Unit {0})
acknowledge_in sequence_number subs none = err bad_subscriptionidinvalid subs
acknowledge_in sequence_number subs (some (i, sub)) =
    if holds sub.retransmit sequence_number
    then ok tt (record subs { subscriptions = set subs.subscriptions i (purged sub) })
    else err bad_sequencenumberunknown subs

unfoldable pub acknowledge : ℕ → ℕ → ℕ → Prog Engine (Unit {0})
unfolding subscription_find
acknowledge session id sequence_number subs =
    acknowledge_in sequence_number subs (subscription_find subs session id)

abbrev pub republish_in : ℕ → Engine → Option (ℕ × Subscription) → Outcome Engine (List ℕ)
republish_in sequence_number subs none = err bad_subscriptionidinvalid subs
republish_in sequence_number subs (some (i, sub)) =
    if holds sub.retransmit sequence_number
    then ok sub.retransmit.message subs
    else err bad_messagenotavailable subs

-- The result is the message.
unfoldable pub republish : ℕ → ℕ → ℕ → Prog Engine (List ℕ)
unfolding subscription_find
republish session id sequence_number subs =
    republish_in sequence_number subs (subscription_find subs session id)

abbrev pub in_subscription : ℕ → MonitoredItem → Bool
in_subscription id item = item.in_use && item.subscription_id == id

abbrev pub cleared : MonitoredItem → MonitoredItem
cleared item = zero_item (length item.ring.entries)

-- if (subs->active_monitored_items_count > 0) subs->active_monitored_items_count--;
abbrev pub one_less : ℕ → ℕ
one_less n = if ltb 0 n then n - 1 else n

-- The items of the subscription are cleared, and the count goes down.
pub clear_items : ℕ → List MonitoredItem → ℕ → List MonitoredItem × ℕ
clear_items id [] count = ([], count)
clear_items id (item ∷ items) count =
    let test = in_subscription id item in
    let rest = clear_items id items (if test then one_less count else count) in
    ((if test then cleared item else item) ∷ rest.0, rest.1)

abbrev pub delete_at : ℕ → Engine → Option (ℕ × Subscription) → Outcome Engine (Unit {0})
delete_at id subs none = err bad_subscriptionidinvalid subs
delete_at id subs (some (i, sub)) = ok tt (record subs {
  subscriptions = set subs.subscriptions i zero_subscription;
  monitored_items = (clear_items id subs.monitored_items subs.active_monitored_items_count).0;
  active_monitored_items_count =
      (clear_items id subs.monitored_items subs.active_monitored_items_count).1;
})

-- mu_subscription_delete
unfoldable pub delete : ℕ → ℕ → Prog Engine (Unit {0})
unfolding subscription_find clear_items
delete session id subs = delete_at id subs (subscription_find subs session id)

abbrev pub unused_item : MonitoredItem → Bool
unused_item item = not item.in_use

abbrev pub new_item : MonitoredItem → ℕ → ℕ → MonitoredItem
new_item item subscription id = record (cleared item) {
  in_use = true;
  subscription_id = subscription;
  monitored_item_id = id;
}

abbrev pub alloc_at : ℕ → ℕ → MonitoredItem → ℕ × ℕ → Prog Engine ℕ
alloc_at subscription i item (id, next) subs =
    if id == 0
    then err bad_toomanymonitoreditems (record subs { next_monitored_item_id = next })
    else ok i (record subs {
      monitored_items = set subs.monitored_items i (new_item item subscription id);
      next_monitored_item_id = next;
      active_monitored_items_count = (subs.active_monitored_items_count + 1) % 2 ^ 32;
    })

abbrev pub alloc_in : ℕ → Engine → Option (ℕ × MonitoredItem) → Outcome Engine ℕ
alloc_in subscription subs none = err bad_toomanymonitoreditems subs
alloc_in subscription subs (some (i, item)) =
    alloc_at subscription i item (allocate_monitored_item_id subs) subs

-- mu_monitored_item_alloc; the result is the slot.
unfoldable pub item_alloc : ℕ → Prog Engine ℕ
unfolding find_from
item_alloc subscription subs =
    alloc_in subscription subs (find_from unused_item 0 subs.monitored_items)

abbrev pub is_item : ℕ → ℕ → MonitoredItem → Bool
is_item subscription id item =
    item.in_use && item.subscription_id == subscription && item.monitored_item_id == id

abbrev pub item_delete_at : Engine → Option (ℕ × MonitoredItem) → Outcome Engine (Unit {0})
item_delete_at subs none = err bad_monitoreditemidinvalid subs
item_delete_at subs (some (i, item)) = ok tt (record subs {
  monitored_items = set subs.monitored_items i (cleared item);
  active_monitored_items_count = one_less subs.active_monitored_items_count;
})

-- mu_monitored_item_delete
unfoldable pub item_delete : ℕ → ℕ → Prog Engine (Unit {0})
unfolding find_from
item_delete subscription id subs =
    item_delete_at subs (find_from (is_item subscription id) 0 subs.monitored_items)

abbrev pub resend_at : Engine → Option (ℕ × Subscription) → Outcome Engine (Unit {0})
resend_at subs none = err bad_subscriptionidinvalid subs
resend_at subs (some (i, sub)) = ok tt (record subs {
  subscriptions = set subs.subscriptions i (record sub { resend_data_pending = true });
})

-- mu_subscription_request_resend_data
unfoldable pub request_resend_data : ℕ → ℕ → Prog Engine (Unit {0})
unfolding subscription_find
request_resend_data session id subs = resend_at subs (subscription_find subs session id)
