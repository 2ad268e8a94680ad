-- ===== src/Services/Subscription/Table/Change.antt =====
-- The calls of subscription.c that take elements out of the tables, or change one of them.
use micro_opcua.Base.{
  ℕ, suc, ◌+◌, ◌≡◌, refl, ap, ◌∙◌, inl, inr, Option, none, some, List, [], ◌∷◌, length, get_elem?,
  length-set, if◌then◌else◌, Bool-cases, arith,
}
use micro_opcua.Services.Subscription.{Subscription, MonitoredItem, Engine, zero_subscription}
use micro_opcua.Services.Subscription.Table.{
  owned, in_subscription, cleared, one_less, purged, is_item, acknowledge_in, delete_at,
  item_delete_at, resend_at, acknowledge, clear_items, delete, item_delete, request_resend_data,
  subscription_find, holds,
}
use micro_opcua.Services.Subscription.Table.Unique.{
  FoundAt, find_from-FoundAt, count, count-set_off, Unique, Free, set-Unique,
}
use micro_opcua.Services.Subscription.Table.Keep.{
  subscription_key, item_key, used, IsEngine, left, set_subscription-IsEngine,
}

-- What the purge of the items of a subscription leaves.
clear_items-Free :
    (c id : ℕ) (items : List MonitoredItem) (n : ℕ)
    → Free item_key c items
    → Free item_key c (clear_items id items n).0
unfolding clear_items
clear_items-Free c id [] n h = tt
clear_items-Free c id (item ∷ items) n (p, h) = elim (Bool-cases (in_subscription id item)) [
  | inl e ↦ rw e ((λ k. absurd (ground (arith, k))), clear_items-Free c id items (one_less n) h)
  | inr e ↦ rw e (p, clear_items-Free c id items n h)
]

clear_items-Unique :
    (id : ℕ) (items : List MonitoredItem) (n : ℕ)
    → Unique item_key items
    → Unique item_key (clear_items id items n).0
unfolding clear_items
clear_items-Unique id [] n h = tt
clear_items-Unique id (item ∷ items) n (p, h) = elim (Bool-cases (in_subscription id item)) [
  | inl e ↦ rw e ((λ c k. absurd (ground (arith, k))), clear_items-Unique id items (one_less n) h)
  | inr e ↦ rw e (
    (λ c k. ((p c k).0, clear_items-Free c id items n (p c k).1)),
    clear_items-Unique id items n h,
  )
]

clear_items-count :
    (id : ℕ) (items : List MonitoredItem) (n more : ℕ)
    → n ≡ count used items + more
    → (clear_items id items n).1 ≡ count used (clear_items id items n).0 + more
unfolding clear_items count
clear_items-count id [] n more h = h
clear_items-count id (item ∷ items) n more h = elim (Bool-cases (in_subscription id item)) [
  | inl e ↦ rw e (clear_items-count id items (one_less n) more (ground (arith, h, e)) ∙ omega arith)
  | inr e ↦ rw e (
      let w : ℕ = if used item then 1 else 0 in
      clear_items-count id items n (more + w) (omega (arith, h)) ∙ omega arith)
]

length-clear_items :
    (id : ℕ) (items : List MonitoredItem) (n : ℕ) → length (clear_items id items n).0 ≡ length items
unfolding clear_items
length-clear_items id [] n = refl
length-clear_items id (item ∷ items) n =
    ap suc (length-clear_items id items (if in_subscription id item then one_less n else n))

delete_at-IsEngine :
    (id : ℕ) (subs : Engine) (o : Option (ℕ × Subscription))
    → IsEngine subs
    → IsEngine (left (delete_at id subs o) subs)
delete_at-IsEngine id subs none h = h
delete_at-IsEngine id subs (some (i, sub)) h =
    let items : List MonitoredItem = subs.monitored_items in
    let n : ℕ = subs.active_monitored_items_count in
    record {
      unique_subscriptions =
          set-Unique subscription_key subs.subscriptions i zero_subscription h.unique_subscriptions
            (λ c k. absurd (ground (arith, k)));
      unique_items = clear_items-Unique id items n h.unique_items;
      counted = clear_items-count id items n 0 (omega (arith, h.counted)) ∙ omega arith;
      few_subscriptions =
          omega (arith, length-set subs.subscriptions i zero_subscription, h.few_subscriptions);
      few_items = omega (arith, length-clear_items id items n, h.few_items);
      next_subscription = h.next_subscription;
      next_item = h.next_item;
    }

item_delete_at-IsEngine :
    (subscription id : ℕ) (subs : Engine) (o : Option (ℕ × MonitoredItem))
    → IsEngine subs
    → FoundAt (is_item subscription id) 0 subs.monitored_items o
    → IsEngine (left (item_delete_at subs o) subs)
item_delete_at-IsEngine subscription id subs none h f = h
item_delete_at-IsEngine subscription id subs (some (i, item)) h (k, at, found, passed) =
    let got : get_elem? subs.monitored_items i ≡ some item =
      ap (get_elem? subs.monitored_items) (omega (arith, at)) ∙ found in
    record {
      unique_subscriptions = h.unique_subscriptions;
      unique_items =
          set-Unique item_key subs.monitored_items i (cleared item) h.unique_items
            (λ c k. absurd (ground (arith, k)));
      counted = ground (
        arith,
        h.counted,
        count-set_off used subs.monitored_items i item (cleared item) got (ground (arith, passed))
            refl,
      );
      few_subscriptions = h.few_subscriptions;
      few_items = omega (arith, length-set subs.monitored_items i (cleared item), h.few_items);
      next_subscription = h.next_subscription;
      next_item = h.next_item;
    }

pub delete-IsEngine :
    (session id : ℕ) (subs : Engine) → IsEngine subs → IsEngine (left (delete session id subs) subs)
unfolding delete
delete-IsEngine session id subs h = delete_at-IsEngine id subs _ h

pub item_delete-IsEngine :
    (subscription id : ℕ) (subs : Engine)
    → IsEngine subs
    → IsEngine (left (item_delete subscription id subs) subs)
unfolding item_delete
item_delete-IsEngine subscription id subs h =
    item_delete_at-IsEngine subscription id subs _ h
      (find_from-FoundAt (is_item subscription id) 0 subs.monitored_items)

found :
    {A : Type 0} (xs : List A) (i k : ℕ) (x : A)
    → i ≡ 0 + k
    → get_elem? xs k ≡ some x
    → get_elem? xs i ≡ some x
found xs i k x at got = ap (get_elem? xs) (omega (arith, at)) ∙ got

acknowledge_in-IsEngine :
    (session id n : ℕ) (subs : Engine) (o : Option (ℕ × Subscription))
    → IsEngine subs
    → FoundAt (owned session id) 0 subs.subscriptions o
    → IsEngine (left (acknowledge_in n subs o) subs)
acknowledge_in-IsEngine session id n subs none h f = h
acknowledge_in-IsEngine session id n subs (some (i, sub)) h (k, at, got, passed) =
    elim (Bool-cases (holds sub.retransmit n)) [
      | inl e ↦ rw e (
          set_subscription-IsEngine subs i sub (purged sub) h
            (found subs.subscriptions i k sub at got) refl)
      | inr e ↦ rw e h
    ]

pub acknowledge-IsEngine :
    (session id n : ℕ) (subs : Engine)
    → IsEngine subs
    → IsEngine (left (acknowledge session id n subs) subs)
unfolding acknowledge subscription_find
acknowledge-IsEngine session id n subs h =
    acknowledge_in-IsEngine session id n subs _ h
      (find_from-FoundAt (owned session id) 0 subs.subscriptions)

resend_at-IsEngine :
    (session id : ℕ) (subs : Engine) (o : Option (ℕ × Subscription))
    → IsEngine subs
    → FoundAt (owned session id) 0 subs.subscriptions o
    → IsEngine (left (resend_at subs o) subs)
resend_at-IsEngine session id subs none h f = h
resend_at-IsEngine session id subs (some (i, sub)) h (k, at, got, passed) =
    set_subscription-IsEngine subs i sub _ h (found subs.subscriptions i k sub at got) refl

pub request_resend_data-IsEngine :
    (session id : ℕ) (subs : Engine)
    → IsEngine subs
    → IsEngine (left (request_resend_data session id subs) subs)
unfolding request_resend_data subscription_find
request_resend_data-IsEngine session id subs h =
    resend_at-IsEngine session id subs _ h
      (find_from-FoundAt (owned session id) 0 subs.subscriptions)
