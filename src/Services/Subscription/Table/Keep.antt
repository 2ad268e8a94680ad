-- ===== src/Services/Subscription/Table/Keep.antt =====
-- What the tables of subscription.c keep, and the calls that add to them.
use micro_opcua.Base.{
  ℕ, ◌-◌, ◌^◌, ◌<◌, ◌≡◌, ◌≢◌, refl, sym, ap, ◌∙◌, Bool, true, false, Option, none, some,
  some-injective, length, get_elem?, set, length-set, ◌==◌, if◌then◌else◌, arith,
}
use micro_opcua.Base.Outcome.{Outcome, ok, err, fault}
use micro_opcua.Services.Subscription.{Subscription, MonitoredItem, Engine}
use micro_opcua.Services.Subscription.Table.{
  Parameters, any, has_subscription_id, has_item_id, new_subscription, new_item, unused_item,
  create_at, alloc_at, allocate_subscription_id, allocate_monitored_item_id, create_in, alloc_in,
  create, item_alloc,
}
use micro_opcua.Services.Subscription.Table.Ids.{Allocated, allocate-Allocated}
use micro_opcua.Services.Subscription.Table.Unique.{
  FoundAt, find_from-FoundAt, count, count-le, count-set_on, count-set_same, Unique, Free,
  set-Unique, set_same-Unique, any-Free,
}

abbrev pub subscription_key : Subscription → Option ℕ
subscription_key sub = if sub.in_use then some sub.subscription_id else none

abbrev pub item_key : MonitoredItem → Option ℕ
item_key item = if item.in_use then some item.monitored_item_id else none

abbrev pub used : MonitoredItem → Bool
used item = item.in_use

pub record IsEngine (subs : Engine) : Type 0 where
  pub unique_subscriptions : Unique subscription_key subs.subscriptions
  pub unique_items : Unique item_key subs.monitored_items
  pub counted : subs.active_monitored_items_count ≡ count used subs.monitored_items
  pub few_subscriptions : length subs.subscriptions < 2 ^ 32 - 1
  pub few_items : length subs.monitored_items < 2 ^ 32 - 1
  pub next_subscription : subs.next_subscription_id < 2 ^ 32
  pub next_item : subs.next_monitored_item_id < 2 ^ 32

-- The state that a call leaves.
abbrev pub left : {A : Type 0} → Outcome Engine A → Engine → Engine
left (ok a t) s = t
left (err e t) s = t
left fault s = s

pub subscription-Allocated :
    (subs : Engine)
    → IsEngine subs
    → Allocated
        (λ id. any (has_subscription_id id) subs.subscriptions)
        (allocate_subscription_id subs)
unfolding allocate_subscription_id
subscription-Allocated subs h =
    allocate-Allocated has_subscription_id (λ c d x p q. ground (arith, p, q)) subs.subscriptions
      subs.next_subscription_id h.few_subscriptions h.next_subscription

item-Allocated :
    (subs : Engine)
    → IsEngine subs
    → Allocated (λ id. any (has_item_id id) subs.monitored_items) (allocate_monitored_item_id subs)
unfolding allocate_monitored_item_id
item-Allocated subs h =
    allocate-Allocated has_item_id (λ c d x p q. ground (arith, p, q)) subs.monitored_items
      subs.next_monitored_item_id h.few_items h.next_item

-- What stands in a slot is replaced by what has the same id.
pub set_subscription-IsEngine :
    (subs : Engine) (i : ℕ) (sub v : Subscription)
    → IsEngine subs
    → get_elem? subs.subscriptions i ≡ some sub
    → subscription_key v ≡ subscription_key sub
    → IsEngine (record subs { subscriptions = set subs.subscriptions i v })
set_subscription-IsEngine subs i sub v h got same = record {
  unique_subscriptions =
      set_same-Unique subscription_key subs.subscriptions i sub v h.unique_subscriptions got same;
  unique_items = h.unique_items;
  counted = h.counted;
  few_subscriptions = omega (arith, length-set subs.subscriptions i v, h.few_subscriptions);
  few_items = h.few_items;
  next_subscription = h.next_subscription;
  next_item = h.next_item;
}

pub set_item-IsEngine :
    (subs : Engine) (i : ℕ) (item v : MonitoredItem)
    → IsEngine subs
    → get_elem? subs.monitored_items i ≡ some item
    → item_key v ≡ item_key item
    → v.in_use ≡ item.in_use
    → IsEngine (record subs { monitored_items = set subs.monitored_items i v })
set_item-IsEngine subs i item v h got same kept = record {
  unique_subscriptions = h.unique_subscriptions;
  unique_items = set_same-Unique item_key subs.monitored_items i item v h.unique_items got same;
  counted = h.counted ∙ sym (count-set_same used subs.monitored_items i item v got kept);
  few_subscriptions = h.few_subscriptions;
  few_items = omega (arith, length-set subs.monitored_items i v, h.few_items);
  next_subscription = h.next_subscription;
  next_item = h.next_item;
}

new_subscription-key :
    (p : Parameters) (id now : ℕ) → subscription_key (new_subscription p id now) ≡ some id
unfolding new_subscription
new_subscription-key p id now = refl

fresh_subscription :
    (subs : Engine) (id next : ℕ)
    → Allocated (λ c. any (has_subscription_id c) subs.subscriptions) (id, next)
    → (c : ℕ) → some id ≡ some c
    → (c ≢ 0) × Free subscription_key c subs.subscriptions
fresh_subscription subs id next (n, small, free, bound) c e =
    let same : id ≡ c = some-injective id c e in
    (
      ground (arith, n, same),
      any-Free subscription_key has_subscription_id (λ j x k. shows j x k) c subs.subscriptions
          (ap (λ j. any (has_subscription_id j) subs.subscriptions) (sym same) ∙ free),
    )
  where
    shows :
        (j : ℕ) (x : Subscription) → subscription_key x ≡ some j → has_subscription_id j x ≡ true
    shows j x k = ground (arith, k)

fresh_item :
    (subs : Engine) (id next : ℕ)
    → Allocated (λ c. any (has_item_id c) subs.monitored_items) (id, next)
    → (c : ℕ) → some id ≡ some c
    → (c ≢ 0) × Free item_key c subs.monitored_items
fresh_item subs id next (n, small, free, bound) c e =
    let same : id ≡ c = some-injective id c e in
    (
      ground (arith, n, same),
      any-Free item_key has_item_id (λ j x k. shows j x k) c subs.monitored_items
          (ap (λ j. any (has_item_id j) subs.monitored_items) (sym same) ∙ free),
    )
  where
    shows : (j : ℕ) (x : MonitoredItem) → item_key x ≡ some j → has_item_id j x ≡ true
    shows j x k = ground (arith, k)

pub nonzero_test : (id : ℕ) → id ≢ 0 → id == 0 ≡ false
nonzero_test id h = ground arith

create_at-IsEngine :
    (p : Parameters) (now i : ℕ) (subs : Engine) (id next : ℕ)
    → IsEngine subs
    → Allocated (λ c. any (has_subscription_id c) subs.subscriptions) (id, next)
    → IsEngine (left (create_at p now i (id, next) subs) subs)
create_at-IsEngine p now i subs id next h a = rw (nonzero_test id a.0) (record {
  unique_subscriptions =
      set-Unique subscription_key subs.subscriptions i (new_subscription p id now)
        h.unique_subscriptions
        (λ c k. fresh_subscription subs id next a c (sym (new_subscription-key p id now) ∙ k));
  unique_items = h.unique_items;
  counted = h.counted;
  few_subscriptions =
      omega
        (arith, length-set subs.subscriptions i (new_subscription p id now), h.few_subscriptions);
  few_items = h.few_items;
  next_subscription = a.3;
  next_item = h.next_item;
})

create_in-IsEngine :
    (p : Parameters) (now : ℕ) (subs : Engine) (o : Option (ℕ × Subscription))
    → IsEngine subs
    → IsEngine (left (create_in p now subs o) subs)
create_in-IsEngine p now subs none h = h
create_in-IsEngine p now subs (some (i, sub)) h =
    create_at-IsEngine p now i subs _ _ h (subscription-Allocated subs h)

pub create-IsEngine :
    (p : Parameters) (now : ℕ) (subs : Engine)
    → IsEngine subs
    → IsEngine (left (create p now subs) subs)
unfolding create
create-IsEngine p now subs h = create_in-IsEngine p now subs _ h

alloc_at-IsEngine :
    (subscription i : ℕ) (item : MonitoredItem) (subs : Engine) (id next : ℕ)
    → IsEngine subs
    → get_elem? subs.monitored_items i ≡ some item
    → item.in_use ≡ false
    → Allocated (λ c. any (has_item_id c) subs.monitored_items) (id, next)
    → IsEngine (left (alloc_at subscription i item (id, next) subs) subs)
alloc_at-IsEngine subscription i item subs id next h got unused a =
    rw (nonzero_test id a.0) (record {
      unique_subscriptions = h.unique_subscriptions;
      unique_items =
          set-Unique item_key subs.monitored_items i (new_item item subscription id) h.unique_items
            (λ c k. fresh_item subs id next a c k);
      counted = omega (
        arith,
        h.counted,
        h.few_items,
        count-le used subs.monitored_items,
        count-set_on used subs.monitored_items i item (new_item item subscription id) got unused
            refl,
      );
      few_subscriptions = h.few_subscriptions;
      few_items =
          omega
            (arith, length-set subs.monitored_items i (new_item item subscription id), h.few_items);
      next_subscription = h.next_subscription;
      next_item = a.3;
    })

alloc_in-IsEngine :
    (subscription : ℕ) (subs : Engine) (o : Option (ℕ × MonitoredItem))
    → IsEngine subs
    → FoundAt unused_item 0 subs.monitored_items o
    → IsEngine (left (alloc_in subscription subs o) subs)
alloc_in-IsEngine subscription subs none h f = h
alloc_in-IsEngine subscription subs (some (i, item)) h (k, at, got, passed) =
    alloc_at-IsEngine subscription i item subs _ _ h
      (ap (get_elem? subs.monitored_items) (omega (arith, at)) ∙ got) (ground (arith, passed))
      (item-Allocated subs h)

pub item_alloc-IsEngine :
    (subscription : ℕ) (subs : Engine)
    → IsEngine subs
    → IsEngine (left (item_alloc subscription subs) subs)
unfolding item_alloc
item_alloc-IsEngine subscription subs h =
    alloc_in-IsEngine subscription subs _ h (find_from-FoundAt unused_item 0 subs.monitored_items)
