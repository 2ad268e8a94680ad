-- ===== src/Services/Subscription/Table/Effects.antt =====
-- What the calls of subscription.c on subscriptions do, and when they are refused.
use micro_opcua.Base.{
  ℕ, suc, ◌+◌, ◌≡◌, ◌≢◌, refl, sym, ap, ◌∙◌, ◌⊎◌, inl, inr, Bool, true, false, Option, none, some,
  List, [], ◌∷◌, get_elem?, set, All, Bool-cases, arith,
}
use micro_opcua.Base.Status.{
  bad_toomanysubscriptions, bad_subscriptionidinvalid, bad_sequencenumberunknown,
  bad_messagenotavailable,
}
use micro_opcua.Base.Outcome.{Outcome, ok, err, fault}
use micro_opcua.Services.Subscription.{Subscription, MonitoredItem, Engine, zero_subscription}
use micro_opcua.Services.Subscription.Table.{
  Parameters, any, has_subscription_id, owned, in_subscription, one_less, purged, new_subscription,
  find_from, acknowledge_in, delete_at, acknowledge, republish, clear_items, delete,
  subscription_find, holds,
}
use micro_opcua.Services.Subscription.Table.Unique.{FoundAt, find_from-FoundAt, Free, removed-Free}
use micro_opcua.Services.Subscription.Table.Keep.{subscription_key, IsEngine}

-- What a request for a subscription may come to.
abbrev pub CreateOutcome : Parameters → ℕ → Engine → Outcome Engine ℕ → Type 0
CreateOutcome p now s (ok i t) =
    (old : Subscription) × (id : ℕ) × (get_elem? s.subscriptions i ≡ some old)
    × (old.in_use ≡ false)
    × (id ≢ 0)
    × (any (has_subscription_id id) s.subscriptions ≡ false)
    × (t.subscriptions ≡ set s.subscriptions i (new_subscription p id now))
    × (t.monitored_items ≡ s.monitored_items)
CreateOutcome p now s (err e t) =
    (e ≡ bad_toomanysubscriptions) × (t ≡ s) × All (λ sub. sub.in_use ≡ true) s.subscriptions
CreateOutcome p now s fault = ⊥

-- What stands in the slot that was found still passes the test after a change: it is found again.
find_from-set :
    {A : Type 0} (test : A → Bool) (n : ℕ) (xs : List A) (i : ℕ) (x v : A)
    → find_from test n xs ≡ some (i, x)
    → test v ≡ true
    → (k : ℕ) × (i ≡ n + k) × (find_from test n (set xs k v) ≡ some (i, v))
unfolding find_from
find_from-set test n [] i x v f t = absurd (ground (arith, f))
find_from-set test n (y ∷ xs) i x v f t = elim (Bool-cases (test y)) [
  | inl e ↦
      let here : i ≡ n = sym (ap (λ o. elim o [ none ↦ i | some q ↦ q.0 ]) (rw e at f)) in
      (0, omega (arith, here), rw t (ap (λ j. some (j, v)) (sym here)))
  | inr e ↦
      let (k, at, again) = find_from-set test (suc n) xs i x v (rw e at f) t in
      (suc k, omega (arith, at), rw e again)
]

find_from-set_found :
    {A : Type 0} (test : A → Bool) (xs : List A) (i : ℕ) (x v : A)
    → find_from test 0 xs ≡ some (i, x)
    → test v ≡ true
    → find_from test 0 (set xs i v) ≡ some (i, v)
find_from-set_found test xs i x v f t =
    let (k, at, again) = find_from-set test 0 xs i x v f t in
    ap (λ j. find_from test 0 (set xs j v)) (omega (arith, at)) ∙ again

-- What acknowledging a message may come to.
abbrev pub AckOutcome : ℕ → ℕ → ℕ → Engine → Outcome Engine (Unit {0}) → Type 0
AckOutcome session id n s (ok u t) =
    ((message : List ℕ) × (republish session id n s ≡ ok message s))
    × ((m : ℕ) → republish session id m t ≡ err bad_messagenotavailable t)
AckOutcome session id n s (err e t) =
    (t ≡ s)
    × (((e ≡ bad_subscriptionidinvalid)
          × (republish session id n s ≡ err bad_subscriptionidinvalid s))
        ⊎ ((e ≡ bad_sequencenumberunknown)
            × (republish session id n s ≡ err bad_messagenotavailable s)))
AckOutcome session id n s fault = ⊥

find_purged :
    (s : Engine) (session id i : ℕ) (sub : Subscription)
    → subscription_find s session id ≡ some (i, sub)
    → owned session id sub ≡ true
    → subscription_find (record s { subscriptions = set s.subscriptions i (purged sub) }) session id
      ≡ some (i, purged sub)
unfolding subscription_find
find_purged s session id i sub e passed =
    find_from-set_found (owned session id) s.subscriptions i sub (purged sub) e passed

subscription_find-FoundAt :
    (s : Engine) (session id : ℕ)
    → FoundAt (owned session id) 0 s.subscriptions (subscription_find s session id)
unfolding subscription_find
subscription_find-FoundAt s session id = find_from-FoundAt (owned session id) 0 s.subscriptions

acknowledge_in-AckOutcome :
    (session id n : ℕ) (s : Engine) (o : Option (ℕ × Subscription))
    → subscription_find s session id ≡ o
    → FoundAt (owned session id) 0 s.subscriptions o
    → AckOutcome session id n s (acknowledge_in n s o)
unfolding republish
acknowledge_in-AckOutcome session id n s none e f = (refl, inl (refl, rw e refl))
acknowledge_in-AckOutcome session id n s (some (i, sub)) e (k, at, got, passed) =
    elim (Bool-cases (holds sub.retransmit n)) [
      | inl h ↦ rw h ((sub.retransmit.message, rw e (rw h refl)), λ m. rw (again m) refl)
      | inr h ↦ rw h (refl, inr (refl, rw e (rw h refl)))
    ]
  where
    again :
        (m : ℕ)
        → subscription_find
            (record s { subscriptions = set s.subscriptions i (purged sub) })
            session
            id
          ≡ some (i, purged sub)
    again m = find_purged s session id i sub e passed

-- Acknowledging a message succeeds exactly if the message could be published again, and afterwards no message of
-- the subscription can be; a refused call changes nothing.
pub acknowledge-AckOutcome :
    (session id n : ℕ) (s : Engine) → AckOutcome session id n s (acknowledge session id n s)
unfolding acknowledge
acknowledge-AckOutcome session id n s =
    acknowledge_in-AckOutcome session id n s _ refl (subscription_find-FoundAt s session id)

not_owned :
    (session id : ℕ) (subs : List Subscription)
    → Free subscription_key id subs
    → All (λ sub. owned session id sub ≡ false) subs
not_owned session id [] h = tt
not_owned session id (sub ∷ subs) (p, h) = (other, not_owned session id subs h)
  where
    other : owned session id sub ≡ false
    other = elim (Bool-cases (owned session id sub)) [
      | inl e ↦ absurd (p (ground (arith, e)))
      | inr e ↦ e
    ]

none_found :
    {A : Type 0} (test : A → Bool) (n : ℕ) (xs : List A)
    → All (λ x. test x ≡ false) xs
    → find_from test n xs ≡ none
unfolding find_from
none_found test n [] h = refl
none_found test n (x ∷ xs) (p, h) = rw p (none_found test (suc n) xs h)

none_left :
    (id : ℕ) (items : List MonitoredItem) (n : ℕ)
    → All (λ item. in_subscription id item ≡ false) (clear_items id items n).0
unfolding clear_items
none_left id [] n = tt
none_left id (item ∷ items) n = elim (Bool-cases (in_subscription id item)) [
  | inl e ↦ rw e (refl, none_left id items (one_less n))
  | inr e ↦ rw e (e, none_left id items n)
]

-- What deleting a subscription may come to.
abbrev pub DeleteOutcome : ℕ → ℕ → Engine → Outcome Engine (Unit {0}) → Type 0
DeleteOutcome session id s (ok u t) =
    ((i : ℕ) × (sub : Subscription) × (subscription_find s session id ≡ some (i, sub)))
    × ((other : ℕ) → subscription_find t other id ≡ none)
    × All (λ item. in_subscription id item ≡ false) t.monitored_items
DeleteOutcome session id s (err e t) =
    (e ≡ bad_subscriptionidinvalid) × (t ≡ s) × (subscription_find s session id ≡ none)
DeleteOutcome session id s fault = ⊥

delete_at-DeleteOutcome :
    (session id : ℕ) (s : Engine) (o : Option (ℕ × Subscription))
    → IsEngine s
    → subscription_find s session id ≡ o
    → FoundAt (owned session id) 0 s.subscriptions o
    → DeleteOutcome session id s (delete_at id s o)
unfolding subscription_find
delete_at-DeleteOutcome session id s none h e f = (refl, refl, e)
delete_at-DeleteOutcome session id s (some (i, sub)) h e (k, at, got, passed) = (
  (i, sub, e),
  (λ other. none_found (owned other id) 0 (set s.subscriptions i zero_subscription) (
      not_owned other id _ (
        removed-Free subscription_key s.subscriptions i sub zero_subscription id
          h.unique_subscriptions (ap (get_elem? s.subscriptions) (omega (arith, at)) ∙ got)
          (ground (arith, passed)) (λ k. ground (arith, k))))),
  none_left id s.monitored_items s.active_monitored_items_count,
)

-- A session deletes a subscription exactly if it owns it; afterwards no session has a subscription with this id,
-- and no monitored item in use belongs to it. A refused call changes nothing.
pub delete-DeleteOutcome :
    (session id : ℕ) (s : Engine) → IsEngine s → DeleteOutcome session id s (delete session id s)
unfolding delete
delete-DeleteOutcome session id s h =
    delete_at-DeleteOutcome session id s _ h refl (subscription_find-FoundAt s session id)
