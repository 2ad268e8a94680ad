-- ===== src/Services/Subscription/Table/Reach.antt =====
-- The tables of subscription.c after any sequence of calls.
use micro_opcua.Base.{ℕ, zero, suc, ◌^◌, ◌-◌, ◌<◌, ◌≡◌, refl, length, arith}
use micro_opcua.Services.Subscription.{Engine, replicate, zero_subscription, zero_item}
use micro_opcua.Services.Subscription.Table.{
  Parameters, create, acknowledge, delete, item_alloc, item_delete, request_resend_data,
  subscriptions_init,
}
use micro_opcua.Services.Subscription.Table.Unique.{count, Unique}
use micro_opcua.Services.Subscription.Table.Keep.{
  subscription_key, item_key, used, IsEngine, left, create-IsEngine, item_alloc-IsEngine,
}
use micro_opcua.Services.Subscription.Table.Change.{
  delete-IsEngine, item_delete-IsEngine, acknowledge-IsEngine, request_resend_data-IsEngine,
}

-- One call, whatever its outcome.
pub data Step (s : Engine) : Engine → Type 0 where
  created : (p : Parameters) (now : ℕ) → Step s (left (create p now s) s)
  deleted : (session id : ℕ) → Step s (left (delete session id s) s)
  acknowledged : (session id n : ℕ) → Step s (left (acknowledge session id n s) s)
  resent : (session id : ℕ) → Step s (left (request_resend_data session id s) s)
  allocated : (subscription : ℕ) → Step s (left (item_alloc subscription s) s)
  removed : (subscription id : ℕ) → Step s (left (item_delete subscription id s) s)

pub data Reach (s : Engine) : Engine → Type 0 where
  here : Reach s s
  next : {t u : Engine} → Reach s t → Step t u → Reach s u

Step-IsEngine : {s t : Engine} → Step s t → IsEngine s → IsEngine t
Step-IsEngine {s} (created p now) h = create-IsEngine p now s h
Step-IsEngine {s} (deleted session id) h = delete-IsEngine session id s h
Step-IsEngine {s} (acknowledged session id n) h = acknowledge-IsEngine session id n s h
Step-IsEngine {s} (resent session id) h = request_resend_data-IsEngine session id s h
Step-IsEngine {s} (allocated subscription) h = item_alloc-IsEngine subscription s h
Step-IsEngine {s} (removed subscription id) h = item_delete-IsEngine subscription id s h

Reach-keeps : {s t : Engine} → Reach s t → IsEngine s → IsEngine t
Reach-keeps here h = h
Reach-keeps (next r st) h = Step-IsEngine st (Reach-keeps r h)

length-replicate : {A : Type 0} (n : ℕ) (a : A) → length (replicate n a) ≡ n
length-replicate zero a = refl
length-replicate (suc n) a = omega (arith, length-replicate n a)

unused_subscriptions : (n : ℕ) → Unique subscription_key (replicate n zero_subscription)
unused_subscriptions zero = tt
unused_subscriptions (suc n) = ((λ id e. absurd (ground (arith, e))), unused_subscriptions n)

unused_items : (n depth : ℕ) → Unique item_key (replicate n (zero_item depth))
unused_items zero depth = tt
unused_items (suc n) depth = ((λ id e. absurd (ground (arith, e))), unused_items n depth)

none_used : (n depth : ℕ) → 0 ≡ count used (replicate n (zero_item depth))
unfolding count
none_used zero depth = refl
none_used (suc n) depth = omega (arith, none_used n depth)

-- From the initial tables, of fewer than 2 ^ 32 - 1 slots each, every sequence of calls leads to tables in which
-- the subscriptions in use have ids of their own that are not 0, as have the monitored items, and the number of
-- active monitored items is that of the items in use.
pub Reach-IsEngine :
    (subscriptions items requests depth : ℕ) (t : Engine)
    → subscriptions < 2 ^ 32 - 1
    → items < 2 ^ 32 - 1
    → Reach (subscriptions_init subscriptions items requests depth) t
    → IsEngine t
unfolding subscriptions_init
Reach-IsEngine subscriptions items requests depth t a b r = Reach-keeps r (record {
  unique_subscriptions = unused_subscriptions subscriptions;
  unique_items = unused_items items depth;
  counted = none_used items depth;
  few_subscriptions = omega (arith, length-replicate subscriptions zero_subscription);
  few_items = omega (arith, length-replicate items (zero_item depth));
  next_subscription = omega arith;
  next_item = omega arith;
})
