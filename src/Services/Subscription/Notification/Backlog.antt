-- ===== src/Services/Subscription/Notification/Backlog.antt =====
-- The reports that wait in the queues of the monitored items of subscription.c, and how many of them a publish
-- response takes.
use micro_opcua.Base.{
  ℕ, zero, suc, ◌+◌, ◌≤◌, ◌≡◌, ◌⊎◌, refl, ap, ◌∙◌, inl, inr, Bool, true, false, not, ◌&&◌, List, [],
  ◌∷◌, ◌++◌, length, All, length-append, ltb, leb, ◌==◌, if◌then◌else◌, Bool-cases, arith,
}
use Prim.Native.Nat.{min}
use micro_opcua.Services.Subscription.{Entry, MonitoredItem}
use micro_opcua.Services.Subscription.Queue.Bounds.{IsRing}
use micro_opcua.Services.Subscription.Queue.Refine.{contents, length-window}
use micro_opcua.Services.Subscription.Notification.{
  reportable, reports_by_trigger, count_queue_entries, count_pass, count_reportable_items,
}

-- Reports with the client handle that goes out with them.
abbrev pub with_handle : ℕ → List Entry → List (ℕ × Entry)
with_handle h [] = []
with_handle h (e ∷ es) = (h, e) ∷ with_handle h es

abbrev pub reports : MonitoredItem → List (ℕ × Entry)
reports item = with_handle item.client_handle (contents item.ring)

abbrev pub reports_if : Bool → MonitoredItem → List (ℕ × Entry)
reports_if true item = reports item
reports_if false item = []

-- The reports of the items that pass a test.
abbrev pub backlog : (MonitoredItem → Bool) → List MonitoredItem → List (ℕ × Entry)
backlog test [] = []
backlog test (item ∷ items) = reports_if (test item) item ++ backlog test items

-- The reports that are due for a subscription: first those of the reporting items, then those of the items that
-- one of them triggers.
abbrev pub due : List MonitoredItem → ℕ → List (ℕ × Entry)
due items sub = backlog (reportable sub) items ++ backlog (reports_by_trigger items sub) items

abbrev pub Queued : List MonitoredItem → Type 0
Queued items = All (λ item. IsRing item.ring) items

pub length-with_handle : (h : ℕ) (es : List Entry) → length (with_handle h es) ≡ length es
length-with_handle h [] = refl
length-with_handle h (e ∷ es) = ap suc (length-with_handle h es)

pub length-reports : (item : MonitoredItem) → length (reports item) ≡ item.ring.queue_count
length-reports item =
    length-with_handle item.client_handle (contents item.ring)
    ∙ length-window item.ring.entries item.ring.queue_size item.ring.queue_head
        item.ring.queue_count

pub length-reports_if :
    (b : Bool) (item : MonitoredItem)
    → length (reports_if b item) ≡ (if b then item.ring.queue_count else 0)
length-reports_if true item = length-reports item
length-reports_if false item = refl

-- Counting `total` reports, at most `max` of them unless `max` is 0.
abbrev pub Counted : ℕ → ℕ → Bool × ℕ → Type 0
Counted max total (room, count) =
    (count ≡ (if max == 0 then total else min max total))
    × (room ≡ not (not (max == 0) && ltb max total))

count_queue_entries-Counted :
    (max queued count : ℕ)
    → (max ≡ 0) ⊎ (count ≤ max)
    → Counted max (count + queued) (count_queue_entries max queued count)
count_queue_entries-Counted max zero count h = ground arith
count_queue_entries-Counted max (suc queued) count h =
    elim (Bool-cases (not (max == 0) && leb max count)) [
      | inl e ↦ rw e (ground arith)
      | inr e ↦
          rw e (ground (arith, count_queue_entries-Counted max queued (count + 1) (ground arith)))
    ]

count_pass-Counted :
    (test : MonitoredItem → Bool) (max count : ℕ) (items : List MonitoredItem)
    → (max ≡ 0) ⊎ (count ≤ max)
    → Counted max (count + length (backlog test items)) (count_pass test max items count)
count_pass-Counted test max count [] h = ground arith
count_pass-Counted test max count (item ∷ items) h =
    let q : ℕ = if test item then item.ring.queue_count else 0 in
    let step : Bool × ℕ = count_queue_entries max q count in
    let first : Counted max (count + q) step = count_queue_entries-Counted max q count h in
    let bound : (max ≡ 0) ⊎ (step.1 ≤ max) = ground (arith, first) in
    let rest : Counted max (step.1 + length (backlog test items))
        (count_pass test max items step.1) =
      count_pass-Counted test max step.1 items bound in
    let total : length (backlog test (item ∷ items)) ≡ q + length (backlog test items) =
      length-append (reports_if (test item) item) (backlog test items)
      ∙ ap (λ n. n + length (backlog test items)) (length-reports_if (test item) item) in
    elim (Bool-cases step.0) [
      | inl e ↦ rw e (ground (arith, first, rest, total, e))
      | inr e ↦ rw e (ground (arith, first, total, e))
    ]

-- The reports that are due are counted up to the limit of the subscription, where it has one, and more
-- notifications are announced exactly if there are more reports than the limit allows.
pub count_reportable_items-due :
    (items : List MonitoredItem) (sub max : ℕ)
    → ((count_reportable_items items sub max).1
        ≡ (if max == 0 then length (due items sub) else min max (length (due items sub))))
      × ((count_reportable_items items sub max).0
          ≡ (not (max == 0) && ltb max (length (due items sub))))
unfolding count_reportable_items
count_reportable_items-due items sub max =
    let first : Bool × ℕ = count_pass (reportable sub) max items 0 in
    let one : Counted max (0 + length (backlog (reportable sub) items)) first =
      count_pass-Counted (reportable sub) max 0 items (ground arith) in
    let two : Counted max (first.1 + length (backlog (reports_by_trigger items sub) items))
        (count_pass (reports_by_trigger items sub) max items first.1) =
      count_pass-Counted (reports_by_trigger items sub) max first.1 items (ground (arith, one)) in
    let total : length (due items sub)
        ≡ length (backlog (reportable sub) items)
          + length (backlog (reports_by_trigger items sub) items) =
      length-append (backlog (reportable sub) items)
        (backlog (reports_by_trigger items sub) items) in
    elim (Bool-cases first.0) [
      | inl e ↦ rw e (ground (arith, one, two, total, e))
      | inr e ↦ rw e (ground (arith, one, total, e))
    ]
