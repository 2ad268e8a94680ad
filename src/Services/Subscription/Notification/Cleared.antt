-- ===== src/Services/Subscription/Notification/Cleared.antt =====
-- What clear_reported_items leaves: the reports that were due and were not written.
use micro_opcua.Base.{
  ℕ, zero, suc, ◌-◌, ◌≡◌, refl, sym, ap, ◌∙◌, Bool, true, false, ◌&&◌, List, [], ◌∷◌, ◌++◌, length,
  drop, drop-nil, length-append, if◌then◌else◌, arith,
}
use mathlib.Core.Path.{ap₂}
use micro_opcua.Services.Subscription.{Entry, MonitoredItem, MonitoringMode}
use micro_opcua.Services.Subscription.Queue.Bounds.{IsRing}
use micro_opcua.Services.Subscription.Queue.Refine.{contents}
use micro_opcua.Services.Subscription.Queue.Drain.{drain-Drained}
use micro_opcua.Services.Subscription.Notification.{
  reportable, reports_by_trigger, is_sampling, is_reporting, drain_item, drain_pass, flags,
  drain_flagged, clear_reported_items,
}
use micro_opcua.Services.Subscription.Notification.Backlog.{
  with_handle, reports_if, backlog, due, Queued, length-reports,
}

-- The reports of the items that are flagged.
abbrev pub flagged : List Bool → List MonitoredItem → List (ℕ × Entry)
flagged [] items = []
flagged (b ∷ bs) [] = []
flagged (b ∷ bs) (item ∷ items) = reports_if b item ++ flagged bs items

flagged-flags :
    (test : MonitoredItem → Bool) (items : List MonitoredItem)
    → flagged (flags test items) items ≡ backlog test items
flagged-flags test [] = refl
flagged-flags test (item ∷ items) =
    ap (◌++◌ (reports_if (test item) item)) (flagged-flags test items)

drain_pass-flags :
    (test : MonitoredItem → Bool) (items : List MonitoredItem) (n : ℕ)
    → drain_pass test items n ≡ drain_flagged (flags test items) items n
unfolding drain_pass drain_flagged
drain_pass-flags test [] n = refl
drain_pass-flags test (item ∷ items) zero = refl
drain_pass-flags test (item ∷ items) (suc n) =
    let step : MonitoredItem × ℕ = if test item then drain_item item (suc n) else (item, suc n) in
    ap (λ p. (step.0 ∷ p.0, p.1)) (drain_pass-flags test items step.1)

drop-append_more :
    {A : Type 0} (n : ℕ) (xs ys : List A) → drop n (xs ++ ys) ≡ drop n xs ++ drop (n - length xs) ys
drop-append_more zero [] ys = refl
drop-append_more zero (x ∷ xs) ys = ap (λ k. x ∷ (xs ++ drop k ys)) {x = 0} (omega arith)
drop-append_more (suc n) [] ys = ap (λ k. drop k ys) {x = suc n} (omega arith)
drop-append_more (suc n) (x ∷ xs) ys =
    drop-append_more n xs ys ∙ ap (λ k. drop n xs ++ drop k ys) (omega arith)

drop-with_handle :
    (h n : ℕ) (es : List Entry) → with_handle h (drop n es) ≡ drop n (with_handle h es)
drop-with_handle h zero es = refl
drop-with_handle h (suc n) [] = refl
drop-with_handle h (suc n) (e ∷ es) = drop-with_handle h n es

abbrev drain_if : Bool → MonitoredItem → ℕ → MonitoredItem × ℕ
drain_if b item n = if b then drain_item item n else (item, n)

-- What draining an item leaves, where it is flagged.
drain_if-reports :
    (b : Bool) (item : MonitoredItem) (n : ℕ)
    → IsRing item.ring
    → (reports_if b (drain_if b item n).0 ≡ drop n (reports_if b item))
      × ((drain_if b item n).1 ≡ n - length (reports_if b item))
      × IsRing (drain_if b item n).0.ring
drain_if-reports true item n v =
    let (same, left, counts, size, valid) = drain-Drained item.ring n v in
    (
      ap (with_handle item.client_handle) same
          ∙ drop-with_handle item.client_handle n (contents item.ring),
      left ∙ ap (λ k. n - k) (sym (length-reports item)),
      valid,
    )
drain_if-reports false item n v = (sym (drop-nil n), omega arith, v)

drain_flagged-flagged :
    (bs : List Bool) (items : List MonitoredItem) (n : ℕ)
    → Queued items
    → (flagged bs (drain_flagged bs items n).0 ≡ drop n (flagged bs items))
      × ((drain_flagged bs items n).1 ≡ n - length (flagged bs items))
      × Queued (drain_flagged bs items n).0
unfolding drain_flagged
drain_flagged-flagged [] items n q = (sym (drop-nil n), omega arith, q)
drain_flagged-flagged (b ∷ bs) [] n q = (sym (drop-nil n), omega arith, q)
drain_flagged-flagged (b ∷ bs) (item ∷ items) zero q = (refl, omega arith, q)
drain_flagged-flagged (b ∷ bs) (item ∷ items) (suc n) (v, q) =
    let step : MonitoredItem × ℕ = drain_if b item (suc n) in
    let (same, left, valid) = drain_if-reports b item (suc n) v in
    let (rest, last, queued) = drain_flagged-flagged bs items step.1 q in
    (
      ap₂ ◌++◌ same (rest ∙ ap (λ k. drop k (flagged bs items)) left)
          ∙ sym (drop-append_more (suc n) (reports_if b item) (flagged bs items)),
      omega (arith, last, left, length-append (reports_if b item) (flagged bs items)),
      (valid, queued),
    )

-- No item is flagged twice.
abbrev Apart : List Bool → List Bool → Type 0
Apart [] cs = Unit
Apart (b ∷ bs) [] = Unit
Apart (b ∷ bs) (c ∷ cs) = ((b && c) ≡ false) × Apart bs cs

drain_flagged-other :
    (bs cs : List Bool) (items : List MonitoredItem) (n : ℕ)
    → Apart bs cs
    → flagged cs (drain_flagged bs items n).0 ≡ flagged cs items
unfolding drain_flagged
drain_flagged-other [] cs items n a = refl
drain_flagged-other (b ∷ bs) cs [] n a = refl
drain_flagged-other (b ∷ bs) cs (item ∷ items) zero a = refl
drain_flagged-other (b ∷ bs) [] (item ∷ items) (suc n) a = refl
drain_flagged-other (true ∷ bs) (true ∷ cs) (item ∷ items) (suc n) (p, a) =
    absurd (ground (arith, p))
drain_flagged-other (true ∷ bs) (false ∷ cs) (item ∷ items) (suc n) (p, a) =
    drain_flagged-other bs cs items _ a
drain_flagged-other (false ∷ bs) (c ∷ cs) (item ∷ items) (suc n) (p, a) =
    ap (◌++◌ (reports_if c item)) (drain_flagged-other bs cs items (suc n) a)

one_mode : (m : MonitoringMode) → (is_reporting m && is_sampling m) ≡ false
one_mode MonitoringMode.disabled = refl
one_mode MonitoringMode.sampling = refl
one_mode MonitoringMode.reporting = refl

flags-Apart :
    (sub : ℕ) (all items : List MonitoredItem)
    → Apart (flags (reportable sub) items) (flags (reports_by_trigger all sub) items)
flags-Apart sub all [] = tt
flags-Apart sub all (item ∷ items) =
    (ground (arith, one_mode item.monitoring_mode), flags-Apart sub all items)

Apart-sym : (bs cs : List Bool) → Apart bs cs → Apart cs bs
Apart-sym [] [] a = tt
Apart-sym [] (c ∷ cs) a = tt
Apart-sym (b ∷ bs) [] a = tt
Apart-sym (b ∷ bs) (c ∷ cs) (p, a) = (ground (arith, p), Apart-sym bs cs a)

-- The reports that the items which were due before still hold.
abbrev pub still_due : List MonitoredItem → ℕ → List MonitoredItem → List (ℕ × Entry)
still_due items sub later =
    flagged (flags (reportable sub) items) later
    ++ flagged (flags (reports_by_trigger items sub) items) later

module _ (items : List MonitoredItem) (sub n : ℕ) (q : Queued items) where
  abbrev first : List Bool
  first = flags (reportable sub) items

  abbrev second : List Bool
  second = flags (reports_by_trigger items sub) items

  two_passes :
      (flagged first
            (drain_flagged second (drain_flagged first items n).0 (drain_flagged first items n).1).0
          ++ flagged second
              (drain_flagged second
                (drain_flagged first items n).0
                (drain_flagged first items n).1).0
        ≡ drop n (due items sub))
      × Queued
          (drain_flagged second (drain_flagged first items n).0 (drain_flagged first items n).1).0
  two_passes =
      let (same, left, valid) = drain_flagged-flagged first items n q in
      let (rest, last, queued) =
        drain_flagged-flagged second (drain_flagged first items n).0 (drain_flagged first items n).1
          valid in
      (
        ap₂ ◌++◌
              (drain_flagged-other second first (drain_flagged first items n).0
                  (drain_flagged first items n).1
                  (Apart-sym first second (flags-Apart sub items items))
                ∙ same)
              (rest
                ∙ ap₂ drop left
                    (drain_flagged-other first second items n (flags-Apart sub items items)))
            ∙ sym (drop-append_more n (flagged first items) (flagged second items))
            ∙ ap (drop n) (
                ap₂ ◌++◌ (flagged-flags (reportable sub) items)
                  (flagged-flags (reports_by_trigger items sub) items)),
        queued,
      )

  cleared_twice :
      clear_reported_items items sub n
      ≡ (drain_flagged second (drain_flagged first items n).0 (drain_flagged first items n).1).0
  unfolding clear_reported_items
  cleared_twice =
      ap (λ p. (drain_flagged second p.0 p.1).0) (drain_pass-flags (reportable sub) items n)

-- Where the queues are well formed, clearing `n` reports takes the first `n` of those that were due out of the
-- queues and leaves the others, in order, and the queues stay well formed.
pub clear_reported_items-due :
    (items : List MonitoredItem) (sub n : ℕ)
    → Queued items
    → (still_due items sub (clear_reported_items items sub n) ≡ drop n (due items sub))
      × Queued (clear_reported_items items sub n)
clear_reported_items-due items sub n q = rw (cleared_twice items sub n q) (two_passes items sub n q)
