-- ===== src/Services/Subscription/Notification/Written.antt =====
-- What the loops of write_data_change_notification write: the reports that are due, in order.
use micro_opcua.Base.{
  ℕ, zero, suc, ◌-◌, ◌≤◌, ◌<◌, ◌≡◌, refl, sym, ap, ◌∙◌, Bool, true, false, some, List, [], ◌∷◌,
  ◌++◌, length, get_elem?, take, length-append, if◌then◌else◌, arith,
}
use mathlib.Core.Path.{ap₂}
use micro_opcua.Base.Outcome.{Outcome, ok, err, fault, Prog, bind_outcome, ◌>>◌, done}
use micro_opcua.Encoding.Writer.{Writer}
use micro_opcua.Services.Subscription.{Entry, Ring, MonitoredItem, zero_entry}
use micro_opcua.Services.Subscription.Queue.{get_or, clamp_size, queue_next}
use micro_opcua.Services.Subscription.Queue.Bounds.{IsRing}
use micro_opcua.Services.Subscription.Queue.Refine.{window}
use micro_opcua.Services.Subscription.Notification.{
  reportable, reports_by_trigger, write_report, write_queue, write_item, write_pass,
}
use micro_opcua.Services.Subscription.Notification.Backlog.{
  with_handle, reports, reports_if, backlog, due, Queued, length-reports,
}

-- The reports, one after the other.
pub write_all : List (ℕ × Entry) → Prog Writer (Unit {0})
write_all [] = done tt
write_all ((h, e) ∷ rs) = write_report h e >> write_all rs

-- After `m`, what is left of `n` reports is `left`.
abbrev pub then_left : {S : Type 0} → Outcome S (Unit {0}) → ℕ → Outcome S ℕ
then_left o left = bind_outcome o (λ u. done left)

then_left_bind :
    {S : Type 0} (o : Outcome S (Unit {0})) (f : Prog S ℕ) (g : Prog S (Unit {0})) (left : ℕ)
    → ((s : S) → f s ≡ then_left (g s) left)
    → bind_outcome o (λ u. f) ≡ then_left (bind_outcome o (λ u. g)) left
then_left_bind (ok u s) f g left h = h s
then_left_bind (err e s) f g left h = refl
then_left_bind fault f g left h = refl

get_elem?-get_or :
    (xs : List Entry) (i : ℕ) (d : Entry) → i < length xs → get_elem? xs i ≡ some (get_or xs i d)
get_elem?-get_or [] i d h = absurd (omega arith)
get_elem?-get_or (x ∷ xs) zero d h = refl
get_elem?-get_or (x ∷ xs) (suc i) d h = get_elem?-get_or xs i d (omega arith)

write_queue-write_all :
    (h : ℕ) (entries : List Entry) (size queued index n : ℕ)
    → size ≤ length entries
    → size ≤ 255
    → index < size
    → (w : Writer)
    → write_queue h entries size queued index n w
      ≡ then_left
          (write_all (take n (with_handle h (window entries size index queued))) w)
          (n - queued)
unfolding write_queue write_all
write_queue-write_all h entries size zero index zero a b c w = refl
write_queue-write_all h entries size zero index (suc n) a b c w = ap (λ k. ok k w) (omega arith)
write_queue-write_all h entries size (suc queued) index zero a b c w =
    ap (λ k. ok k w) (omega arith)
write_queue-write_all h entries size (suc queued) index (suc n) a b c w =
    rw (get_elem?-get_or entries index zero_entry (omega arith)) (
      then_left_bind (write_report h (get_or entries index zero_entry) w)
        (write_queue h entries size queued (queue_next index size) n)
        (write_all (take n (with_handle h (window entries size (queue_next index size) queued))))
        (suc n - suc queued)
        (λ s.
          write_queue-write_all h entries size queued (queue_next index size) n a b (ground arith) s
          ∙ ap
              (then_left (
                write_all
                  (take n (with_handle h (window entries size (queue_next index size) queued))) s))
              (omega arith)))

clamp_size-IsRing :
    (r : Ring) → IsRing r → clamp_size (length r.entries) r.queue_size ≡ r.queue_size
clamp_size-IsRing r v = ground arith

write_item-write_all :
    (item : MonitoredItem) (n : ℕ)
    → IsRing item.ring
    → (w : Writer)
    → write_item item n w
      ≡ then_left (write_all (take n (reports item)) w) (n - item.ring.queue_count)
write_item-write_all item n v w =
    ap
      (λ size.
        write_queue item.client_handle item.ring.entries size item.ring.queue_count
          item.ring.queue_head n w)
      (clamp_size-IsRing item.ring v)
    ∙ write_queue-write_all item.client_handle item.ring.entries item.ring.queue_size
        item.ring.queue_count item.ring.queue_head n v.fits (omega (arith, v.fits, v.small))
        v.head_in w

write_all-append :
    (xs ys : List (ℕ × Entry)) (w : Writer)
    → write_all (xs ++ ys) w ≡ bind_outcome (write_all xs w) (λ u. write_all ys)
unfolding write_all
write_all-append [] ys w = refl
write_all-append ((h, e) ∷ xs) ys w = through (write_report h e w) (λ s. write_all-append xs ys s)
  where
    through :
        (o : Outcome Writer (Unit {0}))
        → ((s : Writer)
            → write_all (xs ++ ys) s ≡ bind_outcome (write_all xs s) (λ u. write_all ys))
        → bind_outcome o (λ u. write_all (xs ++ ys))
          ≡ bind_outcome (bind_outcome o (λ u. write_all xs)) (λ u. write_all ys)
    through (ok u s) h = h s
    through (err e s) h = refl
    through fault h = refl

take-append_more :
    {A : Type 0} (n : ℕ) (xs ys : List A) → take n (xs ++ ys) ≡ take n xs ++ take (n - length xs) ys
take-append_more zero [] ys = refl
take-append_more zero (x ∷ xs) ys = ap (λ k. take k ys) {x = 0} (omega arith)
take-append_more (suc n) [] ys = ap (λ k. take k ys) {x = suc n} (omega arith)
take-append_more (suc n) (x ∷ xs) ys =
    ap (◌∷◌ x) (take-append_more n xs ys ∙ ap (λ k. take n xs ++ take k ys) (omega arith))

take-nil : {A : Type 0} (n : ℕ) → take {A = A} n [] ≡ []
take-nil zero = refl
take-nil (suc n) = refl

-- Two programs that write reports, one after the other.
both_write :
    (n : ℕ) (xs ys : List (ℕ × Entry)) (f : ℕ → Prog Writer ℕ) (w : Writer)
    → ((s : Writer)
        → f (n - length xs) s
          ≡ then_left (write_all (take (n - length xs) ys) s) (n - length xs - length ys))
    → bind_outcome (then_left (write_all (take n xs) w) (n - length xs)) f
      ≡ then_left (write_all (take n (xs ++ ys)) w) (n - length (xs ++ ys))
both_write n xs ys f w h =
    through (write_all (take n xs) w)
    ∙ ap₂ then_left
        (sym (write_all-append (take n xs) (take (n - length xs) ys) w)
          ∙ ap (λ zs. write_all zs w) (sym (take-append_more n xs ys)))
        (omega (arith, length-append xs ys))
  where
    through :
        (o : Outcome Writer (Unit {0}))
        → bind_outcome (then_left o (n - length xs)) f
          ≡ then_left
              (bind_outcome o (λ u. write_all (take (n - length xs) ys)))
              (n - length xs - length ys)
    through (ok u s) = h s
    through (err e s) = refl
    through fault = refl

write_if-write_all :
    (b : Bool) (item : MonitoredItem) (n : ℕ)
    → IsRing item.ring
    → (w : Writer)
    → (if b then write_item item n else done n) w
      ≡ then_left (write_all (take n (reports_if b item)) w) (n - length (reports_if b item))
unfolding write_all
write_if-write_all true item n v w =
    write_item-write_all item n v w
    ∙ ap (λ k. then_left (write_all (take n (reports item)) w) (n - k)) (sym (length-reports item))
write_if-write_all false item n v w =
    ap (λ k. ok k w) {y = n - 0} (omega arith)
    ∙ ap (λ xs. then_left (write_all xs w) (n - 0)) (sym (take-nil n))

write_pass-write_all :
    (test : MonitoredItem → Bool) (items : List MonitoredItem) (n : ℕ)
    → Queued items
    → (w : Writer)
    → write_pass test items n w
      ≡ then_left (write_all (take n (backlog test items)) w) (n - length (backlog test items))
unfolding write_pass write_all
write_pass-write_all test [] n q w = write_nothing
  where
    write_nothing : ok n w ≡ then_left (write_all (take n []) w) (n - 0)
    write_nothing =
        ap (λ k. ok k w) {y = n - 0} (omega arith)
        ∙ ap (λ xs. then_left (write_all xs w) (n - 0)) (sym (take-nil n))
write_pass-write_all test (item ∷ items) n (v, q) w =
    ap (λ o. bind_outcome o (λ left. write_pass test items left))
      (write_if-write_all (test item) item n v w)
    ∙ both_write n (reports_if (test item) item) (backlog test items)
        (λ left. write_pass test items left) w (λ s. write_pass-write_all test items _ q s)

-- Where the queues are well formed, the two loops of a data change notification write the first `n` of the
-- reports that are due, in order and each once, and end as writing these reports ends.
pub write_pass-due :
    (items : List MonitoredItem) (sub n : ℕ) (w : Writer)
    → Queued items
    → bind_outcome
        (write_pass (reportable sub) items n w)
        (λ left. write_pass (reports_by_trigger items sub) items left)
      ≡ then_left (write_all (take n (due items sub)) w) (n - length (due items sub))
write_pass-due items sub n w q =
    ap (λ o. bind_outcome o (λ left. write_pass (reports_by_trigger items sub) items left))
      (write_pass-write_all (reportable sub) items n q w)
    ∙ both_write n (backlog (reportable sub) items) (backlog (reports_by_trigger items sub) items)
        (λ left. write_pass (reports_by_trigger items sub) items left) w
        (λ s. write_pass-write_all (reports_by_trigger items sub) items _ q s)
