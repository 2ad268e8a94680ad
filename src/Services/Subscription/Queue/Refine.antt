-- ===== src/Services/Subscription/Queue/Refine.antt =====
-- The queue of reports of subscription.c against a bounded list, the oldest report first.
use micro_opcua.Base.{
  ℕ, zero, suc, ◌-◌, ◌≤◌, ◌<◌, ◌≡◌, ◌≢◌, ◌∙◌, sym, inl, inr, refl, ap, Bool, List, [], ◌∷◌, ◌++◌,
  length, set, drop, length-set, ltb, true, false, if◌then◌else◌, Bool-cases, arith,
}
use mathlib.Core.Path.{ap₂}
use micro_opcua.Services.Subscription.{Entry, Ring, zero_entry}
use micro_opcua.Services.Subscription.Queue.{
  get_or, queue_next, queue_previous, overflowed, append_report, replace_oldest, replace_newest,
  enqueue_into, enqueue,
}
use micro_opcua.Services.Subscription.Queue.Bounds.{
  Steps, IsRing, queue_previous-Steps, effective-IsRing, append_report-IsRing,
  replace_oldest-IsRing, replace_newest-IsRing,
}

-- The `n` reports from index `h` on.
abbrev pub window : List Entry → ℕ → ℕ → ℕ → List Entry
window xs size h zero = []
window xs size h (suc n) = get_or xs h zero_entry ∷ window xs size (queue_next h size) n

abbrev pub contents : Ring → List Entry
contents r = window r.entries r.queue_size r.queue_head r.queue_count

abbrev pub overflow_first : List Entry → List Entry
overflow_first [] = []
overflow_first (e ∷ es) = overflowed e ∷ es

abbrev pub overflow_last : List Entry → Entry → List Entry
overflow_last [] e = []
overflow_last (x ∷ []) e = overflowed e ∷ []
overflow_last (x ∷ y ∷ es) e = x ∷ overflow_last (y ∷ es) e

-- What a report does to a queue of at most `size` reports.
abbrev pub push : ℕ → Bool → List Entry → Entry → List Entry
push size discard_oldest es e =
    if ltb (length es) size
    then es ++ (e ∷ [])
    else if discard_oldest
    then overflow_first (drop 1 es ++ (e ∷ []))
    else overflow_last es e

get_or-set_self :
    (xs : List Entry) (i : ℕ) (v d : Entry) → i < length xs → get_or (set xs i v) i d ≡ v
get_or-set_self [] i v d h = absurd (omega arith)
get_or-set_self (x ∷ xs) zero v d h = refl
get_or-set_self (x ∷ xs) (suc i) v d h = get_or-set_self xs i v d (omega arith)

get_or-set_other :
    (xs : List Entry) (i j : ℕ) (v d : Entry) → i ≢ j → get_or (set xs i v) j d ≡ get_or xs j d
get_or-set_other [] i j v d h = refl
get_or-set_other (x ∷ xs) zero zero v d h = absurd (h refl)
get_or-set_other (x ∷ xs) zero (suc j) v d h = refl
get_or-set_other (x ∷ xs) (suc i) zero v d h = refl
get_or-set_other (x ∷ xs) (suc i) (suc j) v d h = get_or-set_other xs i j v d (λ e. h (ap suc e))

pub length-window : (xs : List Entry) (size h n : ℕ) → length (window xs size h n) ≡ n
length-window xs size h zero = refl
length-window xs size h (suc n) = ap suc (length-window xs size (queue_next h size) n)

module _ (size : ℕ) (small : size ≤ 255) where
  -- A place behind the window.
  window-set_out :
      (xs : List Entry) (n h i k : ℕ) (v : Entry)
      → h < size
      → n ≤ k
      → k < size
      → Steps size h k i
      → window (set xs i v) size h n ≡ window xs size h n
  window-set_out xs zero h i k v a b c s = refl
  window-set_out xs (suc n) h i zero v a b c s = absurd (omega arith)
  window-set_out xs (suc n) h i (suc k) v a b c s =
      ap₂ ◌∷◌ (get_or-set_other xs i h v zero_entry (ground arith)) (
        window-set_out xs n (queue_next h size) i k v (ground arith) (omega arith) (omega arith)
          (ground arith))

  -- The place just behind the window.
  window-set :
      (xs : List Entry) (n h i : ℕ) (v : Entry)
      → size ≤ length xs
      → h < size
      → n < size
      → Steps size h n i
      → window (set xs i v) size h (suc n) ≡ window xs size h n ++ (v ∷ [])
  window-set xs zero h i v f a b s =
      let here : i ≡ h = ground arith in
      ap (λ x. x ∷ [])
        (ap (λ j. get_or (set xs i v) j zero_entry) (sym here)
          ∙ get_or-set_self xs i v zero_entry (omega arith))
  window-set xs (suc n) h i v f a b s =
      ap₂ ◌∷◌ (get_or-set_other xs i h v zero_entry (ground arith))
        (window-set xs n (queue_next h size) i v f (ground arith) (omega arith) (ground arith))

  -- The first place of the window.
  window-set_first :
      (xs : List Entry) (n h : ℕ) (v : Entry)
      → size ≤ length xs
      → h < size
      → n < size
      → window (set xs h v) size h (suc n) ≡ v ∷ window xs size (queue_next h size) n
  window-set_first xs n h v f a b = ap₂ ◌∷◌ (get_or-set_self xs h v zero_entry (omega arith)) (
      window-set_out xs n (queue_next h size) h (size - 1) v (ground arith) (omega arith)
        (omega arith) (ground arith))

overflow_last-snoc :
    (es : List Entry) (x e : Entry) → overflow_last (es ++ (x ∷ [])) e ≡ es ++ (overflowed e ∷ [])
overflow_last-snoc [] x e = refl
overflow_last-snoc (y ∷ []) x e = refl
overflow_last-snoc (y ∷ z ∷ es) x e = ap (◌∷◌ y) (overflow_last-snoc (z ∷ es) x e)

-- A window of all places but the last, and the last.
window-snoc :
    (xs : List Entry) (size h n : ℕ)
    → (e : Entry) × (window xs size h (suc n) ≡ window xs size h n ++ (e ∷ []))
window-snoc xs size h zero = (get_or xs h zero_entry, refl)
window-snoc xs size h (suc n) =
    let (e, same) = window-snoc xs size (queue_next h size) n in
    (e, ap (◌∷◌ (get_or xs h zero_entry)) same)

append_report-push :
    (r : Ring) (e : Entry)
    → IsRing r
    → r.queue_count < r.queue_size
    → contents (append_report r e) ≡ contents r ++ (e ∷ [])
append_report-push r e v h =
    ap (window (set r.entries r.queue_tail e) r.queue_size r.queue_head) {y = suc r.queue_count}
      (ground arith)
    ∙ window-set r.queue_size (omega arith) r.entries r.queue_count r.queue_head r.queue_tail e
        v.fits v.head_in h v.tail_at

-- The queue is full.
module _ (r : Ring) (e : Entry) (n : ℕ) (v : IsRing r) (full : r.queue_size ≡ suc n)
    (count : r.queue_count ≡ suc n) where
  small : r.queue_size ≤ 255
  small = omega arith

  abbrev second : ℕ
  second = queue_next r.queue_head r.queue_size

  abbrev replaced : List Entry
  replaced = set r.entries r.queue_tail e

  replace_oldest-push :
      contents (replace_oldest r e) ≡ overflow_first (drop 1 (contents r) ++ (e ∷ []))
  replace_oldest-push =
      ap
        (window (set replaced second (overflowed (get_or replaced second zero_entry))) r.queue_size
          second)
        count
      ∙ window-set_first r.queue_size small replaced n second _
          (omega (arith, length-set r.entries r.queue_tail e, v.fits)) (ground arith) (omega arith)
      ∙ ap overflow_first (
          window-set r.queue_size small r.entries n second r.queue_tail e v.fits (ground arith)
            (omega arith) (ground arith))
      ∙ ap (λ k. overflow_first (drop 1 (window r.entries r.queue_size r.queue_head k) ++ (e ∷ [])))
          (sym count)

  abbrev newest : ℕ
  newest = queue_previous r.queue_tail r.queue_size

  abbrev rewritten : List Entry
  rewritten = set r.entries newest e

  newest-Steps : Steps r.queue_size r.queue_head n newest
  newest-Steps =
      queue_previous-Steps r.queue_head r.queue_size n r.queue_tail v.head_in small (omega arith)
        (ground arith)

  replace_newest-push : contents (replace_newest r e) ≡ overflow_last (contents r) e
  replace_newest-push =
      let (x, last) = window-snoc r.entries r.queue_size r.queue_head n in
      let written : get_or rewritten newest zero_entry ≡ e =
        get_or-set_self r.entries newest e zero_entry (omega (arith, newest-Steps.1)) in
      ap
        (window (set rewritten newest (overflowed (get_or rewritten newest zero_entry)))
          r.queue_size r.queue_head)
        count
      ∙ window-set r.queue_size small rewritten n r.queue_head newest _
          (omega (arith, length-set r.entries newest e, v.fits)) v.head_in (omega arith)
          newest-Steps
      ∙ ap₂ (λ es y. es ++ (overflowed y ∷ []))
          (window-set_out r.queue_size small r.entries n r.queue_head newest n e v.head_in
            (omega arith) (omega arith) newest-Steps)
          written
      ∙ sym (overflow_last-snoc (window r.entries r.queue_size r.queue_head n) x e)
      ∙ ap (λ es. overflow_last es e) (sym last)
      ∙ ap (λ k. overflow_last (window r.entries r.queue_size r.queue_head k) e) (sym count)

enqueue-IsRing : (r : Ring) (e : Entry) → IsRing r → enqueue r e ≡ enqueue_into r e
unfolding enqueue
enqueue-IsRing r e v = ap (λ s. enqueue_into s e) (effective-IsRing r v)

-- A report is put into the queue of a monitored item as into a list of at most as many reports as the queue
-- holds: behind the others where there is room; otherwise the oldest is dropped and the then oldest is marked
-- as an overflow, or the newest is overwritten and marked. The queue stays well formed.
pub enqueue-push :
    (r : Ring) (e : Entry)
    → IsRing r
    → (contents (enqueue r e) ≡ push r.queue_size r.discard_oldest (contents r) e)
      × IsRing (enqueue r e)
enqueue-push r e v =
    rw (enqueue-IsRing r e v, length-window r.entries r.queue_size r.queue_head r.queue_count)
      (elim (Bool-cases (ltb r.queue_count r.queue_size)) [
        | inl k ↦
            rw k
              (append_report-push r e v (ground arith), append_report-IsRing r e v (ground arith))
        | inr k ↦ rw k (full r.discard_oldest (ground arith))
      ])
  where
    full :
        (d : Bool)
        → r.queue_count ≡ r.queue_size
        → (contents (if d then replace_oldest r e else replace_newest r e) ≡ (
            if d
            then overflow_first (drop 1 (contents r) ++ (e ∷ []))
            else overflow_last (contents r) e))
          × IsRing (if d then replace_oldest r e else replace_newest r e)
    full true c = (
      replace_oldest-push r e (r.queue_size - 1) v (ground arith) (ground arith),
      replace_oldest-IsRing r e v c,
    )
    full false c = (
      replace_newest-push r e (r.queue_size - 1) v (ground arith) (ground arith),
      replace_newest-IsRing r e v c,
    )
