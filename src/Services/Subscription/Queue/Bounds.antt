-- ===== src/Services/Subscription/Queue/Bounds.antt =====
-- The queue of reports stays within its array.
use micro_opcua.Base.{ℕ, suc, ◌+◌, ◌≤◌, ◌<◌, ◌≡◌, ◌⊎◌, ◌∙◌, List, length, set, length-set, arith}
use micro_opcua.Services.Subscription.{Entry, Ring}
use micro_opcua.Services.Subscription.Queue.{
  effective_queue_size, queue_next, queue_previous, append_report, replace_oldest, replace_newest,
}

-- `i` is `k` places behind `h` in a ring of `size` places.
abbrev pub Steps : ℕ → ℕ → ℕ → ℕ → Type 0
Steps size h k i = ((i ≡ h + k) ⊎ (i + size ≡ h + k)) × (i < size)

-- The array has room for the queue, whose reports stand from the head to the tail.
pub record IsRing (r : Ring) : Type 0 where
  pub sized : 0 < r.queue_size
  pub fits : r.queue_size ≤ length r.entries
  pub small : length r.entries ≤ 255
  pub head_in : r.queue_head < r.queue_size
  pub count_in : r.queue_count ≤ r.queue_size
  pub tail_at : Steps r.queue_size r.queue_head r.queue_count r.queue_tail

pub queue_next-Steps : (h size : ℕ) → h < size → size ≤ 255 → Steps size h 1 (queue_next h size)
queue_next-Steps h size a b = ground arith

pub queue_previous-Steps :
    (h size k i : ℕ)
    → h < size
    → size ≤ 255
    → suc k ≤ size
    → Steps size h (suc k) i
    → Steps size h k (queue_previous i size)
queue_previous-Steps h size k i a b c s = ground arith

pub effective-IsRing : (r : Ring) → IsRing r → effective_queue_size r ≡ r
unfolding effective_queue_size
effective-IsRing r v = ground arith

pub append_report-IsRing :
    (r : Ring) (e : Entry) → IsRing r → r.queue_count < r.queue_size → IsRing (append_report r e)
append_report-IsRing r e v h = ground (arith, length-set r.entries r.queue_tail e)

length-set-set :
    (xs : List Entry) (i j : ℕ) (a b : Entry) → length (set (set xs i a) j b) ≡ length xs
length-set-set xs i j a b = length-set (set xs i a) j b ∙ length-set xs i a

pub replace_oldest-IsRing :
    (r : Ring) (e : Entry) → IsRing r → r.queue_count ≡ r.queue_size → IsRing (replace_oldest r e)
replace_oldest-IsRing r e v h =
    let second : ℕ = queue_next r.queue_head r.queue_size in
    let same : length (replace_oldest r e).entries ≡ length r.entries =
      length-set-set r.entries r.queue_tail second e _ in
    record {
      sized = v.sized;
      fits = ground (arith, same);
      small = ground (arith, same);
      head_in = ground arith;
      count_in = v.count_in;
      tail_at = ground arith;
    }

pub replace_newest-IsRing :
    (r : Ring) (e : Entry) → IsRing r → r.queue_count ≡ r.queue_size → IsRing (replace_newest r e)
replace_newest-IsRing r e v h =
    let newest : ℕ = queue_previous r.queue_tail r.queue_size in
    let same : length (replace_newest r e).entries ≡ length r.entries =
      length-set-set r.entries newest newest e _ in
    record {
      sized = v.sized;
      fits = ground (arith, same);
      small = ground (arith, same);
      head_in = v.head_in;
      count_in = v.count_in;
      tail_at = v.tail_at;
    }
