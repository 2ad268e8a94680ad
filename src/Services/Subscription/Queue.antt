-- ===== src/Services/Subscription/Queue.antt =====
-- src/services/subscription.c: the queue of reports of a monitored item.
pub mod Bounds
pub mod Refine
pub mod Drain
use micro_opcua.Base.{
  ℕ, zero, suc, ◌+◌, ◌-◌, ◌%◌, ◌^◌, Bool, true, false, List, [], ◌∷◌, set, ltb, leb, ◌==◌,
  if◌then◌else◌, length,
}
use Prim.Native.Nat.{bit_or}
use micro_opcua.Services.Subscription.{Entry, Ring, zero_entry}

-- queue[i]; the index is in bounds wherever the code reads, by Bounds.
abbrev pub get_or : List Entry → ℕ → Entry → Entry
get_or [] i d = d
get_or (x ∷ xs) zero d = x
get_or (x ∷ xs) (suc i) d = get_or xs i d

-- MU_STATUSCODE_INFOTYPE_DATAVALUE_OVERFLOW
abbrev pub infotype_datavalue_overflow : ℕ
infotype_datavalue_overflow = 0x480

abbrev pub clamp_size : ℕ → ℕ → ℕ
clamp_size depth queue_size =
    let at_least = if queue_size == 0 then 1 else queue_size in
    if ltb depth at_least then depth else at_least

-- monitored_item_effective_queue_size; the size is that of the result.
unfoldable pub effective_queue_size : Ring → Ring
effective_queue_size r =
    let queue_size = clamp_size (length r.entries) r.queue_size in
    record r {
      queue_size = queue_size;
      queue_head = if leb queue_size r.queue_head then 0 else r.queue_head;
      queue_tail = if leb queue_size r.queue_tail then 0 else r.queue_tail;
      queue_count = if ltb queue_size r.queue_count then queue_size % 256 else r.queue_count;
    }

abbrev pub queue_next : ℕ → ℕ → ℕ
queue_next index queue_size = if leb queue_size ((index + 1) % 256) then 0 else (index + 1) % 256

abbrev pub queue_previous : ℕ → ℕ → ℕ
queue_previous index queue_size =
    if index == 0 then (queue_size + 2 ^ 32 - 1) % 2 ^ 32 % 256 else index - 1

abbrev pub overflowed : Entry → Entry
overflowed e = record e { status = bit_or e.status infotype_datavalue_overflow }

abbrev pub mark_overflow : Ring → ℕ → Ring
mark_overflow r index = record r {
  entries = set r.entries index (overflowed (get_or r.entries index zero_entry));
  queue_overflow = true;
}

-- The first branch: there is room.
abbrev pub append_report : Ring → Entry → Ring
append_report r e = record r {
  entries = set r.entries r.queue_tail e;
  queue_tail = queue_next r.queue_tail r.queue_size;
  queue_count = (r.queue_count + 1) % 256;
}

-- The second branch: the oldest report makes room.
abbrev pub replace_oldest : Ring → Entry → Ring
replace_oldest r e =
    let head = queue_next r.queue_head r.queue_size in
    mark_overflow
      (record r {
        queue_head = head;
        entries = set r.entries r.queue_tail e;
        queue_tail = queue_next r.queue_tail r.queue_size;
      })
      head

-- The third branch: the newest report is overwritten.
abbrev pub replace_newest : Ring → Entry → Ring
replace_newest r e =
    let newest = queue_previous r.queue_tail r.queue_size in
    mark_overflow (record r { entries = set r.entries newest e }) newest

abbrev pub enqueue_into : Ring → Entry → Ring
enqueue_into r e =
    if ltb r.queue_count r.queue_size
    then append_report r e
    else if r.discard_oldest
    then replace_oldest r e
    else replace_newest r e

-- The part of monitored_item_enqueue_report on the queue.
unfoldable pub enqueue : Ring → Entry → Ring
unfolding effective_queue_size
enqueue r e = enqueue_into (effective_queue_size r) e

-- while (item->queue_count > 0u && *remaining > 0): the count goes down by one in each round.
pub drain_rounds : ℕ → ℕ → ℕ → Ring → Ring × ℕ
drain_rounds zero remaining size r = (r, remaining)
drain_rounds (suc count) zero size r = (r, zero)
drain_rounds (suc count) (suc remaining) size r =
    drain_rounds count remaining size
      (record r { queue_head = queue_next r.queue_head size; queue_count = count })

abbrev pub rewind : Ring → Ring
rewind r =
    if r.queue_count == 0
    then record r { queue_head = 0; queue_tail = 0; queue_overflow = false }
    else r

-- From the effective size on.
abbrev pub drain_from : Ring → ℕ → Ring × ℕ
drain_from r remaining = (
  rewind (drain_rounds r.queue_count remaining r.queue_size r).0,
  (drain_rounds r.queue_count remaining r.queue_size r).1,
)

-- The part of monitored_item_drain_reported_entries on the queue, with what is left of `*remaining`.
unfoldable pub drain : Ring → ℕ → Ring × ℕ
unfolding effective_queue_size
drain r remaining = drain_from (effective_queue_size r) remaining
