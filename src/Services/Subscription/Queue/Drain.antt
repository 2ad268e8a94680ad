-- ===== src/Services/Subscription/Queue/Drain.antt =====
-- Reports leave the queue of a monitored item in order.
use micro_opcua.Base.{
  ℕ, zero, suc, ◌-◌, ◌≡◌, ◌∙◌, sym, inl, inr, refl, ap, drop, drop-nil, ◌==◌, Bool-cases, arith,
}
use micro_opcua.Services.Subscription.{Ring}
use micro_opcua.Services.Subscription.Queue.{queue_next, drain_rounds, rewind, drain_from, drain}
use micro_opcua.Services.Subscription.Queue.Bounds.{IsRing, effective-IsRing}
use micro_opcua.Services.Subscription.Queue.Refine.{window, contents}

-- What `n` rounds leave of a queue.
abbrev pub Drained : Ring → ℕ → Ring × ℕ → Type 0
Drained r n (t, left) =
    (contents t ≡ drop n (contents r))
    × (left ≡ n - r.queue_count)
    × (t.queue_count ≡ r.queue_count - n)
    × (t.queue_size ≡ r.queue_size)
    × IsRing t

one_round :
    (r : Ring) (count : ℕ)
    → IsRing r
    → r.queue_count ≡ suc count
    → IsRing (record r { queue_head = queue_next r.queue_head r.queue_size; queue_count = count })
one_round r count v c = ground arith

drain_rounds-Drained :
    (count n : ℕ) (r : Ring)
    → IsRing r
    → r.queue_count ≡ count
    → Drained r n (drain_rounds count n r.queue_size r)
unfolding drain_rounds
drain_rounds-Drained zero n r v c = (nothing, omega arith, omega arith, refl, v)
  where
    nothing : contents r ≡ drop n (contents r)
    nothing =
        ap (window r.entries r.queue_size r.queue_head) c
        ∙ sym (drop-nil n)
        ∙ ap (λ k. drop n (window r.entries r.queue_size r.queue_head k)) (sym c)
drain_rounds-Drained (suc count) zero r v c = (refl, omega arith, omega arith, refl, v)
drain_rounds-Drained (suc count) (suc n) r v c =
    let (same, left, counts, size, valid) =
      drain_rounds-Drained count n
        (record r { queue_head = queue_next r.queue_head r.queue_size; queue_count = count })
        (one_round r count v c) refl in
    (
      same ∙ ap (λ k. drop (suc n) (window r.entries r.queue_size r.queue_head k)) (sym c),
      left ∙ omega arith,
      counts ∙ omega arith,
      size,
      valid,
    )

rewind-Drained :
    (r : Ring) (n : ℕ) (t : Ring) (left : ℕ) → Drained r n (t, left) → Drained r n (rewind t, left)
rewind-Drained r n t left (same, rest, counts, size, valid) =
    elim (Bool-cases (t.queue_count == 0)) [
      | inl k ↦ rw k (empty (ground arith), rest, counts, size, ground arith)
      | inr k ↦ rw k (same, rest, counts, size, valid)
    ]
  where
    empty : t.queue_count ≡ 0 → window t.entries t.queue_size 0 t.queue_count ≡ drop n (contents r)
    empty c =
        ap (window t.entries t.queue_size 0) c
        ∙ ap (window t.entries t.queue_size t.queue_head) (sym c)
        ∙ same

drain-IsRing : (r : Ring) (n : ℕ) → IsRing r → drain r n ≡ drain_from r n
unfolding drain
drain-IsRing r n v = ap (λ s. drain_from s n) (effective-IsRing r v)

-- Draining at most `n` reports takes the oldest ones out of the queue, says how many of the `n` are left over,
-- and leaves the queue well formed.
pub drain-Drained : (r : Ring) (n : ℕ) → IsRing r → Drained r n (drain r n)
drain-Drained r n v = rw (drain-IsRing r n v) (
    rewind-Drained r n (drain_rounds r.queue_count n r.queue_size r).0
      (drain_rounds r.queue_count n r.queue_size r).1
      (drain_rounds-Drained r.queue_count n r v refl))
