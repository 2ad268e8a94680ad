-- ===== src/Services/Subscription/Timers/Ticks.antt =====
-- Both timers of subscription.c come to the first of their ticks that is not due.
use micro_opcua.Base.{
  ℕ, zero, suc, ◌+◌, ◌-◌, ◌*◌, ◌/◌, ◌%◌, ◌^◌, ◌≤◌, ◌<◌, ◌≡◌, refl, ap, ◌∙◌, ◌⊎◌, inl, inr, ltb, leb,
  Bool-cases, arith,
}
use Prim.Native.Nat.{min}
use native.Mathlib.Nat.{
  zero-mul, suc-mul, div-lt_iff_lt-mul, le-div_iff_mul-le, div-mul-le_self, lt-div-mul-add,
  div-le_self,
}
use micro_opcua.Base.Outcome.{Outcome, ok, err, fault}
use micro_opcua.Services.Subscription.Timers.{
  max_ms, at_least_one, add_interval, add_steps, catch_up, advance_sample_timer, publish_rounds,
  advance_publish_timer,
}

-- The ticks are `next` and what is one or more intervals later. `t` is the first of the later ones that is
-- after `now`, or the greatest number where the tick is above it.
abbrev pub IsTick : ℕ → ℕ → ℕ → ℕ → Type 0
IsTick next interval now t =
    (k : ℕ) × ((k ≡ 0) ⊎ (next + k * interval ≤ now))
    × (now < next + (k * interval + interval))
    × (t ≡ min max_ms (next + (k * interval + interval)))

abbrev pub Ticks : ℕ → ℕ → ℕ → Outcome (Unit {0}) ℕ → Type 0
Ticks next interval now (ok t u) = IsTick next interval now t
Ticks next interval now (err e u) = ⊥
Ticks next interval now fault = ⊥

first-IsTick :
    (next interval now t : ℕ)
    → now < next + interval
    → t ≡ min max_ms (next + interval)
    → IsTick next interval now t
first-IsTick next interval now t h e = (
  0,
  inl refl,
  omega (arith, h, zero-mul interval),
  e ∙ ap (min max_ms) (omega (arith, zero-mul interval)),
)

later-IsTick :
    (next interval now t : ℕ)
    → next + interval ≤ now
    → IsTick (next + interval) interval now t
    → IsTick next interval now t
later-IsTick next interval now t h (k, due, after, same) =
    let product : suc k * interval ≡ k * interval + interval = suc-mul k interval in
    (
      suc k,
      inr (past k due),
      omega (arith, product, after),
      same ∙ ap (min max_ms) (omega (arith, product)),
    )
  where
    past :
        (k : ℕ) → (k ≡ 0) ⊎ (next + interval + k * interval ≤ now) → next + suc k * interval ≤ now
    past k (inl z) =
        omega (arith, suc-mul k interval, h, zero-mul interval, ap (λ j. j * interval) z)
    past k (inr e) = omega (arith, suc-mul k interval, e)

Ticks-later :
    (next interval now : ℕ) (o : Outcome (Unit {0}) ℕ)
    → next + interval ≤ now
    → Ticks (next + interval) interval now o
    → Ticks next interval now o
Ticks-later next interval now (ok t u) h k = later-IsTick next interval now t h k
Ticks-later next interval now (err e u) h k = k
Ticks-later next interval now fault h k = k

publish_rounds-Ticks :
    (fuel next interval now : ℕ)
    → 0 < interval
    → interval ≤ max_ms
    → now < 2 ^ 64
    → now < next + fuel
    → 0 < fuel
    → Ticks next interval now (publish_rounds fuel next interval now)
unfolding publish_rounds
publish_rounds-Ticks zero next interval now p b n e f = absurd (omega arith)
publish_rounds-Ticks (suc fuel) next interval now p b n e f =
    elim (Bool-cases (ltb (max_ms - interval) next)) [
      | inl k ↦ rw k (first-IsTick next interval now max_ms (ground arith) (ground arith))
      | inr k ↦ rw k (elim (Bool-cases (leb (next + interval) now)) [
        | inl l ↦ rw l (
            Ticks-later next interval now _ (ground arith) (
              publish_rounds-Ticks fuel (next + interval) interval now p b n (omega arith)
                (ground arith)))
        | inr l ↦
            rw l (first-IsTick next interval now (next + interval) (ground arith) (ground arith))
      ])
    ]

-- The publishing timer, moved forward at a time `now` by at least one tick, ends at the first tick after `now`,
-- or at the greatest number where this is below it; the loop ends.
pub advance_publish_timer-Ticks :
    (next interval now : ℕ)
    → interval < 2 ^ 32
    → now < 2 ^ 64
    → Ticks next (at_least_one interval) now (advance_publish_timer next interval now)
unfolding advance_publish_timer
advance_publish_timer-Ticks next interval now b n =
    publish_rounds-Ticks (suc (now - next)) next (at_least_one interval) now (ground arith)
      (ground arith) n (omega arith) (omega arith)

add_interval-min :
    (next interval : ℕ)
    → interval ≤ max_ms
    → add_interval next interval ≡ min max_ms (next + interval)
add_interval-min next interval b = ground arith

add_steps-min :
    (next interval steps : ℕ)
    → 0 < interval
    → next ≤ max_ms
    → add_steps next interval steps ≡ min max_ms (next + steps * interval)
add_steps-min next interval steps p b = elim (Bool-cases (ltb ((max_ms - next) / interval) steps)) [
  | inl k ↦
      let above : max_ms - next < steps * interval = (div-lt_iff_lt-mul p).0 (ground arith) in
      rw k (omega (arith, above))
  | inr k ↦
      let within : steps * interval ≤ max_ms - next = (le-div_iff_mul-le p).0 (ground arith) in
      rw k (omega (arith, within, b))
]

add_mul : (q i : ℕ) → (q + 1) * i ≡ q * i + i
add_mul q i = ap (λ k. k * i) (omega arith) ∙ suc-mul q i

catch_up-IsTick :
    (next interval now : ℕ)
    → 0 < interval
    → interval ≤ max_ms
    → now < 2 ^ 64 - 1
    → next ≤ now
    → IsTick next interval now (catch_up next interval now)
catch_up-IsTick next interval now p b n h = elim (Bool-cases (ltb (now - next) interval)) [
  | inl k ↦
      rw k (first-IsTick next interval now _ (ground arith) (add_interval-min next interval b))
  | inr k ↦
      let q : ℕ = (now - next) / interval in
      let low : q * interval ≤ now - next = div-mul-le_self (now - next) interval in
      let high : now - next < q * interval + interval = lt-div-mul-add p in
      let few : (q + 1) % 2 ^ 64 ≡ q + 1 = omega (arith, div-le_self (now - next) interval, n) in
      rw k (
        q,
        inr (omega (arith, low, h)),
        omega (arith, high),
        ap (add_steps next interval) few
            ∙ add_steps-min next interval (q + 1) p (omega (arith, h, n))
            ∙ ap (λ j. min max_ms (next + j)) (add_mul q interval),
      )
]

-- The sampling timer, where it is due, ends at the first tick after `now`, or at the greatest number where this
-- is below it, whether it adds one interval or divides; where it is not due it stays.
pub advance_sample_timer-Ticks :
    (next interval now : ℕ)
    → interval < 2 ^ 32
    → now < 2 ^ 64 - 1
    → ((next ≤ now)
        × IsTick next (at_least_one interval) now (advance_sample_timer next interval now))
      ⊎ ((now < next) × (advance_sample_timer next interval now ≡ next))
unfolding advance_sample_timer
advance_sample_timer-Ticks next interval now b n = elim (Bool-cases (leb next now)) [
  | inl k ↦ rw k (
      inl (
        ground arith,
        catch_up-IsTick next (at_least_one interval) now (ground arith) (ground arith) n
            (ground arith),
      ))
  | inr k ↦ rw k (inr (ground arith, refl))
]
