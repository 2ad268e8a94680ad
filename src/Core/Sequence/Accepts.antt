-- ===== src/Core/Sequence/Accepts.antt =====
-- Which runs of SequenceNumbers the validator of sequence.c lets through.
use micro_opcua.Base.{
  ℕ, ◌+◌, ◌%◌, ◌^◌, ◌<◌, ◌≡◌, ◌≢◌, ◌↔◌, refl, inl, inr, Bool, true, false, List, [], ◌∷◌, arith,
  ◌==◌, if◌then◌else◌, Bool-cases,
}
use micro_opcua.Base.Status.{good, bad_securitychecksfailed}
use micro_opcua.Core.Sequence.{Validator, validator_init, wrap_limit, validate}

-- OPC 10000-6 6.7.2.4: the next number, or a wrap-around from above UInt32.MaxValue - 1024 to below 1024.
pub data Follows : ℕ → ℕ → Type 0 where
  next : (a b : ℕ) → b ≡ (a + 1) % 2 ^ 32 → Follows a b
  wrap : (a b : ℕ) → wrap_limit < a → b < 1024 → Follows a b

-- A run in which each number follows the one before.
pub data Run : ℕ → List ℕ → Type 0 where
  stop : {a : ℕ} → Run a []
  step : {a b : ℕ} {ns : List ℕ} → Follows a b → Run b ns → Run a (b ∷ ns)

-- The numbers of one connection, which is aborted at the first one that is refused.
pub validate_all : Validator → List ℕ → Bool
validate_all v [] = true
validate_all v (n ∷ ns) =
    let (v', status) = validate v n in
    let rest = validate_all v' ns in if status == good then rest else false

abbrev after : ℕ → Validator
after a = record { last_sequence_number = a; is_initialized = true }

validate-Follows : (a b : ℕ) → Follows a b → validate (after a) b ≡ (after b, good)
unfolding validate
validate-Follows a b (next x y e) = ground arith
validate-Follows a b (wrap x y h k) = ground arith

Follows-of_validate : (a b : ℕ) → (validate (after a) b).1 ≡ good → Follows a b
unfolding validate
Follows-of_validate a b e = elim (Bool-cases (b == (a + 1) % 2 ^ 32)) [
  | inl h ↦ next a b (ground arith)
  | inr h ↦ wrap a b (ground arith) (ground arith)
]

-- A refused number leaves the validator as it was.
pub validate_refused :
    (v : Validator) (n : ℕ)
    → (validate v n).1 ≢ good
    → (validate v n ≡ (v, bad_securitychecksfailed))
unfolding validate
validate_refused v n h = ground arith

Run-validate_all : (a : ℕ) (ns : List ℕ) → Run a ns → validate_all (after a) ns ≡ true
unfolding validate_all
Run-validate_all a [] r = refl
Run-validate_all a (n ∷ ns) (step f r) = rw (validate-Follows a n f) (Run-validate_all n ns r)

validate_all-head :
    (a n : ℕ) (ns : List ℕ)
    → validate_all (after a) (n ∷ ns) ≡ true
    → (validate (after a) n).1 ≡ good
unfolding validate_all
validate_all-head a n ns h = ground arith

Run-of_validate_all : (a : ℕ) (ns : List ℕ) → validate_all (after a) ns ≡ true → Run a ns
unfolding validate_all
Run-of_validate_all a [] h = stop
Run-of_validate_all a (n ∷ ns) h =
    let f : Follows a n = Follows-of_validate a n (validate_all-head a n ns h) in
    step f (Run-of_validate_all n ns (rw (validate-Follows a n f) at h))

-- A fresh validator accepts a sequence of numbers, of which the first is arbitrary, exactly when each
-- number after the first follows the one before it: it is the next UInt32, or it is a wrap-around from
-- above 4294966271 to below 1024.
pub validate_all_iff :
    (n : ℕ) (ns : List ℕ) → (validate_all validator_init (n ∷ ns) ≡ true) ↔ Run n ns
unfolding validate_all validate validator_init
validate_all_iff n ns = (Run-of_validate_all n ns, Run-validate_all n ns)
