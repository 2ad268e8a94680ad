-- ===== src/Base/Outcome.antt =====
-- The outcome of a C function that returns a status code and changes a state.
use Prim.Native.Nat.{ℕ}
use mathlib.Core.Bool.{Bool, true, false}

-- `ok a s`: MU_STATUS_GOOD with the out-parameter `a`; `err e s`: the status `e`; `fault`: the function
-- touched memory outside of an object, which C leaves undefined. `s` is the state left behind.
pub data Outcome (S A : Type 0) : Type 0 where
  ok : A → S → Outcome S A
  err : ℕ → S → Outcome S A
  fault : Outcome S A

abbrev pub Prog : Type 0 → Type 0 → Type 0
Prog S A = S → Outcome S A

-- What follows runs only if the status is good: `if (status != MU_STATUS_GOOD) return status;`.
abbrev pub bind_outcome : {S A B : Type 0} → Outcome S A → (A → Prog S B) → Outcome S B
bind_outcome (ok a s) f = f a s
bind_outcome (err e s) f = err e s
bind_outcome fault f = fault

infixl 5 ◌>>=◌ ◌>>◌
abbrev pub ◌>>=◌ : {S A B : Type 0} → Prog S A → (A → Prog S B) → Prog S B
◌>>=◌ m f s = bind_outcome (m s) f

abbrev pub ◌>>◌ : {S A B : Type 0} → Prog S A → Prog S B → Prog S B
◌>>◌ m k s = bind_outcome (m s) (λ _. k)

abbrev pub done : {S A : Type 0} → A → Prog S A
done a s = ok a s

abbrev pub fails : {S A : Type 0} → ℕ → Prog S A
fails e s = err e s

-- `if (!b) return e;`
abbrev pub guard : {S : Type 0} → Bool → ℕ → Prog S (Unit {0})
guard true e s = ok tt s
guard false e s = err e s
