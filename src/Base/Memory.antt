-- ===== src/Base/Memory.antt =====
-- Memory as a list of bytes: loads and stores at an index, which are undefined out of bounds.
use Prim.Native.Nat.{ℕ, ◌+◌, ◌*◌, ◌^◌, ◌≤◌, ◌<◌}
use mathlib.Core.Path.{◌≡◌, refl, ap}
use mathlib.Core.Option.{Option, none, some}
use mathlib.Core.List.{List, [], ◌∷◌, ◌++◌, append_assoc}
use native.Mathlib.Omega.{arith}
use micro_opcua.Base.Tests.{ltb, if◌then◌else◌, lt→ltb}
use micro_opcua.Base.Lists.{length, get_elem?, get_elem?-lt, set, drop, length-append}
use micro_opcua.Base.Outcome.{ok, fault, Prog, ◌>>=◌, done}

abbrev pub loaded : {S : Type 0} → Option ℕ → Prog S ℕ
loaded none s = fault
loaded (some b) s = ok b s

-- buffer[i]
abbrev pub load : {S : Type 0} → List ℕ → ℕ → Prog S ℕ
load bytes i = loaded (get_elem? bytes i)

-- buffer[i] | buffer[i + 1] << 8 | buffer[i + 2] << 16 | buffer[i + 3] << 24, of bytes
abbrev pub load_u32 : {S : Type 0} → List ℕ → ℕ → Prog S ℕ
load_u32 bytes i = do
  b0 ← load bytes i
  b1 ← load bytes (i + 1)
  b2 ← load bytes (i + 2)
  b3 ← load bytes (i + 3)
  done (b0 + b1 * 2 ^ 8 + b2 * 2 ^ 16 + b3 * 2 ^ 24)

-- buffer[i] = b0; buffer[i + 1] = b1; …
pub store : ℕ → List ℕ → Prog (List ℕ) (Unit {0})
store i [] m = ok tt m
store i (b ∷ bs) m = if ltb i (length m) then store (i + 1) bs (set m i b) else fault

set-append :
    (before room : List ℕ) (a b : ℕ)
    → set (before ++ a ∷ room) (length before) b ≡ before ++ b ∷ room
set-append [] room a b = refl
set-append (x ∷ before) room a b = ap (◌∷◌ x) (set-append before room a b)

-- A store in bounds overwrites what stood there and leaves the rest.
pub store-append :
    (xs before room : List ℕ) (i : ℕ)
    → i ≡ length before
    → length xs ≤ length room
    → store i xs (before ++ room) ≡ ok tt (before ++ (xs ++ drop (length xs) room))
unfolding store
store-append [] before room i e h = refl
store-append (x ∷ xs) before [] i e h = absurd (omega arith)
store-append (x ∷ xs) before (r ∷ room) i e h = rw (
  e,
  lt→ltb (length before) (length (before ++ r ∷ room))
      (omega (arith, length-append before (r ∷ room))),
  set-append before room r x,
  ← append_assoc before (x ∷ []) room,
  store-append xs (before ++ x ∷ []) room (length before + 1)
      (omega (arith, length-append before (x ∷ []))) (omega arith),
  append_assoc before (x ∷ []) (xs ++ drop (length xs) room),
)

-- The bytes of a word in bounds.
pub load_ok :
    {S : Type 0} (bytes : List ℕ) (i : ℕ)
    → i < length bytes
    → (b : ℕ) × ((s : S) → load bytes i s ≡ ok b s)
load_ok bytes i h = let (b, e) = get_elem?-lt bytes i h in (b, λ s. ap (λ o. loaded o s) e)

pub load_u32_ok :
    {S : Type 0} (bytes : List ℕ) (i : ℕ)
    → i + 4 ≤ length bytes
    → (v : ℕ) × ((s : S) → load_u32 bytes i s ≡ ok v s)
load_u32_ok {S} bytes i h =
    let (b0, e0) = load_ok {S = S} bytes i (omega arith) in
    let (b1, e1) = load_ok {S = S} bytes (i + 1) (omega arith) in
    let (b2, e2) = load_ok {S = S} bytes (i + 2) (omega arith) in
    let (b3, e3) = load_ok {S = S} bytes (i + 3) (omega arith) in
    (b0 + b1 * 2 ^ 8 + b2 * 2 ^ 16 + b3 * 2 ^ 24, λ s. rw (e0 s, e1 s, e2 s, e3 s))
