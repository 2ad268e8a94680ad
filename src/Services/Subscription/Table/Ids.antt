-- ===== src/Services/Subscription/Table/Ids.antt =====
-- The ids that subscription.c allocates: one more is tried than there can be in use.
use micro_opcua.Base.{
  ℕ, zero, suc, ◌+◌, ◌-◌, ◌^◌, ◌≤◌, ◌<◌, ◌≡◌, ◌≢◌, refl, ap, ◌⊎◌, inl, inr, Bool, true, false, ◌||◌,
  List, [], ◌∷◌, length, All, if◌then◌else◌, Bool-cases, arith,
}
use micro_opcua.Services.Subscription.Table.{any, nonzero, following, allocate}

-- The ids that are tried.
candidates : ℕ → ℕ → List ℕ
candidates zero next = []
candidates (suc rounds) next = nonzero next ∷ candidates rounds (following next)

-- `c` is `k` ids behind `v`, in the order 1, …, 2 ^ 32 - 1, 1, ….
abbrev Ahead : ℕ → ℕ → ℕ → Type 0
Ahead v k c = ((c ≡ v + k) ⊎ (c + (2 ^ 32 - 1) ≡ v + k)) × (0 < c) × (c < 2 ^ 32)

abbrev Within : ℕ → ℕ → ℕ → ℕ → Type 0
Within v from rounds c = (k : ℕ) × (from ≤ k) × (k < from + rounds) × Ahead v k c

abbrev IsDistinct : List ℕ → Type 0
IsDistinct [] = Unit
IsDistinct (c ∷ cs) = All (λ d. c ≢ d) cs × IsDistinct cs

All-map : (P Q : ℕ → Type 0) (cs : List ℕ) → ((c : ℕ) → P c → Q c) → All P cs → All Q cs
All-map P Q [] f h = tt
All-map P Q (c ∷ cs) f (p, h) = (f c p, All-map P Q cs f h)

candidates-Within :
    (rounds v k next : ℕ)
    → next < 2 ^ 32
    → v < 2 ^ 32
    → k + rounds ≤ 2 ^ 32 - 1
    → Ahead v k (nonzero next)
    → All (Within v k rounds) (candidates rounds next)
unfolding candidates
candidates-Within zero v k next a b c h = tt
candidates-Within (suc rounds) v k next a b c h = (
  (k, omega arith, omega arith, h),
  All-map (Within v (suc k) rounds) (Within v k (suc rounds)) _
      (λ d (j, p, q, w). (j, omega arith, omega arith, w))
      (candidates-Within rounds v (suc k) (following next) (ground arith) b (omega arith)
        (ground arith)),
)

candidates-IsDistinct :
    (rounds next : ℕ) → next < 2 ^ 32 → rounds ≤ 2 ^ 32 - 1 → IsDistinct (candidates rounds next)
unfolding candidates
candidates-IsDistinct zero next a b = tt
candidates-IsDistinct (suc rounds) next a b = (
  All-map (Within (nonzero next) 1 rounds) (λ d. nonzero next ≢ d) _ (λ d w. apart d w)
      (candidates-Within rounds (nonzero next) 1 (following next) (ground arith) (ground arith)
        (omega arith) (ground arith)),
  candidates-IsDistinct rounds (following next) (ground arith) (omega arith),
)
  where
    apart : (d : ℕ) → Within (nonzero next) 1 rounds d → nonzero next ≢ d
    apart d (k, p, q, w) e = ground arith

-- A table in which an element has at most one id.
module _ {A : Type 0} (has : ℕ → A → Bool)
    (one : (c d : ℕ) (x : A) → has c x ≡ true → has d x ≡ true → c ≡ d) where
  without : A → List ℕ → List ℕ
  without x [] = []
  without x (c ∷ cs) = if has c x then cs else c ∷ without x cs

  length-without : (x : A) (cs : List ℕ) → length cs ≤ suc (length (without x cs))
  unfolding without
  length-without x [] = omega arith
  length-without x (c ∷ cs) = elim (Bool-cases (has c x)) [
    | inl e ↦ rw e (omega arith)
    | inr e ↦ rw e (omega (arith, length-without x cs))
  ]

  All-without : (P : ℕ → Type 0) (x : A) (cs : List ℕ) → All P cs → All P (without x cs)
  unfolding without
  All-without P x [] h = tt
  All-without P x (c ∷ cs) (p, h) = elim (Bool-cases (has c x)) [
    | inl e ↦ rw e h
    | inr e ↦ rw e (p, All-without P x cs h)
  ]

  without-IsDistinct : (x : A) (cs : List ℕ) → IsDistinct cs → IsDistinct (without x cs)
  unfolding without
  without-IsDistinct x [] h = tt
  without-IsDistinct x (c ∷ cs) (p, h) = elim (Bool-cases (has c x)) [
    | inl e ↦ rw e h
    | inr e ↦ rw e (All-without (λ d. c ≢ d) x cs p, without-IsDistinct x cs h)
  ]

  -- The other ids are in the rest of the table.
  others_in_rest :
      (x : A) (xs : List A) (cs : List ℕ)
      → IsDistinct cs
      → All (λ c. (has c x || any (λ y. has c y) xs) ≡ true) cs
      → All (λ c. any (λ y. has c y) xs ≡ true) (without x cs)
  unfolding without
  others_in_rest x xs [] d h = tt
  others_in_rest x xs (c ∷ cs) (p, d) (q, h) = elim (Bool-cases (has c x)) [
    | inl e ↦ rw e (rest cs p h e)
    | inr e ↦ rw e (ground (arith, q, e), others_in_rest x xs cs d h)
  ]
    where
      rest :
          (ds : List ℕ)
          → All (λ d. c ≢ d) ds
          → All (λ d. (has d x || any (λ y. has d y) xs) ≡ true) ds
          → has c x ≡ true
          → All (λ d. any (λ y. has d y) xs ≡ true) ds
      rest [] p h e = tt
      rest (d ∷ ds) (n, p) (t, h) e = (
        elim (Bool-cases (has d x)) [
          | inl f ↦ absurd (n (one c d x e f))
          | inr f ↦ ground (arith, t, f)
        ],
        rest ds p h e,
      )

  -- No more ids are in use than the table has elements.
  few_in_use :
      (xs : List A) (cs : List ℕ)
      → IsDistinct cs
      → All (λ c. any (λ y. has c y) xs ≡ true) cs
      → length cs ≤ length xs
  few_in_use [] [] d h = omega arith
  few_in_use [] (c ∷ cs) d (p, h) = absurd (ground (arith, p))
  few_in_use (x ∷ xs) cs d h = omega (
    arith,
    length-without x cs,
    few_in_use xs (without x cs) (without-IsDistinct x cs d) (others_in_rest x xs cs d h),
  )

-- What an allocation comes to.
abbrev pub Allocated : (ℕ → Bool) → ℕ × ℕ → Type 0
Allocated in_use (id, next) = (id ≢ 0) × (id < 2 ^ 32) × (in_use id ≡ false) × (next < 2 ^ 32)

allocate-cases :
    (in_use : ℕ → Bool) (rounds next : ℕ)
    → next < 2 ^ 32
    → Allocated in_use (allocate in_use rounds next)
      ⊎ All (λ c. in_use c ≡ true) (candidates rounds next)
unfolding allocate candidates
allocate-cases in_use zero next h = inr tt
allocate-cases in_use (suc rounds) next h = elim (Bool-cases (in_use (nonzero next))) [
  | inl e ↦ rw e (elim (allocate-cases in_use rounds (following next) (ground arith)) [
    | inl a ↦ inl a
    | inr a ↦ inr (refl, a)
  ])
  | inr e ↦ rw e (inl (ground arith, ground arith, e, ground arith))
]

length-candidates : (rounds next : ℕ) → length (candidates rounds next) ≡ rounds
unfolding candidates
length-candidates zero next = refl
length-candidates (suc rounds) next = ap suc (length-candidates rounds (following next))

-- In a table of fewer than 2 ^ 32 - 1 elements, an allocation yields an id that is not 0 and not in use.
pub allocate-Allocated :
    {A : Type 0} (has : ℕ → A → Bool)
    → ((c d : ℕ) (x : A) → has c x ≡ true → has d x ≡ true → c ≡ d)
    → (xs : List A) (next : ℕ) → length xs < 2 ^ 32 - 1
    → next < 2 ^ 32
    → Allocated (λ id. any (has id) xs) (allocate (λ id. any (has id) xs) (suc (length xs)) next)
allocate-Allocated has one xs next few h =
    elim (allocate-cases (λ id. any (has id) xs) (suc (length xs)) next h) [
      | inl a ↦ a
      | inr a ↦ absurd (
          omega (
            arith,
            length-candidates (suc (length xs)) next,
            few_in_use has one xs _ (candidates-IsDistinct (suc (length xs)) next h (omega arith))
                a,
          ))
    ]
