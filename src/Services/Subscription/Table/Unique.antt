-- ===== src/Services/Subscription/Table/Unique.antt =====
-- Tables whose elements in use have ids of their own, and the number of the elements in use.
use micro_opcua.Base.{
  ℕ, zero, suc, ◌+◌, ◌≤◌, ◌≡◌, ◌≢◌, refl, sym, ap, ◌∙◌, inl, inr, Bool, true, false, Option, none,
  some, some-injective, List, [], ◌∷◌, length, get_elem?, set, All, if◌then◌else◌, Bool-cases,
  arith,
}
use micro_opcua.Services.Subscription.Table.{find_from, any}

-- What a search finds.
abbrev pub FoundAt : {A : Type 0} → (A → Bool) → ℕ → List A → Option (ℕ × A) → Type 0
FoundAt test i xs none = All (λ x. test x ≡ false) xs
FoundAt test i xs (some (j, x)) =
    (k : ℕ) × (j ≡ i + k) × (get_elem? xs k ≡ some x) × (test x ≡ true)

FoundAt-suc :
    {A : Type 0} (test : A → Bool) (i : ℕ) (x : A) (xs : List A) (o : Option (ℕ × A))
    → test x ≡ false
    → FoundAt test (suc i) xs o
    → FoundAt test i (x ∷ xs) o
FoundAt-suc test i x xs none e h = (e, h)
FoundAt-suc test i x xs (some (j, y)) e (k, at, got, passed) =
    (suc k, omega (arith, at), got, passed)

pub find_from-FoundAt :
    {A : Type 0} (test : A → Bool) (i : ℕ) (xs : List A) → FoundAt test i xs (find_from test i xs)
unfolding find_from
find_from-FoundAt test i [] = tt
find_from-FoundAt test i (x ∷ xs) = elim (Bool-cases (test x)) [
  | inl e ↦ rw e (0, omega arith, refl, e)
  | inr e ↦ rw e (FoundAt-suc test i x xs _ e (find_from-FoundAt test (suc i) xs))
]

-- The number of elements that pass a test.
unfoldable pub count {ℓ} : {A : Type ℓ} → (A → Bool) → List A → ℕ
count test [] = 0
count test (x ∷ xs) = (if test x then 1 else 0) + count test xs

pub count-le {ℓ} : {A : Type ℓ} (test : A → Bool) (xs : List A) → count test xs ≤ length xs
unfolding count
count-le test [] = omega arith
count-le test (x ∷ xs) = elim (Bool-cases (test x)) [
  | inl e ↦ rw e (omega (arith, count-le test xs))
  | inr e ↦ rw e (omega (arith, count-le test xs))
]

pub count-set {ℓ} :
    {A : Type ℓ} (test : A → Bool) (xs : List A) (i : ℕ) (x v : A)
    → get_elem? xs i ≡ some x
    → count test (set xs i v) + (if test x then 1 else 0)
      ≡ count test xs + (if test v then 1 else 0)
unfolding count
count-set test [] i x v h = absurd (ground (arith, h))
count-set test (y ∷ xs) zero x v h =
    let same : y ≡ x = some-injective y x h in
    ap (λ z. (if test v then 1 else 0) + count test xs + (if test z then 1 else 0)) (sym same)
    ∙ omega arith
count-set test (y ∷ xs) (suc i) x v h = omega (arith, count-set test xs i x v h)

module _ {A : Type 0} (test : A → Bool) (xs : List A) (i : ℕ) (x v : A)
    (got : get_elem? xs i ≡ some x) where
  pub count-set_on : test x ≡ false → test v ≡ true → count test (set xs i v) ≡ count test xs + 1
  count-set_on a b = ground (arith, count-set test xs i x v got, a, b)

  pub count-set_off : test x ≡ true → test v ≡ false → count test (set xs i v) + 1 ≡ count test xs
  count-set_off a b = ground (arith, count-set test xs i x v got, a, b)

  pub count-set_same : test v ≡ test x → count test (set xs i v) ≡ count test xs
  count-set_same a = ground (arith, count-set test xs i x v got, a)

module _ {A : Type 0} (key : A → Option ℕ) where
  abbrev pub Free : ℕ → List A → Type 0
  Free id xs = All (λ x. key x ≢ some id) xs

  -- The ids of the elements in use are not 0, and no two of them are equal.
  abbrev pub Unique : List A → Type 0
  Unique [] = Unit
  Unique (x ∷ xs) = ((id : ℕ) → key x ≡ some id → (id ≢ 0) × Free id xs) × Unique xs

  set-Free :
      (id : ℕ) (xs : List A) (i : ℕ) (v : A) → Free id xs → key v ≢ some id → Free id (set xs i v)
  set-Free id [] i v h n = tt
  set-Free id (x ∷ xs) zero v (p, h) n = (n, h)
  set-Free id (x ∷ xs) (suc i) v (p, h) n = (p, set-Free id xs i v h n)

  -- An element with a new id, or with none.
  pub set-Unique :
      (xs : List A) (i : ℕ) (v : A)
      → Unique xs
      → ((id : ℕ) → key v ≡ some id → (id ≢ 0) × Free id xs)
      → Unique (set xs i v)
  set-Unique [] i v u h = tt
  set-Unique (x ∷ xs) zero v (p, u) h = ((λ id e. let (n, f) = h id e in (n, f.1)), u)
  set-Unique (x ∷ xs) (suc i) v (p, u) h = (
    (λ id e. ((p id e).0, set-Free id xs i v (p id e).1 (λ k. (h id k).1.0 e))),
    set-Unique xs i v u (λ id e. ((h id e).0, (h id e).1.1)),
  )

  -- An element with the id that stood there.
  pub set_same-Unique :
      (xs : List A) (i : ℕ) (x v : A)
      → Unique xs
      → get_elem? xs i ≡ some x
      → key v ≡ key x
      → Unique (set xs i v)
  set_same-Unique [] i x v u g e = tt
  set_same-Unique (y ∷ xs) zero x v (p, u) g e =
      ((λ id k. p id (ap key (some-injective y x g) ∙ sym e ∙ k)), u)
  set_same-Unique (y ∷ xs) (suc i) x v (p, u) g e =
      ((λ id k. ((p id k).0, same_Free id xs i (p id k).1 g)), set_same-Unique xs i x v u g e)
    where
      same_Free :
          (id : ℕ) (xs : List A) (i : ℕ)
          → Free id xs
          → get_elem? xs i ≡ some x
          → Free id (set xs i v)
      same_Free id [] i f g = tt
      same_Free id (z ∷ zs) zero (q, f) g =
          ((λ k. q (ap key (some-injective z x g) ∙ sym e ∙ k)), f)
      same_Free id (z ∷ zs) (suc j) (q, f) g = (q, same_Free id zs j f g)

  -- An element that is taken out leaves its id unused.
  pub removed-Free :
      (xs : List A) (i : ℕ) (x v : A) (id : ℕ)
      → Unique xs
      → get_elem? xs i ≡ some x
      → key x ≡ some id
      → key v ≢ some id
      → Free id (set xs i v)
  removed-Free [] i x v id u g e n = absurd (ground (arith, g))
  removed-Free (y ∷ xs) zero x v id (p, u) g e n = (n, (p id (ap key (some-injective y x g) ∙ e)).1)
  removed-Free (y ∷ xs) (suc i) x v id (p, u) g e n =
      ((λ k. taken xs i (p id k).1 g), removed-Free xs i x v id u g e n)
    where
      taken : (xs : List A) (i : ℕ) → Free id xs → get_elem? xs i ≡ some x → ⊥
      taken [] i f g = ground (arith, g)
      taken (z ∷ zs) zero (q, f) g = q (ap key (some-injective z x g) ∙ e)
      taken (z ∷ zs) (suc j) (q, f) g = taken zs j f g

  pub any-Free :
      (has : ℕ → A → Bool)
      → ((id : ℕ) (x : A) → key x ≡ some id → has id x ≡ true)
      → (id : ℕ) (xs : List A) → any (has id) xs ≡ false
      → Free id xs
  any-Free has shows id [] h = tt
  any-Free has shows id (x ∷ xs) h =
      ((λ k. ground (arith, shows id x k, h)), any-Free has shows id xs (ground (arith, h)))
