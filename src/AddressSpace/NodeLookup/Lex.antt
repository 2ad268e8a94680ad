-- ===== src/AddressSpace/NodeLookup/Lex.antt =====
-- memcmp as a total order on strings of bytes.
use micro_opcua.Base.{ℕ, ◌<◌, ◌≡◌, refl, inl, inr, ◌⊎◌, List, [], ◌∷◌, arith}
use Prim.Native.Nat.{compare, Ordering}
use micro_opcua.AddressSpace.NodeLookup.{unless_equal, memcmp}

abbrev pub flip : Ordering → Ordering
flip Ordering.lt = Ordering.gt
flip Ordering.eq = Ordering.eq
flip Ordering.gt = Ordering.lt

pub compare-cases :
    (a b : ℕ)
    → ((compare a b ≡ Ordering.lt) × (a < b))
      ⊎ (((compare a b ≡ Ordering.eq) × (a ≡ b)) ⊎ ((compare a b ≡ Ordering.gt) × (b < a)))
compare-cases a b = ground arith

pub memcmp_refl : (xs : List ℕ) → memcmp xs xs ≡ Ordering.eq
memcmp_refl [] = refl
memcmp_refl (x ∷ xs) = rw (compare-refl x, memcmp_refl xs)
  where
    compare-refl : (a : ℕ) → compare a a ≡ Ordering.eq
    compare-refl a = ground arith

pub memcmp-eq : (xs ys : List ℕ) → memcmp xs ys ≡ Ordering.eq → xs ≡ ys
memcmp-eq [] [] h = refl
memcmp-eq [] (y ∷ ys) h = absurd (ground arith)
memcmp-eq (x ∷ xs) [] h = absurd (ground arith)
memcmp-eq (x ∷ xs) (y ∷ ys) h = elim (compare-cases x y) [
  | inl (e, k) ↦ absurd (ground arith)
  | inr (inl (e, k)) ↦ rw (k, memcmp-eq xs ys (rw e at h))
  | inr (inr (e, k)) ↦ absurd (ground arith)
]

pub memcmp-flip : (xs ys : List ℕ) → memcmp ys xs ≡ flip (memcmp xs ys)
memcmp-flip [] [] = refl
memcmp-flip [] (y ∷ ys) = refl
memcmp-flip (x ∷ xs) [] = refl
memcmp-flip (x ∷ xs) (y ∷ ys) = elim (compare-cases x y) [
  | inl (e, k) ↦ rw e (ground arith)
  | inr (inl (e, k)) ↦ rw (k, memcmp-flip xs ys) (ground arith)
  | inr (inr (e, k)) ↦ rw e (ground arith)
]

below-cases :
    (a b : ℕ) (o : Ordering)
    → unless_equal (compare a b) o ≡ Ordering.lt
    → (a < b) ⊎ ((a ≡ b) × (o ≡ Ordering.lt))
below-cases a b o h = ground arith

below : (a b : ℕ) (o : Ordering) → a < b → unless_equal (compare a b) o ≡ Ordering.lt
below a b o h = ground arith

below_equal :
    (a b : ℕ) (o : Ordering) → a ≡ b → o ≡ Ordering.lt → unless_equal (compare a b) o ≡ Ordering.lt
below_equal a b o h k = ground arith

pub memcmp_trans :
    (xs ys zs : List ℕ)
    → memcmp xs ys ≡ Ordering.lt
    → memcmp ys zs ≡ Ordering.lt
    → memcmp xs zs ≡ Ordering.lt
memcmp_trans [] [] [] h k = h
memcmp_trans [] (y ∷ ys) [] h k = absurd (ground arith)
memcmp_trans [] ys (z ∷ zs) h k = refl
memcmp_trans (x ∷ xs) [] zs h k = absurd (ground arith)
memcmp_trans (x ∷ xs) (y ∷ ys) [] h k = absurd (ground arith)
memcmp_trans (x ∷ xs) (y ∷ ys) (z ∷ zs) h k = elim (below-cases x y (memcmp xs ys) h) [
  | inl a ↦ elim (below-cases y z (memcmp ys zs) k) [
    | inl b ↦ below x z (memcmp xs zs) (omega arith)
    | inr (b, l) ↦ below x z (memcmp xs zs) (omega arith)
  ]
  | inr (a, l) ↦ elim (below-cases y z (memcmp ys zs) k) [
    | inl b ↦ below x z (memcmp xs zs) (omega arith)
    | inr (b, m) ↦ below_equal x z (memcmp xs zs) (omega arith) (memcmp_trans xs ys zs l m)
  ]
]
