-- ===== src/AddressSpace/NodeLookup/Order.antt =====
-- The order of numeric and string NodeIds in node_id.c as the order of strings of numbers.
use micro_opcua.Base.{
  ℕ, suc, ◌≡◌, refl, ap, inl, inr, Bool, true, ◌&&◌, some, List, [], ◌∷◌, length, take, ◌==◌,
  ==_iff, arith,
}
use Prim.Native.Nat.{compare, Ordering}
use micro_opcua.Base.Int.{pos}
use micro_opcua.Encoding.Text.{Str}
use micro_opcua.Encoding.Text.RoundTrip.{IsStr, null, text}
use micro_opcua.Encoding.NodeId.{NodeId}
use micro_opcua.Encoding.NodeId.RoundTrip.{IsNodeId, numeric_id, string_id}
use micro_opcua.AddressSpace.NodeLookup.{
  unless_equal, memcmp, compare_str, compare_payload, nodeid_compare, is_eq, equal_payload,
  nodeid_equal, equal_str,
}
use micro_opcua.AddressSpace.NodeLookup.Lex.{
  flip, compare-cases, memcmp-eq, memcmp_trans, memcmp-flip,
}

-- Namespace, type, and the number or the length and the bytes.
str_key : (s : Str) → IsStr s → List ℕ
str_key s null = 0 ∷ []
str_key s (text bytes h) = suc (length bytes) ∷ bytes

pub key : (id : NodeId) → IsNodeId id → List ℕ
unfolding str_key
key id (numeric_id ns n h k) = ns ∷ 0 ∷ n ∷ []
key id (string_id ns s h k) = ns ∷ 1 ∷ str_key s k

take-length : (bytes : List ℕ) → take (length bytes) bytes ≡ bytes
take-length [] = refl
take-length (b ∷ bytes) = ap (◌∷◌ b) (take-length bytes)

take_all : (n : ℕ) (bytes : List ℕ) → n ≡ length bytes → take n bytes ≡ bytes
take_all n bytes e = rw (e, take-length bytes)

whole_payload :
    (xs ys : List ℕ)
    → length xs ≡ length ys
    → compare_payload (pos (length xs)) (some xs) (some ys) ≡ memcmp xs ys
whole_payload [] [] e = refl
whole_payload [] (y ∷ ys) e = absurd (omega arith)
whole_payload (x ∷ xs) ys e = rw (take-length xs, take_all (suc (length xs)) ys e)

unequal :
    (a b : ℕ) (o p : Ordering)
    → (a ≡ b → o ≡ p)
    → unless_equal (compare a b) o ≡ unless_equal (compare (suc a) (suc b)) p
unequal a b o p h = elim (compare-cases a b) [
  | inl (e, k) ↦ rw e (ground arith)
  | inr (inl (e, k)) ↦ rw (e, h k) (ground arith)
  | inr (inr (e, k)) ↦ rw e (ground arith)
]

same_length :
    (xs ys : List ℕ)
    → unless_equal
        (compare (length xs) (length ys))
        (compare_payload (pos (length xs)) (some xs) (some ys))
      ≡ memcmp (suc (length xs) ∷ xs) (suc (length ys) ∷ ys)
same_length xs ys = unequal (length xs) (length ys) _ _ (whole_payload xs ys)

compare_str-key :
    (s t : Str) (h : IsStr s) (k : IsStr t) → compare_str s t ≡ memcmp (str_key s h) (str_key t k)
unfolding str_key
compare_str-key s t null null = refl
compare_str-key s t null (text ys k) = ground arith
compare_str-key s t (text xs h) null = ground arith
compare_str-key s t (text xs h) (text ys k) = same_length xs ys

unless_equal_eq : (o : Ordering) → unless_equal o Ordering.eq ≡ o
unless_equal_eq Ordering.lt = refl
unless_equal_eq Ordering.eq = refl
unless_equal_eq Ordering.gt = refl

pub nodeid_compare-key :
    (a b : NodeId) (h : IsNodeId a) (k : IsNodeId b)
    → nodeid_compare a b ≡ memcmp (key a h) (key b k)
unfolding nodeid_compare key
nodeid_compare-key a b (numeric_id m x h1 h2) (numeric_id n y k1 k2) =
    rw (unless_equal_eq (compare x y))
nodeid_compare-key a b (numeric_id m x h1 h2) (string_id n t k1 k2) = refl
nodeid_compare-key a b (string_id m s h1 h2) (numeric_id n y k1 k2) = refl
nodeid_compare-key a b (string_id m s h1 h2) (string_id n t k1 k2) = rw (compare_str-key s t h2 k2)

pub nodeid_compare-flip :
    (a b : NodeId) → IsNodeId a → IsNodeId b → nodeid_compare b a ≡ flip (nodeid_compare a b)
nodeid_compare-flip a b h k =
    rw (nodeid_compare-key b a k h, nodeid_compare-key a b h k) (memcmp-flip (key a h) (key b k))

pub nodeid_compare_trans :
    (a b c : NodeId)
    → IsNodeId a
    → IsNodeId b
    → IsNodeId c
    → nodeid_compare a b ≡ Ordering.lt
    → nodeid_compare b c ≡ Ordering.lt
    → nodeid_compare a c ≡ Ordering.lt
nodeid_compare_trans a b c h k l x y = rw (nodeid_compare-key a c h l) (
    memcmp_trans (key a h) (key b k) (key c l) (rw (nodeid_compare-key a b h k) at x)
      (rw (nodeid_compare-key b c k l) at y))

-- Equal NodeIds compare alike.
pub nodeid_compare-eq :
    (a b c : NodeId)
    → IsNodeId a
    → IsNodeId b
    → IsNodeId c
    → nodeid_compare b c ≡ Ordering.eq
    → nodeid_compare a b ≡ nodeid_compare a c
nodeid_compare-eq a b c h k l e = rw (
  nodeid_compare-key a b h k,
  nodeid_compare-key a c h l,
  memcmp-eq (key b k) (key c l) (rw (nodeid_compare-key b c k l) at e),
)

equal_payload-is_eq :
    (xs ys : List ℕ)
    → equal_payload (pos (length xs)) (some xs) (some ys)
      ≡ is_eq (compare_payload (pos (length xs)) (some xs) (some ys))
equal_payload-is_eq [] ys = refl
equal_payload-is_eq (x ∷ xs) ys = refl

both-is_eq :
    (a b : ℕ) (t : Bool) (o : Ordering)
    → t ≡ is_eq o
    → (a == b && t) ≡ is_eq (unless_equal (compare a b) o)
both-is_eq a b t o h = elim (compare-cases a b) [
  | inl (e, k) ↦ rw e (ground arith)
  | inr (inl (e, k)) ↦ rw ((==_iff a b).1 k, e) h
  | inr (inr (e, k)) ↦ rw e (ground arith)
]

equal_str-is_eq : (s t : Str) → IsStr s → IsStr t → equal_str s t ≡ is_eq (compare_str s t)
equal_str-is_eq s t null null = refl
equal_str-is_eq s t null (text ys k) = refl
equal_str-is_eq s t (text xs h) null = refl
equal_str-is_eq s t (text xs h) (text ys k) =
    both-is_eq (length xs) (length ys) _ _ (equal_payload-is_eq xs ys)

pub nodeid_equal-is_eq :
    (a b : NodeId)
    → IsNodeId a
    → IsNodeId b
    → nodeid_equal (some a) (some b) ≡ is_eq (nodeid_compare a b)
unfolding nodeid_equal nodeid_compare
nodeid_equal-is_eq a b (numeric_id m x h1 h2) (numeric_id n y k1 k2) =
    both-is_eq m n (true && x == y) (compare x y) (alone x y)
  where
    alone : (x y : ℕ) → (true && x == y) ≡ is_eq (compare x y)
    alone x y = ground arith
nodeid_equal-is_eq a b (numeric_id m x h1 h2) (string_id n t k1 k2) = both-is_eq m n _ _ refl
nodeid_equal-is_eq a b (string_id m s h1 h2) (numeric_id n y k1 k2) = both-is_eq m n _ _ refl
nodeid_equal-is_eq a b (string_id m s h1 h2) (string_id n t k1 k2) =
    both-is_eq m n _ _ (equal_str-is_eq s t h2 k2)
