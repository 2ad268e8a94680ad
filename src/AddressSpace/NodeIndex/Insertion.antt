-- ===== src/AddressSpace/NodeIndex/Insertion.antt =====
-- Inserting an entry keeps the order of an index, and adds just this entry.
use micro_opcua.Base.{
  ◌≡◌, ◌≢◌, ◌↔◌, refl, ap, ◌∙◌, inl, inr, ◌⊎◌, true, false, List, [], ◌∷◌, Bool-cases, All, arith,
}
use Prim.Native.Nat.{Ordering}
use micro_opcua.Encoding.NodeId.RoundTrip.{IsNodeId}
use micro_opcua.AddressSpace.NodeLookup.{nodeid_compare}
use micro_opcua.AddressSpace.NodeLookup.Lex.{flip}
use micro_opcua.AddressSpace.NodeLookup.Order.{nodeid_compare-flip, nodeid_compare_trans}
use micro_opcua.AddressSpace.NodeIndex.{Entry, not_above, insert}

abbrev pub Below : Entry → Entry → Type 0
Below e o = nodeid_compare o.1 e.1 ≡ Ordering.lt

-- Each entry is above all that follow it.
abbrev pub Descending : List Entry → Type 0
Descending [] = Unit
Descending (e ∷ order) = All (Below e) order × Descending order

abbrev pub Handled : List Entry → Type 0
Handled order = All (λ o. IsNodeId o.1) order

-- No entry is equal to the new one.
abbrev pub Fresh : Entry → List Entry → Type 0
Fresh e order = All (λ o. nodeid_compare o.1 e.1 ≢ Ordering.eq) order

pub insert-All :
    (P : Entry → Type 0) (e : Entry) (order : List Entry)
    → P e
    → All P order
    → All P (insert e order)
unfolding insert
insert-All P e [] p h = (p, tt)
insert-All P e (o ∷ order) p (q, h) = elim (Bool-cases (not_above (nodeid_compare o.1 e.1))) [
  | inl k ↦ rw k (p, (q, h))
  | inr k ↦ rw k (q, insert-All P e order p h)
]

lower :
    (e o : Entry) (order : List Entry)
    → IsNodeId e.1
    → IsNodeId o.1
    → Handled order
    → Below e o
    → All (Below o) order
    → All (Below e) order
lower e o [] he ho hs b bs = tt
lower e o (x ∷ order) he ho (hx, hs) b (bx, bs) =
    (nodeid_compare_trans x.1 o.1 e.1 hx ho he bx b, lower e o order he ho hs b bs)

pub insert-Descending :
    (e : Entry) (order : List Entry)
    → IsNodeId e.1
    → Handled order
    → Fresh e order
    → Descending order
    → Descending (insert e order)
unfolding insert
insert-Descending e [] he hs f d = (tt, tt)
insert-Descending e (o ∷ order) he (ho, hs) (fo, fs) (bs, d) =
    elim (Bool-cases (not_above (nodeid_compare o.1 e.1))) [
      | inl k ↦ rw k ((below_new k, lower e o order he ho hs (below_new k) bs), (bs, d))
      | inr k ↦
          rw k (insert-All (Below o) e order (above_new k) bs, insert-Descending e order he hs fs d)
    ]
  where
    decided : (c : Ordering) → c ≢ Ordering.eq → not_above c ≡ true → c ≡ Ordering.lt
    decided Ordering.lt h k = refl
    decided Ordering.eq h k = absurd (h refl)
    decided Ordering.gt h k = absurd (ground arith)

    above : (c : Ordering) → not_above c ≡ false → c ≡ Ordering.gt
    above Ordering.lt k = absurd (ground arith)
    above Ordering.eq k = absurd (ground arith)
    above Ordering.gt k = refl

    below_new : not_above (nodeid_compare o.1 e.1) ≡ true → Below e o
    below_new k = decided (nodeid_compare o.1 e.1) fo k

    above_new : not_above (nodeid_compare o.1 e.1) ≡ false → Below o e
    above_new k = nodeid_compare-flip o.1 e.1 ho he ∙ ap flip (above (nodeid_compare o.1 e.1) k)

-- The entries of an index.
abbrev pub In : Entry → List Entry → Type 0
In x [] = ⊥
In x (o ∷ order) = (x ≡ o) ⊎ In x order

pub insert-In : (x e : Entry) (order : List Entry) → In x (insert e order) ↔ ((x ≡ e) ⊎ In x order)
unfolding insert
insert-In x e [] = (λ h. h, λ h. h)
insert-In x e (o ∷ order) = elim (Bool-cases (not_above (nodeid_compare o.1 e.1))) [
  | inl k ↦ rw k (λ h. h, λ h. h)
  | inr k ↦ rw k (swap_out (insert-In x e order), swap_in (insert-In x e order))
]
  where
    swap_out :
        (In x (insert e order) ↔ ((x ≡ e) ⊎ In x order))
        → (x ≡ o) ⊎ In x (insert e order)
        → (x ≡ e) ⊎ ((x ≡ o) ⊎ In x order)
    swap_out r (inl h) = inr (inl h)
    swap_out r (inr h) = elim (r.0 h) [ inl k ↦ inl k | inr k ↦ inr (inr k) ]

    swap_in :
        (In x (insert e order) ↔ ((x ≡ e) ⊎ In x order))
        → (x ≡ e) ⊎ ((x ≡ o) ⊎ In x order)
        → (x ≡ o) ⊎ In x (insert e order)
    swap_in r (inl h) = inr (r.1 (inl h))
    swap_in r (inr (inl h)) = inl h
    swap_in r (inr (inr h)) = inr (r.1 (inr h))
