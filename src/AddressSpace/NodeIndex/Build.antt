-- ===== src/AddressSpace/NodeIndex/Build.antt =====
-- The index that node_id.c builds: it holds the nodes of the table, in order.
use micro_opcua.Base.{
  ℕ, zero, suc, ◌+◌, ◌≤◌, ◌≡◌, ◌≢◌, ◌↔◌, sym, ap, ◌∙◌, inl, inr, ◌⊎◌, some, some-injective, List,
  [], ◌∷◌, length, get_elem?, All, le→ltb_false, arith,
}
use Prim.Native.Nat.{Ordering}
use micro_opcua.Encoding.NodeId.{NodeId}
use micro_opcua.Encoding.NodeId.RoundTrip.{IsNodeId}
use micro_opcua.AddressSpace.NodeLookup.{nodeid_compare}
use micro_opcua.AddressSpace.NodeIndex.{Entry, insert, build, rebuild_index}
use micro_opcua.AddressSpace.NodeIndex.Insertion.{
  Descending, Handled, Fresh, insert-All, insert-Descending, In, insert-In,
}

abbrev pub Differs : NodeId → NodeId → Type 0
Differs n m = nodeid_compare n m ≢ Ordering.eq

-- No two nodes have equal NodeIds.
abbrev pub IsDistinct : List NodeId → Type 0
IsDistinct [] = Unit
IsDistinct (n ∷ nodes) = All (λ m. Differs n m) nodes × IsDistinct nodes

-- The entries differ from the nodes that are still to come.
abbrev Apart : List Entry → List NodeId → Type 0
Apart order nodes = All (λ o. All (λ m. Differs o.1 m) nodes) order

Apart-Fresh :
    (i : ℕ) (n : NodeId) (nodes : List NodeId) (order : List Entry)
    → Apart order (n ∷ nodes)
    → Fresh (i, n) order × Apart order nodes
Apart-Fresh i n nodes [] h = (tt, tt)
Apart-Fresh i n nodes (o ∷ order) ((p, ps), h) =
    let (f, a) = Apart-Fresh i n nodes order h in ((p, f), (ps, a))

pub build-Descending :
    (i : ℕ) (nodes : List NodeId) (order : List Entry)
    → All IsNodeId nodes
    → IsDistinct nodes
    → Handled order
    → Apart order nodes
    → Descending order
    → Descending (build i nodes order)
unfolding build
build-Descending i [] order hs ds ho ap d = d
build-Descending i (n ∷ nodes) order (h, hs) (f, ds) ho apart d =
    let (fresh, rest) = Apart-Fresh i n nodes order apart in
    build-Descending (suc i) nodes (insert (i, n) order) hs ds
      (insert-All (λ o. IsNodeId o.1) (i, n) order h ho)
      (insert-All (λ o. All (λ m. Differs o.1 m) nodes) (i, n) order f rest)
      (insert-Descending (i, n) order h ho fresh d)

pub build-Handled :
    (i : ℕ) (nodes : List NodeId) (order : List Entry)
    → All IsNodeId nodes
    → Handled order
    → Handled (build i nodes order)
unfolding build
build-Handled i [] order hs ho = ho
build-Handled i (n ∷ nodes) order (h, hs) ho =
    build-Handled (suc i) nodes (insert (i, n) order) hs
      (insert-All (λ o. IsNodeId o.1) (i, n) order h ho)

-- An entry of the nodes from position `i` on.
abbrev From : Entry → ℕ → List NodeId → Type 0
From x i [] = ⊥
From x i (n ∷ nodes) = (x ≡ (i, n)) ⊎ From x (suc i) nodes

build-In :
    (x : Entry) (i : ℕ) (nodes : List NodeId) (order : List Entry)
    → In x (build i nodes order) ↔ (In x order ⊎ From x i nodes)
unfolding build
build-In x i [] order = (λ h. inl h, λ h. elim h [ inl k ↦ k | inr k ↦ absurd k ])
build-In x i (n ∷ nodes) order = (
  there (insert-In x (i, n) order).0 (build-In x (suc i) nodes (insert (i, n) order)).0,
  back (insert-In x (i, n) order).1 (build-In x (suc i) nodes (insert (i, n) order)).1,
)
  where
    there :
        (In x (insert (i, n) order) → (x ≡ (i, n)) ⊎ In x order)
        → (In x (build (suc i) nodes (insert (i, n) order))
            → In x (insert (i, n) order) ⊎ From x (suc i) nodes)
        → In x (build (suc i) nodes (insert (i, n) order))
        → In x order ⊎ ((x ≡ (i, n)) ⊎ From x (suc i) nodes)
    there a b h = elim (b h) [
      | inl k ↦ elim (a k) [ inl e ↦ inr (inl e) | inr m ↦ inl m ]
      | inr k ↦ inr (inr k)
    ]

    back :
        ((x ≡ (i, n)) ⊎ In x order → In x (insert (i, n) order))
        → (In x (insert (i, n) order) ⊎ From x (suc i) nodes
            → In x (build (suc i) nodes (insert (i, n) order)))
        → In x order ⊎ ((x ≡ (i, n)) ⊎ From x (suc i) nodes)
        → In x (build (suc i) nodes (insert (i, n) order))
    back a b (inl m) = b (inl (a (inr m)))
    back a b (inr (inl e)) = b (inl (a (inl e)))
    back a b (inr (inr k)) = b (inr k)

From-get_elem? :
    (x : Entry) (i : ℕ) (nodes : List NodeId)
    → From x i nodes
    → (k : ℕ) × (x.0 ≡ i + k) × (get_elem? nodes k ≡ some x.1)
From-get_elem? x i [] h = absurd h
From-get_elem? x i (n ∷ nodes) (inl e) =
    (0, ap (λ y. y.0) e ∙ omega arith, ap (λ y. some y.1) (sym e))
From-get_elem? x i (n ∷ nodes) (inr h) =
    let (k, at, got) = From-get_elem? x (suc i) nodes h in (suc k, omega (arith, at), got)

get_elem?-From :
    (x : Entry) (i : ℕ) (nodes : List NodeId) (k : ℕ)
    → x.0 ≡ i + k
    → get_elem? nodes k ≡ some x.1
    → From x i nodes
get_elem?-From x i [] k at got = absurd (ground arith)
get_elem?-From x i (n ∷ nodes) zero at got =
    inl (ap (λ j. (j, x.1)) (omega (arith, at)) ∙ ap (λ m. (i, m)) (sym (some-injective _ _ got)))
get_elem?-From x i (n ∷ nodes) (suc k) at got =
    inr (get_elem?-From x (suc i) nodes k (omega (arith, at)) got)

pub build-entries :
    (nodes : List NodeId) (x : Entry) → In x (build 0 nodes []) ↔ (get_elem? nodes x.0 ≡ some x.1)
build-entries nodes x = (entry_of, of_entry)
  where
    entry_of : In x (build 0 nodes []) → get_elem? nodes x.0 ≡ some x.1
    entry_of h = elim ((build-In x 0 nodes []).0 h) [
      | inl k ↦ absurd k
      | inr k ↦
          let (j, at, got) = From-get_elem? x 0 nodes k in
          ap (get_elem? nodes) (omega (arith, at)) ∙ got
    ]

    of_entry : get_elem? nodes x.0 ≡ some x.1 → In x (build 0 nodes [])
    of_entry got = (build-In x 0 nodes []).1 (inr (get_elem?-From x 0 nodes x.0 (omega arith) got))

-- The index of at most 64 nodes with distinct numeric or string NodeIds is in strict order, and a pair of a
-- position and a NodeId is an entry of it just when the NodeId stands at that position of the table.
pub rebuild_index-Descending :
    (address : ℕ) (nodes : List NodeId)
    → length nodes ≤ 64
    → All IsNodeId nodes
    → IsDistinct nodes
    → Descending (rebuild_index address nodes).order
      × ((x : Entry) → In x (rebuild_index address nodes).order ↔ (get_elem? nodes x.0 ≡ some x.1))
unfolding rebuild_index
rebuild_index-Descending address nodes few handled distinct =
    rw (le→ltb_false 64 (length nodes) few, le→ltb_false 0xffff (length nodes) (omega arith))
      (build-Descending 0 nodes [] handled distinct tt tt tt, build-entries nodes)
