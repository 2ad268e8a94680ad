-- ===== src/AddressSpace/NodeLookup/Lookup.antt =====
-- The binary search of node_id.c on a sorted table against its linear scan.
use micro_opcua.Base.{
  ℕ, zero, suc, ◌+◌, ◌<◌, ◌≡◌, refl, sym, ap, ◌∙◌, inl, inr, true, false, Option, none, some, List,
  [], ◌∷◌, length, get_elem?, get_elem?-lt, ltb, Bool-cases, arith,
}
use Prim.Native.Nat.{Ordering}
use micro_opcua.Base.Outcome.{Outcome, ok, err, fault}
use micro_opcua.Encoding.NodeId.{NodeId}
use micro_opcua.Encoding.NodeId.RoundTrip.{IsNodeId}
use micro_opcua.AddressSpace.NodeLookup.{
  is_eq, nodeid_compare, nodeid_equal, find_linear_from, find_node_linear, probe_at, search,
  find_node_binary_direct,
}
use micro_opcua.AddressSpace.NodeLookup.Lex.{flip}
use micro_opcua.AddressSpace.NodeLookup.BinarySearch.{Ordered, SearchOutcome, search-SearchOutcome}
use micro_opcua.AddressSpace.NodeLookup.Order.{
  nodeid_compare-flip, nodeid_compare_trans, nodeid_compare-eq, nodeid_equal-is_eq,
}

-- A table of numeric and string NodeIds in strictly ascending order.
pub record IsSorted (nodes : List NodeId) : Type 0 where
  pub handled : (i : ℕ) (a : NodeId) → get_elem? nodes i ≡ some a → IsNodeId a
  pub ascending :
      (i j : ℕ) (a b : NodeId)
      → i < j
      → get_elem? nodes i ≡ some a
      → get_elem? nodes j ≡ some b
      → nodeid_compare a b ≡ Ordering.lt

abbrev or_equal : Option Ordering → Ordering
or_equal none = Ordering.eq
or_equal (some c) = c

module _ (nodes : List NodeId) (sorted : IsSorted nodes) (id : NodeId) (known : IsNodeId id) where
  abbrev place : ℕ → Ordering
  place i = or_equal (probe_at nodes id i)

  place-node : (i : ℕ) (a : NodeId) → get_elem? nodes i ≡ some a → place i ≡ nodeid_compare a id
  place-node i a e = rw e

  nodes-Ordered : Ordered (length nodes) (probe_at nodes id) place
  nodes-Ordered = record {
    probed = λ i h. let (a, e) = get_elem?-lt nodes i h in rw e;
    below = below;
    above = above;
  }
    where
      below : (i j : ℕ) → i < j → j < length nodes → place j ≡ Ordering.lt → place i ≡ Ordering.lt
      below i j h k l =
          let (a, ea) = get_elem?-lt nodes i (omega arith) in
          let (b, eb) = get_elem?-lt nodes j k in
          place-node i a ea
          ∙ nodeid_compare_trans a b id (sorted.handled i a ea) (sorted.handled j b eb) known
              (sorted.ascending i j a b h ea eb) (sym (place-node j b eb) ∙ l)

      above : (i j : ℕ) → i < j → j < length nodes → place i ≡ Ordering.gt → place j ≡ Ordering.gt
      above i j h k l =
          let (a, ea) = get_elem?-lt nodes i (omega arith) in
          let (b, eb) = get_elem?-lt nodes j k in
          let ha : IsNodeId a = sorted.handled i a ea in
          let hb : IsNodeId b = sorted.handled j b eb in
          place-node j b eb
          ∙ nodeid_compare-flip id b known hb
          ∙ ap flip (
              nodeid_compare_trans id a b known ha hb
                (nodeid_compare-flip a id ha known ∙ ap flip (sym (place-node i a ea) ∙ l))
                (sorted.ascending i j a b h ea eb))

  -- At most one position is equal.
  place_unique :
      (i j : ℕ) → i < j → j < length nodes → place i ≡ Ordering.eq → place j ≡ Ordering.eq → ⊥
  place_unique i j h k x y =
      let (a, ea) = get_elem?-lt nodes i (omega arith) in
      let (b, eb) = get_elem?-lt nodes j k in
      let ha : IsNodeId a = sorted.handled i a ea in
      let hb : IsNodeId b = sorted.handled j b eb in
      let same : nodeid_compare a b ≡ Ordering.eq =
        nodeid_compare-eq a b id ha hb known (sym (place-node j b eb) ∙ y)
        ∙ (sym (place-node i a ea) ∙ x) in
      ground (arith, same, sorted.ascending i j a b h ea eb)

  search-outcome : SearchOutcome (length nodes) place (find_node_binary_direct nodes id)
  unfolding find_node_binary_direct
  search-outcome =
      search-SearchOutcome (length nodes) (probe_at nodes id) place nodes-Ordered (length nodes) 0
        (length nodes) (omega arith) (omega arith)
        ((λ i h. absurd (omega arith)), λ i h k. absurd (omega arith))

pub find_node_binary_direct-search :
    (nodes : List NodeId) (id : NodeId)
    → find_node_binary_direct nodes id ≡ search (probe_at nodes id) (length nodes) 0 (length nodes)
unfolding find_node_binary_direct
find_node_binary_direct-search nodes id = refl

-- The outcome of the scan from position `i` on.
abbrev pub ScanOutcome : ℕ → List NodeId → NodeId → Option ℕ → Type 0
ScanOutcome i nodes id none =
    (k : ℕ) (a : NodeId) → get_elem? nodes k ≡ some a → nodeid_equal (some a) (some id) ≡ false
ScanOutcome i nodes id (some j) =
    (k : ℕ) × (a : NodeId) × (j ≡ i + k)
    × (k < length nodes)
    × (get_elem? nodes k ≡ some a)
    × (nodeid_equal (some a) (some id) ≡ true)

later :
    (n : NodeId) (nodes : List NodeId) (id : NodeId)
    → nodeid_equal (some n) (some id) ≡ false
    → ((k : ℕ) (a : NodeId) → get_elem? nodes k ≡ some a → nodeid_equal (some a) (some id) ≡ false)
    → (k : ℕ) (a : NodeId) → get_elem? (n ∷ nodes) k ≡ some a
    → nodeid_equal (some a) (some id) ≡ false
later n nodes id e h zero a got = rw (← got) e
later n nodes id e h (suc k) a got = h k a got

ScanOutcome-suc :
    (i : ℕ) (n : NodeId) (nodes : List NodeId) (id : NodeId) (o : Option ℕ)
    → nodeid_equal (some n) (some id) ≡ false
    → ScanOutcome (suc i) nodes id o
    → ScanOutcome i (n ∷ nodes) id o
ScanOutcome-suc i n nodes id none e h = later n nodes id e h
ScanOutcome-suc i n nodes id (some j) e (k, a, at, fits, got, same) =
    (suc k, a, omega arith, omega arith, got, same)

scan-ScanOutcome :
    (i : ℕ) (nodes : List NodeId) (id : NodeId)
    → ScanOutcome i nodes id (find_linear_from i nodes id)
unfolding find_linear_from
scan-ScanOutcome i [] id = λ k a got. absurd (ground arith)
scan-ScanOutcome i (n ∷ nodes) id = elim (Bool-cases (nodeid_equal (some n) (some id))) [
  | inl e ↦ rw e (0, n, omega arith, omega arith, refl, e)
  | inr e ↦ rw e (
      ScanOutcome-suc i n nodes id (find_linear_from (suc i) nodes id) e
        (scan-ScanOutcome (suc i) nodes id))
]

pub find_node_linear-ScanOutcome :
    (nodes : List NodeId) (id : NodeId) → ScanOutcome 0 nodes id (find_node_linear nodes id)
unfolding find_node_linear
find_node_linear-ScanOutcome nodes id = scan-ScanOutcome 0 nodes id

pub is_eq-eq : (o : Ordering) → is_eq o ≡ true → o ≡ Ordering.eq
is_eq-eq Ordering.lt h = absurd (ground arith)
is_eq-eq Ordering.eq h = refl
is_eq-eq Ordering.gt h = absurd (ground arith)

module _ (nodes : List NodeId) (sorted : IsSorted nodes) (id : NodeId) (known : IsNodeId id) where
  place-equal :
      (k : ℕ) (a : NodeId)
      → get_elem? nodes k ≡ some a
      → nodeid_equal (some a) (some id) ≡ true
      → place nodes sorted id known k ≡ Ordering.eq
  place-equal k a got same =
      place-node nodes sorted id known k a got
      ∙ is_eq-eq (nodeid_compare a id)
          (sym (nodeid_equal-is_eq a id (sorted.handled k a got) known) ∙ same)

  same_position :
      (m k : ℕ)
      → m < length nodes
      → k < length nodes
      → place nodes sorted id known m ≡ Ordering.eq
      → place nodes sorted id known k ≡ Ordering.eq
      → m ≡ k
  same_position m k h l x y = elim (Bool-cases (ltb m k)) [
    | inl e ↦ absurd (place_unique nodes sorted id known m k (ground arith) l x y)
    | inr e ↦ elim (Bool-cases (ltb k m)) [
      | inl f ↦ absurd (place_unique nodes sorted id known k m (ground arith) h y x)
      | inr f ↦ ground arith
    ]
  ]

  scan_misses :
      (m : ℕ)
      → m < length nodes
      → place nodes sorted id known m ≡ Ordering.eq
      → ((k : ℕ) (a : NodeId)
          → get_elem? nodes k ≡ some a
          → nodeid_equal (some a) (some id) ≡ false)
      → ⊥
  scan_misses m h x misses =
      let (a, ea) = get_elem?-lt nodes m h in
      let found : nodeid_equal (some a) (some id) ≡ true =
        nodeid_equal-is_eq a id (sorted.handled m a ea) known
        ∙ ap is_eq (sym (place-node nodes sorted id known m a ea) ∙ x) in
      ground (arith, found, misses m a ea)

  agree :
      (b : Outcome (Unit {0}) (Option ℕ)) (l : Option ℕ)
      → SearchOutcome (length nodes) (place nodes sorted id known) b
      → ScanOutcome 0 nodes id l
      → b ≡ ok l tt
  agree (ok (some m) u) (some j) (fits, e) (k, a, at, inside, got, same) =
      ap (λ i. ok (some i) tt)
        (same_position m k fits inside e (place-equal k a got same) ∙ omega (arith, at))
  agree (ok (some m) u) none (fits, e) h = absurd (scan_misses m fits e h)
  agree (ok none u) (some j) h (k, a, at, inside, got, same) =
      absurd (h k inside (place-equal k a got same))
  agree (ok none u) none h k = refl
  agree (err e u) l h k = absurd h
  agree fault l h k = absurd h

-- On a table of numeric and string NodeIds in strictly ascending order, and for a numeric or string NodeId,
-- the binary search stays in bounds, ends, and finds what the linear scan finds: the position of the node,
-- or that there is none.
pub find_node_binary_direct-linear :
    (nodes : List NodeId) (id : NodeId)
    → IsSorted nodes
    → IsNodeId id
    → find_node_binary_direct nodes id ≡ ok (find_node_linear nodes id) tt
unfolding find_node_linear
find_node_binary_direct-linear nodes id sorted known =
    agree nodes sorted id known _ _ (search-outcome nodes sorted id known)
      (scan-ScanOutcome 0 nodes id)
