-- ===== src/AddressSpace/NodeIndex/Ids.antt =====
-- The NodeIds of an index as a table in order, which the search through the index of node_id.c searches.
use micro_opcua.Base.{
  ℕ, zero, suc, ◌<◌, ◌≡◌, refl, sym, ap, ◌∙◌, inl, inr, Bool, true, false, some, some-injective,
  List, [], ◌∷◌, ◌++◌, length, get_elem?, ◌==◌, if◌then◌else◌, Bool-cases, All, length-append,
  arith,
}
use mathlib.Core.Path.{fun_ext, subst}
use Prim.Native.Nat.{Ordering}
use micro_opcua.Encoding.NodeId.{NodeId}
use micro_opcua.Encoding.NodeId.RoundTrip.{IsNodeId}
use micro_opcua.AddressSpace.NodeLookup.{
  nodeid_compare, probe_node, probe_at, search, find_node_binary_direct,
}
use micro_opcua.AddressSpace.NodeLookup.Lookup.{IsSorted, find_node_binary_direct-search}
use micro_opcua.AddressSpace.NodeIndex.{
  Entry, entry_at, probe_entry, position_of, find_node_indexed,
}
use micro_opcua.AddressSpace.NodeIndex.Insertion.{Below, Descending, Handled, In}

get_elem?-bound :
    {A : Type 0} (xs : List A) (i : ℕ) (a : A) → get_elem? xs i ≡ some a → i < length xs
get_elem?-bound [] i a got = absurd (ground arith)
get_elem?-bound (x ∷ xs) zero a got = omega arith
get_elem?-bound (x ∷ xs) (suc i) a got = omega (arith, get_elem?-bound xs i a got)

-- The NodeIds of an index, the first entry first.
pub ids : List Entry → List NodeId
ids [] = []
ids (e ∷ order) = ids order ++ (e.1 ∷ [])

length-ids : (order : List Entry) → length (ids order) ≡ length order
unfolding ids
length-ids [] = refl
length-ids (e ∷ order) = omega (arith, length-append (ids order) (e.1 ∷ []), length-ids order)

get_elem?-snoc :
    {A : Type 0} (xs : List A) (y : A) (m : ℕ)
    → get_elem? (xs ++ (y ∷ [])) m ≡ (if m == length xs then some y else get_elem? xs m)
get_elem?-snoc [] y zero = refl
get_elem?-snoc [] y (suc m) = rw (not_zero m) refl
  where
    not_zero : (m : ℕ) → suc m == 0 ≡ false
    not_zero m = ground arith
get_elem?-snoc (x ∷ xs) y zero = rw (zero_not (length xs)) refl
  where
    zero_not : (n : ℕ) → 0 == suc n ≡ false
    zero_not n = ground arith
get_elem?-snoc (x ∷ xs) y (suc m) =
    get_elem?-snoc xs y m ∙ ap (λ b. if b then some y else get_elem? xs m) (both m (length xs))
  where
    both : (m n : ℕ) → m == n ≡ (suc m == suc n)
    both m n = elim (Bool-cases (m == n)) [ inl k ↦ ground arith | inr k ↦ ground arith ]

get_elem?-ids :
    (e : Entry) (order : List Entry) (m : ℕ)
    → get_elem? (ids (e ∷ order)) m
      ≡ (if m == length order then some e.1 else get_elem? (ids order) m)
unfolding ids
get_elem?-ids e order m =
    get_elem?-snoc (ids order) e.1 m
    ∙ ap (λ k. if m == k then some e.1 else get_elem? (ids order) m) (length-ids order)

-- The entry behind a NodeId of `ids`.
pub entry-ids :
    (order : List Entry) (m : ℕ) (a : NodeId)
    → get_elem? (ids order) m ≡ some a
    → (x : Entry) × (entry_at order m ≡ some x) × (x.1 ≡ a) × In x order
unfolding ids
entry-ids [] m a got = absurd (ground arith)
entry-ids (e ∷ order) m a got = elim (Bool-cases (m == length order)) [
  | inl k ↦ (e, here k, some-injective _ _ (sym (chosen true k) ∙ got), inl refl)
  | inr k ↦
      let (x, at, same, within) = entry-ids order m a (sym (chosen false k) ∙ got) in
      (x, there k x at, same, inr within)
]
  where
    here : m == length order ≡ true → entry_at (e ∷ order) m ≡ some e
    here k = rw k refl

    there :
        m == length order ≡ false
        → (x : Entry) → entry_at order m ≡ some x
        → entry_at (e ∷ order) m ≡ some x
    there k x at = rw k at

    chosen :
        (b : Bool)
        → m == length order ≡ b
        → get_elem? (ids order ++ (e.1 ∷ [])) m ≡ (if b then some e.1 else get_elem? (ids order) m)
    chosen b k =
        get_elem?-ids e order m ∙ ap (λ c. if c then some e.1 else get_elem? (ids order) m) k

-- Every entry stands somewhere.
pub position-In :
    (x : Entry) (order : List Entry)
    → In x order
    → (m : ℕ) × (m < length order) × (get_elem? (ids order) m ≡ some x.1)
position-In x [] h = absurd h
position-In x (e ∷ order) (inl h) = (
  length order,
  omega arith,
  get_elem?-ids e order (length order) ∙ rw (same (length order)) (ap (λ y. some y.1) (sym h)),
)
  where
    same : (n : ℕ) → n == n ≡ true
    same n = ground arith
position-In x (e ∷ order) (inr h) =
    let (m, fits, got) = position-In x order h in
    (m, omega (arith, fits), get_elem?-ids e order m ∙ rw (before m (length order) fits) got)
  where
    before : (m n : ℕ) → m < n → m == n ≡ false
    before m n h = ground arith

-- The probes of the search through the index are those of a search of `ids`.
probe-ids :
    (nodes : List NodeId) (id : NodeId) (order : List Entry)
    → ((x : Entry) → In x order → get_elem? nodes x.0 ≡ some x.1)
    → (m : ℕ) → probe_entry nodes (entry_at order m) id ≡ probe_at (ids order) id m
unfolding ids
probe-ids nodes id [] h m = refl
probe-ids nodes id (e ∷ order) h m =
    rw (get_elem?-ids e order m) (elim (Bool-cases (m == length order)) [
      | inl k ↦ rw k (ap (λ n. probe_node n id) (h e (inl refl)))
      | inr k ↦ rw k (probe-ids nodes id order (λ x within. h x (inr within)) m)
    ])

In-All : (P : Entry → Type 0) (x : Entry) (order : List Entry) → All P order → In x order → P x
In-All P x [] h k = absurd k
In-All P x (o ∷ order) (p, h) (inl e) = subst P (sym e) p
In-All P x (o ∷ order) (p, h) (inr k) = In-All P x order h k

ids-Handled :
    (order : List Entry) (i : ℕ) (a : NodeId)
    → Handled order
    → get_elem? (ids order) i ≡ some a
    → IsNodeId a
ids-Handled order i a h got =
    let (x, at, same, within) = entry-ids order i a got in
    subst IsNodeId same (In-All (λ o. IsNodeId o.1) x order h within)

ids-ascending :
    (order : List Entry) (i j : ℕ) (a b : NodeId)
    → Descending order
    → i < j
    → get_elem? (ids order) i ≡ some a
    → get_elem? (ids order) j ≡ some b
    → nodeid_compare a b ≡ Ordering.lt
unfolding ids
ids-ascending [] i j a b d h x y = absurd (ground arith)
ids-ascending (e ∷ order) i j a b (below, d) h x y = elim (Bool-cases (i == length order)) [
  | inl k ↦ absurd (past k)
  | inr k ↦ elim (Bool-cases (j == length order)) [
    | inl l ↦
        let (o, at, same, within) = entry-ids order i a (sym (earlier i k) ∙ x) in
        ap (λ m. nodeid_compare m b) (sym same)
        ∙ ap (nodeid_compare o.1) (some-injective _ _ (sym y ∙ get_elem?-ids e order j ∙ rw l refl))
        ∙ In-All (Below e) o order below within
    | inr l ↦ ids-ascending order i j a b d h (sym (earlier i k) ∙ x) (sym (earlier j l) ∙ y)
  ]
]
  where
    earlier :
        (m : ℕ)
        → m == length order ≡ false
        → get_elem? (ids (e ∷ order)) m ≡ get_elem? (ids order) m
    earlier m k = get_elem?-ids e order m ∙ rw k refl

    past : i == length order ≡ true → ⊥
    past k =
        let inside : j < length (ids (e ∷ order)) = get_elem?-bound (ids (e ∷ order)) j b y in
        ground (arith, inside, length-ids (e ∷ order))

pub ids-IsSorted : (order : List Entry) → Handled order → Descending order → IsSorted (ids order)
ids-IsSorted order h d = record {
  handled = λ i a got. ids-Handled order i a h got;
  ascending = λ i j a b below x y. ids-ascending order i j a b d below x y;
}

pub indexed-ids :
    (nodes : List NodeId) (id : NodeId) (order : List Entry)
    → ((x : Entry) → In x order → get_elem? nodes x.0 ≡ some x.1)
    → find_node_indexed nodes order id ≡ position_of order (find_node_binary_direct (ids order) id)
unfolding find_node_indexed
indexed-ids nodes id order stands = ap (position_of order) (
    ap (λ p. search p (length order) 0 (length order)) (fun_ext (probe-ids nodes id order stands))
    ∙ ap (λ n. search (probe_at (ids order) id) n 0 n) (sym (length-ids order))
    ∙ sym (find_node_binary_direct-search (ids order) id))
