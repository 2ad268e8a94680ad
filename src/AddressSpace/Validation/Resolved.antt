-- ===== src/AddressSpace/Validation/Resolved.antt =====
-- What the check of address_space.c gives to the search for nodes of node_id.c.
use micro_opcua.Base.{
  ℕ, zero, suc, ◌≡◌, ◌≢◌, refl, sym, ap, subst, ◌∙◌, inl, inr, ◌⊎◌, true, false, Option, none, some,
  some-injective, List, [], ◌∷◌, get_elem?, ltb, Bool-cases, All, arith,
}
use micro_opcua.Base.Outcome.{Outcome, ok}
use micro_opcua.Encoding.NodeId.{NodeId}
use micro_opcua.Encoding.NodeId.RoundTrip.{IsNodeId}
use micro_opcua.AddressSpace.NodeLookup.{nodeid_equal, find_node_linear}
use micro_opcua.AddressSpace.NodeLookup.Order.{nodeid_equal-is_eq}
use micro_opcua.AddressSpace.NodeLookup.Lookup.{ScanOutcome, find_node_linear-ScanOutcome}
use micro_opcua.AddressSpace.NodeIndex.{Index, is_for, rebuild_index, find_node}
use micro_opcua.AddressSpace.NodeIndex.Build.{Differs, IsDistinct}
use micro_opcua.AddressSpace.NodeIndex.Find.{find_node-linear, find_node-without_index}
use micro_opcua.AddressSpace.Validation.{
  References, null, targets, Node, node_ids, has_equal, has_duplicates, unless_found, check_targets,
  check_references, check_nodes, with_nodes, space_of, validate,
}

has_equal-Differs :
    (id : NodeId) (ids : List NodeId)
    → IsNodeId id
    → All IsNodeId ids
    → has_equal id ids ≡ false
    → All (λ m. Differs id m) ids
has_equal-Differs id [] h hs e = tt
has_equal-Differs id (m ∷ ids) h (k, hs) e = (
  (λ same. ground (arith, e, nodeid_equal-is_eq id m h k, same)),
  has_equal-Differs id ids h hs (ground (arith, e)),
)

has_duplicates-IsDistinct :
    (ids : List NodeId) → All IsNodeId ids → has_duplicates ids ≡ false → IsDistinct ids
has_duplicates-IsDistinct [] hs e = tt
has_duplicates-IsDistinct (id ∷ ids) (h, hs) e = (
  has_equal-Differs id ids h hs (ground (arith, e)),
  has_duplicates-IsDistinct ids hs (ground (arith, e)),
)

abbrev Passed : Outcome (Unit {0}) (Unit {0}) → Type 0
Passed o = o ≡ ok tt tt

abbrev IsFound : List NodeId → NodeId → Type 0
IsFound ids id = (i : ℕ) × (find_node_linear ids id ≡ some i)

unless_found-Passed :
    (l : Option ℕ) (rest : Outcome (Unit {0}) (Unit {0}))
    → Passed (unless_found (ok l tt) rest)
    → ((i : ℕ) × (l ≡ some i)) × Passed rest
unless_found-Passed none rest h = absurd (ground (arith, h))
unless_found-Passed (some i) rest h = ((i, refl), h)

-- Every target of the references is found.
abbrev Reaches : List NodeId → References → Type 0
Reaches ids (null count) = Unit
Reaches ids (targets ts) = All (IsFound ids) ts

module _ (base address : ℕ) (nodes : List Node) (other : address ≢ base) where
  check_targets-Passed :
      (ts : List NodeId) (next : Outcome (Unit {0}) (Unit {0}))
      → Passed (check_targets base (space_of address nodes) ts next)
      → All (IsFound (node_ids nodes)) ts × Passed next
  check_targets-Passed [] next h = (tt, h)
  check_targets-Passed (id ∷ ts) next h =
      let same = find_node-without_index base address (node_ids nodes) id other in
      let (found, rest) =
        unless_found-Passed (find_node_linear (node_ids nodes) id)
          (check_targets base (space_of address nodes) ts next)
          (ap (λ o. unless_found o (check_targets base (space_of address nodes) ts next)) (sym same)
            ∙ h) in
      let (all, last) = check_targets-Passed ts next rest in ((found, all), last)

  check_references-Passed :
      (refs : References) (next : Outcome (Unit {0}) (Unit {0}))
      → Passed (check_references base (space_of address nodes) refs next)
      → Reaches (node_ids nodes) refs × Passed next
  check_references-Passed (null count) next h = elim (Bool-cases (ltb 0 count)) [
    | inl e ↦ absurd (ground (arith, rw e at h))
    | inr e ↦ (tt, rw e at h)
  ]
  check_references-Passed (targets ts) next h = check_targets-Passed ts next h

  check_nodes-Passed :
      (ns : List Node)
      → Passed (check_nodes base (space_of address nodes) ns)
      → All (λ n. Reaches (node_ids nodes) n.references) ns
  check_nodes-Passed [] h = tt
  check_nodes-Passed (n ∷ ns) h =
      let (here, rest) =
        check_references-Passed n.references (check_nodes base (space_of address nodes) ns) h in
      (here, check_nodes-Passed ns rest)

All-at :
    {A : Type 0} (P : A → Type 0) (xs : List A) (k : ℕ) (x : A)
    → All P xs
    → get_elem? xs k ≡ some x
    → P x
All-at P [] k x h got = absurd (ground (arith, got))
All-at P (y ∷ xs) zero x (p, h) got = subst P (some-injective y x got) p
All-at P (y ∷ xs) (suc k) x (p, h) got = All-at P xs k x h got

found_node :
    (ids : List NodeId) (id : NodeId) (o : Option ℕ) (i : ℕ)
    → o ≡ some i
    → ScanOutcome 0 ids id o
    → (a : NodeId) × (get_elem? ids i ≡ some a) × (nodeid_equal (some a) (some id) ≡ true)
found_node ids id none i e s = absurd (ground (arith, e))
found_node ids id (some j) i e (k, a, at, fits, got, same) =
    (a, ap (get_elem? ids) (sym (some-injective j i e) ∙ omega (arith, at)) ∙ got, same)

-- In an address space other than the one of the base nodes that passes the check and has numeric and string
-- NodeIds, the search with an index, in any state that it can be in, finds for the target of every reference of
-- every node a node with an equal NodeId.
pub validate-find_node :
    (base address : ℕ) (nodes : List Node) (index : Index) (k j : ℕ) (n : Node) (ts : List NodeId)
    (id : NodeId)
    → address ≢ base
    → All IsNodeId (node_ids nodes)
    → validate base (some (with_nodes address nodes)) ≡ ok tt tt
    → get_elem? nodes k ≡ some n
    → n.references ≡ targets ts
    → get_elem? ts j ≡ some id
    → IsNodeId id
    → (is_for address (node_ids nodes) index ≡ false)
      ⊎ (index ≡ rebuild_index address (node_ids nodes))
    → (i : ℕ) × (a : NodeId) × (find_node base
          (some (space_of address nodes))
          (some index)
          (some id)
        ≡ (ok (some i) tt, some (rebuild_index address (node_ids nodes))))
      × (get_elem? (node_ids nodes) i ≡ some a)
      × (nodeid_equal (some a) (some id) ≡ true)
unfolding validate
validate-find_node base address nodes index k j n ts id other handled valid at refs target known
      state =
    elim (Bool-cases (has_duplicates (node_ids nodes))) [
      | inl e ↦ absurd (ground (arith, rw e at valid))
      | inr e ↦
          let reach : Reaches (node_ids nodes) n.references =
            All-at (λ m. Reaches (node_ids nodes) m.references) nodes k n
              (check_nodes-Passed base address nodes other nodes (rw e at valid)) at in
          let (i, found) =
            All-at (IsFound (node_ids nodes)) ts j id (subst (Reaches (node_ids nodes)) refs reach)
              target in
          let (a, got, same) =
            found_node (node_ids nodes) id _ i found
              (find_node_linear-ScanOutcome (node_ids nodes) id) in
          (
            i,
            a,
            find_node-linear base address (node_ids nodes) index id handled
                  (has_duplicates-IsDistinct (node_ids nodes) handled e) known state
                ∙ ap (λ o. (ok o tt, some (rebuild_index address (node_ids nodes)))) found,
            got,
            same,
          )
    ]
