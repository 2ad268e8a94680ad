-- ===== src/AddressSpace/NodeIndex/Search.antt =====
-- The search of node_id.c through an index, against its linear scan of the table.
use micro_opcua.Base.{
  ℕ, zero, suc, ◌≡◌, ◌↔◌, refl, sym, ap, ◌∙◌, true, Option, none, some, some-injective, List, [],
  ◌∷◌, get_elem?, All, arith,
}
use mathlib.Core.Path.{subst}
use Prim.Native.Nat.{Ordering}
use micro_opcua.Base.Outcome.{ok}
use micro_opcua.Encoding.NodeId.{NodeId}
use micro_opcua.Encoding.NodeId.RoundTrip.{IsNodeId}
use micro_opcua.AddressSpace.NodeLookup.{nodeid_compare, nodeid_equal, find_node_linear}
use micro_opcua.AddressSpace.NodeLookup.Lex.{flip}
use micro_opcua.AddressSpace.NodeLookup.Order.{
  nodeid_compare-flip, nodeid_compare-eq, nodeid_equal-is_eq,
}
use micro_opcua.AddressSpace.NodeLookup.Lookup.{
  ScanOutcome, find_node_linear-ScanOutcome, is_eq-eq, find_node_binary_direct-linear,
}
use micro_opcua.AddressSpace.NodeIndex.{
  Entry, build, position_of, entry_position, find_node_indexed,
}
use micro_opcua.AddressSpace.NodeIndex.Insertion.{In}
use micro_opcua.AddressSpace.NodeIndex.Build.{
  Differs, IsDistinct, build-Descending, build-Handled, build-entries,
}
use micro_opcua.AddressSpace.NodeIndex.Ids.{ids, position-In, entry-ids, ids-IsSorted, indexed-ids}

All-get_elem? :
    {A : Type 0} (P : A → Type 0) (xs : List A) (i : ℕ) (a : A)
    → All P xs
    → get_elem? xs i ≡ some a
    → P a
All-get_elem? P [] i a h got = absurd (ground arith)
All-get_elem? P (x ∷ xs) zero a (p, h) got = subst P (some-injective _ _ got) p
All-get_elem? P (x ∷ xs) (suc i) a (p, h) got = All-get_elem? P xs i a h got

distinct_position :
    (nodes : List NodeId) (i j : ℕ) (a b : NodeId)
    → All IsNodeId nodes
    → IsDistinct nodes
    → get_elem? nodes i ≡ some a
    → get_elem? nodes j ≡ some b
    → nodeid_compare a b ≡ Ordering.eq
    → i ≡ j
distinct_position [] i j a b h d x y e = absurd (ground arith)
distinct_position (n ∷ nodes) zero zero a b h d x y e = refl
distinct_position (n ∷ nodes) zero (suc j) a b h (f, d) x y e = absurd (
    All-get_elem? (Differs n) nodes j b f y
      (ap (λ m. nodeid_compare m b) (some-injective _ _ x) ∙ e))
distinct_position (n ∷ nodes) (suc i) zero a b (hn, h) (f, d) x y e = absurd (
    All-get_elem? (Differs n) nodes i a f x (
      nodeid_compare-flip a n (All-get_elem? IsNodeId nodes i a h x) hn
      ∙ ap flip (ap (nodeid_compare a) (some-injective _ _ y) ∙ e)))
distinct_position (n ∷ nodes) (suc i) (suc j) a b (hn, h) (f, d) x y e =
    ap suc (distinct_position nodes i j a b h d x y e)

-- What the search through the index finds, from what the two scans find.
module _ (nodes : List NodeId) (id : NodeId) (order : List Entry) (handled : All IsNodeId nodes)
    (distinct : IsDistinct nodes) (known : IsNodeId id)
    (entries : (x : Entry) → In x order ↔ (get_elem? nodes x.0 ≡ some x.1)) where
  agree :
      (f l : Option ℕ)
      → ScanOutcome 0 (ids order) id f
      → ScanOutcome 0 nodes id l
      → position_of order (ok f tt) ≡ ok l tt
  agree none none f l = refl
  agree none (some j) f (k, a, at, fits, got, same) =
      let (m, inside, here) = position-In (k, a) order ((entries (k, a)).1 got) in
      ground (arith, f m a here, same)
  agree (some m) none (k, a, at, fits, got, same) l =
      let (x, stands, is, within) = entry-ids order k a got in
      ground (
        arith,
        l x.0 x.1 ((entries x).0 within),
        same,
        ap (λ n. nodeid_equal (some n) (some id)) is,
      )
  agree (some m) (some j) (k, a, at, fits, got, same) (i, b, at_b, fits_b, got_b, same_b) =
      let (x, stands, is, within) = entry-ids order k a got in
      let hx : IsNodeId x.1 = All-get_elem? IsNodeId nodes x.0 x.1 handled ((entries x).0 within) in
      let hb : IsNodeId b = All-get_elem? IsNodeId nodes i b handled got_b in
      let to_id : nodeid_compare x.1 id ≡ Ordering.eq =
        matches x.1 hx (ap (λ n. nodeid_equal (some n) (some id)) is ∙ same) in
      let equal : nodeid_compare x.1 b ≡ Ordering.eq =
        nodeid_compare-eq x.1 b id hx hb known (matches b hb same_b) ∙ to_id in
      let stands_at : k ≡ m = omega (arith, at) in
      ap (λ n. position_of order (ok (some n) tt)) (sym stands_at)
      ∙ (ap entry_position stands
          ∙ ap (λ n. ok (some n) tt)
              (distinct_position nodes x.0 i x.1 b handled distinct ((entries x).0 within) got_b
                  equal
                ∙ omega (arith, at_b)))
    where
      matches :
          (n : NodeId)
          → IsNodeId n
          → nodeid_equal (some n) (some id) ≡ true
          → nodeid_compare n id ≡ Ordering.eq
      matches n h e = is_eq-eq (nodeid_compare n id) (sym (nodeid_equal-is_eq n id h known) ∙ e)

-- On a table of numeric and string NodeIds, no two of them equal, and for a numeric or string NodeId, the
-- search through the index that is built for the table stays in bounds, ends, and finds what the linear scan of
-- the table finds: the position of the node, or that there is none.
pub find_node_indexed-linear :
    (nodes : List NodeId) (id : NodeId)
    → All IsNodeId nodes
    → IsDistinct nodes
    → IsNodeId id
    → find_node_indexed nodes (build 0 nodes []) id ≡ ok (find_node_linear nodes id) tt
find_node_indexed-linear nodes id handled distinct known =
    indexed-ids nodes id (build 0 nodes []) (λ x. (build-entries nodes x).0)
    ∙ ap (position_of (build 0 nodes [])) (
        find_node_binary_direct-linear (ids (build 0 nodes [])) id
          (ids-IsSorted (build 0 nodes []) (build-Handled 0 nodes [] handled tt)
            (build-Descending 0 nodes [] handled distinct tt tt tt))
          known)
    ∙ agree nodes id (build 0 nodes []) handled distinct known (build-entries nodes) _ _
        (find_node_linear-ScanOutcome (ids (build 0 nodes [])) id)
        (find_node_linear-ScanOutcome nodes id)
