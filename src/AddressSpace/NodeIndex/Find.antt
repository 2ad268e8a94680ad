-- ===== src/AddressSpace/NodeIndex/Find.antt =====
-- The search for a node of node_id.c with an index, whatever state the index is in.
use micro_opcua.Base.{
  ◌≢◌, ◌==◌, none, arith, ℕ, ◌≡◌, refl, ap, ◌∙◌, inl, inr, ◌⊎◌, false, ◌||◌, some, List, length,
  ltb, Bool-cases, All,
}
use micro_opcua.Base.Outcome.{ok}
use micro_opcua.Encoding.NodeId.{NodeId}
use micro_opcua.Encoding.NodeId.RoundTrip.{IsNodeId}
use micro_opcua.AddressSpace.NodeLookup.{find_node_linear}
use micro_opcua.AddressSpace.NodeIndex.{
  Index, rebuild_index, search_index, is_for, refreshed, find_node,
}
use micro_opcua.AddressSpace.NodeIndex.Build.{IsDistinct}
use micro_opcua.AddressSpace.NodeIndex.Search.{find_node_indexed-linear}

search_rebuilt :
    (address : ℕ) (nodes : List NodeId) (id : NodeId)
    → All IsNodeId nodes
    → IsDistinct nodes
    → IsNodeId id
    → search_index nodes (rebuild_index address nodes) id ≡ ok (find_node_linear nodes id) tt
unfolding rebuild_index
search_rebuilt address nodes id handled distinct known =
    elim (Bool-cases (ltb 64 (length nodes) || ltb 0xffff (length nodes))) [
      | inl k ↦ rw k refl
      | inr k ↦ rw k (find_node_indexed-linear nodes id handled distinct known)
    ]

refreshed-rebuild_index :
    (address : ℕ) (nodes : List NodeId) (index : Index)
    → (is_for address nodes index ≡ false) ⊎ (index ≡ rebuild_index address nodes)
    → refreshed address nodes index ≡ rebuild_index address nodes
refreshed-rebuild_index address nodes index (inl h) = rw h refl
refreshed-rebuild_index address nodes index (inr h) =
    elim (Bool-cases (is_for address nodes index)) [ inl k ↦ rw k h | inr k ↦ rw k refl ]

-- Without an index, and for an address space other than the one of the base nodes.
pub find_node-without_index :
    (base address : ℕ) (nodes : List NodeId) (id : NodeId)
    → address ≢ base
    → (find_node base (some (record { address = address; nodes = some nodes })) none (some id)).0
      ≡ ok (find_node_linear nodes id) tt
unfolding find_node
find_node-without_index base address nodes id other = rw (apart) refl
  where
    apart : address == base ≡ false
    apart = ground arith

-- For an address space of numeric and string NodeIds, no two of them equal, a numeric or string NodeId, and
-- an index that is not for this table or is the one built for it, the search ends with what the linear scan of
-- the table finds, with more than 64 nodes as well, and leaves the index built for the table.
pub find_node-linear :
    (base address : ℕ) (nodes : List NodeId) (index : Index) (id : NodeId)
    → All IsNodeId nodes
    → IsDistinct nodes
    → IsNodeId id
    → (is_for address nodes index ≡ false) ⊎ (index ≡ rebuild_index address nodes)
    → find_node base
        (some (record { address = address; nodes = some nodes }))
        (some index)
        (some id)
      ≡ (ok (find_node_linear nodes id) tt, some (rebuild_index address nodes))
unfolding find_node
find_node-linear base address nodes index id handled distinct known state =
    let fresh : refreshed address nodes index ≡ rebuild_index address nodes =
      refreshed-rebuild_index address nodes index state in
    ap (λ i. (search_index nodes i id, some i)) fresh
    ∙ ap (λ r. (r, some (rebuild_index address nodes)))
        (search_rebuilt address nodes id handled distinct known)
