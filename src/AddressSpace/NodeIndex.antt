-- ===== src/AddressSpace/NodeIndex.antt =====
-- src/address_space/node_id.c: the index of an address space, and the choice of the search.
pub mod Insertion
pub mod Build
pub mod Ids
pub mod Search
pub mod Find
use micro_opcua.Base.{
  ℕ, zero, suc, ◌+◌, ◌-◌, Bool, true, false, not, ◌&&◌, ◌||◌, Option, none, some, List, [], ◌∷◌,
  length, get_elem?, ltb, ◌==◌, if◌then◌else◌,
}
use Prim.Native.Nat.{Ordering}
use micro_opcua.Base.Outcome.{Outcome, ok, err, fault}
use micro_opcua.Encoding.NodeId.{NodeId}
use micro_opcua.AddressSpace.NodeLookup.{
  nodeid_compare, probe_node, search, find_node_linear, find_node_binary_direct,
}

-- An entry of `order`: a position in the table, with the NodeId that stands there.
abbrev pub Entry : Type 0
Entry = ℕ × NodeId

-- mu_address_space_t: the pointer to it, and the nodes, `none` for NULL.
pub record AddressSpace : Type 0 where
  pub address : ℕ
  pub nodes : Option (List NodeId)

-- mu_address_space_index_t; `order` is kept with its last entry first.
pub record Index : Type 0 where
  pub order : List Entry
  pub indexed : Bool
  pub built_for : ℕ
  pub built_count : ℕ

-- MU_MAX_ADDRESS_SPACE_NODES
abbrev pub max_address_space_nodes : ℕ
max_address_space_nodes = 64

-- mu_nodeid_compare_direct(previous, current) <= 0
abbrev pub not_above : Ordering → Bool
not_above Ordering.gt = false
not_above _ = true

-- while (position > 0): entries above the new one move up.
pub insert : Entry → List Entry → List Entry
insert e [] = e ∷ []
insert e (o ∷ order) =
    let rest = insert e order in
    if not_above (nodeid_compare o.1 e.1) then e ∷ o ∷ order else o ∷ rest

-- The nodes from position `i` on.
pub build : ℕ → List NodeId → List Entry → List Entry
unfolding insert
build i [] order = order
build i (n ∷ nodes) order = build (suc i) nodes (insert (i, n) order)

pub rebuild_index : ℕ → List NodeId → Index
unfolding build
rebuild_index address nodes =
    if ltb max_address_space_nodes (length nodes) || ltb 0xffff (length nodes)
    then (record { order = []; indexed = false; built_for = address; built_count = length nodes })
    else (record {
      order = build 0 nodes [];
      indexed = true;
      built_for = address;
      built_count = length nodes;
    })

-- index->order[m]: the head of the list is the last entry.
abbrev pub entry_at : List Entry → ℕ → Option Entry
entry_at [] m = none
entry_at (e ∷ order) m = if m == length order then some e else entry_at order m

-- The node that an entry stands for, read from the table.
abbrev pub probe_entry : List NodeId → Option Entry → NodeId → Option Ordering
probe_entry nodes none id = none
probe_entry nodes (some e) id = probe_node (get_elem? nodes e.0) id

abbrev pub entry_position : Option Entry → Outcome (Unit {0}) (Option ℕ)
entry_position none = fault
entry_position (some e) = ok (some e.0) tt

abbrev pub position_of : List Entry → Outcome (Unit {0}) (Option ℕ) → Outcome (Unit {0}) (Option ℕ)
position_of order (ok none u) = ok none u
position_of order (ok (some m) u) = entry_position (entry_at order m)
position_of order (err e u) = err e u
position_of order fault = fault

unfoldable pub find_node_indexed : List NodeId → List Entry → NodeId → Outcome (Unit {0}) (Option ℕ)
find_node_indexed nodes order id =
    position_of order
      (search (λ m. probe_entry nodes (entry_at order m) id) (length order) 0 (length order))

abbrev pub search_index : List NodeId → Index → NodeId → Outcome (Unit {0}) (Option ℕ)
search_index nodes index id =
    if not index.indexed
    then ok (find_node_linear nodes id) tt
    else find_node_indexed nodes index.order id

-- The index was built for this table.
abbrev pub is_for : ℕ → List NodeId → Index → Bool
is_for address nodes index = index.built_for == address && index.built_count == length nodes

-- The index that a search uses.
abbrev pub refreshed : ℕ → List NodeId → Index → Index
refreshed address nodes index =
    if not (is_for address nodes index) then rebuild_index address nodes else index

abbrev without_index : ℕ → ℕ → List NodeId → NodeId → Outcome (Unit {0}) (Option ℕ)
without_index base address nodes id =
    if address == base then find_node_binary_direct nodes id else ok (find_node_linear nodes id) tt

-- `base` is the address of mu_base_address_space(); the second component is the index afterwards.
unfoldable pub find_node :
    ℕ
    → Option AddressSpace
    → Option Index
    → Option NodeId
    → Outcome (Unit {0}) (Option ℕ) × Option Index
unfolding find_node_indexed rebuild_index
find_node base (some (space)) index (some id) = find_in base space.address space.nodes index id
  where
    find_in :
        ℕ
        → ℕ
        → Option (List NodeId)
        → Option Index
        → NodeId
        → Outcome (Unit {0}) (Option ℕ) × Option Index
    find_in base address none index id = (ok none tt, index)
    find_in base address (some nodes) none id = (without_index base address nodes id, none)
    find_in base address (some nodes) (some index) id = (
      search_index nodes (refreshed address nodes index) id,
      some (refreshed address nodes index),
    )
find_node base space index id = (ok none tt, index)
