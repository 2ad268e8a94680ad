-- ===== src/Examples/AddressSpace.antt =====
-- A small table of nodes for the lookup of src/address_space/node_id.c.
use micro_opcua.Base.{
  ℕ, zero, suc, ◌<◌, ◌≡◌, ◌≢◌, inl, true, false, refl, subst, some, some-injective, List, [], ◌∷◌,
  get_elem?, arith,
}
use Prim.Native.Nat.{Ordering}
use micro_opcua.Base.Outcome.{ok}
use micro_opcua.Encoding.NodeId.{NodeId, numeric_nodeid, string_nodeid}
use micro_opcua.Encoding.NodeId.RoundTrip.{IsNodeId}
use micro_opcua.Encoding.Text.RoundTrip.{str_of, IsStr}
use micro_opcua.AddressSpace.NodeLookup.{
  nodeid_compare, nodeid_equal, find_node_linear, find_node_binary_direct,
}
use micro_opcua.AddressSpace.NodeIndex.{Index, rebuild_index, find_node}
use micro_opcua.AddressSpace.Validation.{References, Node, Space, space_of, validate}
use micro_opcua.AddressSpace.Validation.Resolved.{validate-find_node}
use micro_opcua.AddressSpace.NodeIndex.Find.{find_node-linear}
use micro_opcua.AddressSpace.NodeLookup.Lookup.{IsSorted, find_node_binary_direct-linear}

abbrev objects : NodeId
objects = numeric_nodeid 0 85

abbrev device : NodeId
device = string_nodeid 1 (str_of (b'h' ∷ b'i' ∷ []))

abbrev table : List NodeId
table = objects ∷ device ∷ []

objects-IsNodeId : IsNodeId objects
objects-IsNodeId = IsNodeId.numeric_id 0 85 (omega arith) (omega arith)

device-IsNodeId : IsNodeId device
device-IsNodeId = IsNodeId.string_id 1 _ (omega arith) (IsStr.text (b'h' ∷ b'i' ∷ []) (omega arith))

objects-below : nodeid_compare objects device ≡ Ordering.lt
unfolding nodeid_compare
objects-below = refl

table-handled : (i : ℕ) (a : NodeId) → get_elem? table i ≡ some a → IsNodeId a
table-handled zero a e = subst IsNodeId (some-injective objects a e) objects-IsNodeId
table-handled (suc zero) a e = subst IsNodeId (some-injective device a e) device-IsNodeId
table-handled (suc (suc i)) a e = absurd (ground arith)

table-ascending :
    (i j : ℕ) (a b : NodeId)
    → i < j
    → get_elem? table i ≡ some a
    → get_elem? table j ≡ some b
    → nodeid_compare a b ≡ Ordering.lt
table-ascending zero (suc zero) a b h x y =
    rw (← some-injective objects a x, ← some-injective device b y) objects-below
table-ascending i zero a b h x y = absurd (omega arith)
table-ascending (suc i) (suc zero) a b h x y = absurd (omega arith)
table-ascending i (suc (suc j)) a b h x y = absurd (ground arith)

table-IsSorted : IsSorted table
table-IsSorted = record { handled = table-handled; ascending = table-ascending }

find_node_binary_direct-linear_example :
    find_node_binary_direct table device ≡ ok (find_node_linear table device) tt
find_node_binary_direct-linear_example =
    find_node_binary_direct-linear table device table-IsSorted device-IsNodeId

-- The same nodes, not in order.
abbrev unsorted : List NodeId
unsorted = device ∷ objects ∷ []

device-objects : nodeid_compare device objects ≢ Ordering.eq
unfolding nodeid_compare
device-objects e = ground (arith, e)

abbrev empty_index : Index
empty_index = record { order = []; indexed = false; built_for = 0; built_count = 0 }

find_node-linear_example :
    find_node 8192
      (some (record { address = 4096; nodes = some unsorted }))
      (some empty_index)
      (some device)
    ≡ (ok (find_node_linear unsorted device) tt, some (rebuild_index 4096 unsorted))
find_node-linear_example =
    find_node-linear 8192 4096 unsorted empty_index device (device-IsNodeId, (objects-IsNodeId, tt))
      ((device-objects, tt), (tt, tt)) device-IsNodeId (inl refl)

-- A node with a reference to the other, which has none.
abbrev nodes : List Node
nodes =
    record { node_id = device; references = References.targets (objects ∷ []) }
    ∷ record { node_id = objects; references = References.null 0 }
    ∷ []

nodes_valid : validate 8192 (some (Space.with_nodes 4096 nodes)) ≡ ok tt tt
unfolding validate find_node nodeid_equal find_node_linear
nodes_valid = refl

validate-find_node_example :
    (i : ℕ) × (a : NodeId) × (find_node 8192
        (some (space_of 4096 nodes))
        (some empty_index)
        (some objects)
      ≡ (ok (some i) tt, some (rebuild_index 4096 unsorted)))
    × (get_elem? unsorted i ≡ some a)
    × (nodeid_equal (some a) (some objects) ≡ true)
validate-find_node_example =
    validate-find_node 8192 4096 nodes empty_index 0 0
      (record { node_id = device; references = References.targets (objects ∷ []) }) (objects ∷ [])
      objects (λ e. omega (arith, e)) (device-IsNodeId, (objects-IsNodeId, tt)) nodes_valid refl
      refl refl objects-IsNodeId (inl refl)
