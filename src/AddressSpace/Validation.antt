-- ===== src/AddressSpace/Validation.antt =====
-- src/address_space/address_space.c: the check of an address space.
pub mod Resolved
use micro_opcua.Base.{
  ℕ, zero, suc, Bool, true, false, ◌||◌, ◌&&◌, Option, none, some, List, [], ◌∷◌, ltb,
  if◌then◌else◌,
}
use micro_opcua.Base.Status.{bad_internalerror}
use micro_opcua.Base.Outcome.{Outcome, ok, err, fault}
use micro_opcua.Encoding.NodeId.{NodeId}
use micro_opcua.AddressSpace.NodeLookup.{nodeid_equal}
use micro_opcua.AddressSpace.NodeIndex.{AddressSpace, find_node}

-- node->references and node->reference_count: a NULL pointer with the count, or the targets behind the pointer.
pub data References : Type 0 where
  null : ℕ → References
  targets : List NodeId → References

-- The members of mu_node_t that the check reads.
pub record Node : Type 0 where
  pub node_id : NodeId
  pub references : References

abbrev pub node_ids : List Node → List NodeId
node_ids [] = []
node_ids (n ∷ nodes) = n.node_id ∷ node_ids nodes

-- One of the nodes has this NodeId.
abbrev pub has_equal : NodeId → List NodeId → Bool
has_equal id [] = false
has_equal id (n ∷ ids) = nodeid_equal (some id) (some n) || has_equal id ids

abbrev pub has_duplicates : List NodeId → Bool
has_duplicates [] = false
has_duplicates (n ∷ ids) = has_equal n ids || has_duplicates ids

-- if (!mu_address_space_find_node(address_space, NULL, &ref->target_id)) return MU_STATUS_BAD_INTERNALERROR;
abbrev pub unless_found :
    Outcome (Unit {0}) (Option ℕ) → Outcome (Unit {0}) (Unit {0}) → Outcome (Unit {0}) (Unit {0})
unless_found (ok none u) rest = err bad_internalerror tt
unless_found (ok (some i) u) rest = rest
unless_found (err e u) rest = err e tt
unless_found fault rest = fault

module _ (base : ℕ) (space : AddressSpace) where
  abbrev pub check_targets :
      List NodeId → Outcome (Unit {0}) (Unit {0}) → Outcome (Unit {0}) (Unit {0})
  check_targets [] next = next
  check_targets (id ∷ ids) next =
      unless_found (find_node base (some space) none (some id)).0 (check_targets ids next)

  abbrev pub check_references :
      References → Outcome (Unit {0}) (Unit {0}) → Outcome (Unit {0}) (Unit {0})
  check_references (null count) next = if ltb 0 count then err bad_internalerror tt else next
  check_references (targets ids) next = check_targets ids next

  abbrev pub check_nodes : List Node → Outcome (Unit {0}) (Unit {0})
  check_nodes [] = ok tt tt
  check_nodes (n ∷ nodes) = check_references n.references (check_nodes nodes)

abbrev pub space_of : ℕ → List Node → AddressSpace
space_of address nodes = record { address = address; nodes = some (node_ids nodes) }

-- The pointer to an address space: its address and its nodes.
pub data Space : Type 0 where
  no_nodes : ℕ → Space
  with_nodes : ℕ → List Node → Space

-- mu_address_space_validate, where `base` is the address of mu_base_address_space(); `no_nodes` has a NULL
-- pointer to nodes and the count.
unfoldable pub validate : ℕ → Option Space → Outcome (Unit {0}) (Unit {0})
validate base none = err bad_internalerror tt
validate base (some (no_nodes count)) = if ltb 0 count then err bad_internalerror tt else ok tt tt
validate base (some (with_nodes address nodes)) =
    if has_duplicates (node_ids nodes)
    then err bad_internalerror tt
    else check_nodes base (space_of address nodes) nodes
