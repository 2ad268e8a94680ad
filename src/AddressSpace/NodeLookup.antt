-- ===== src/AddressSpace/NodeLookup.antt =====
-- src/address_space/node_id.c: the order of NodeIds and the searches for a node without an index. A node is
-- its NodeId, the only member that the searches read; a pointer to a node is its position.
pub mod Lex
pub mod BinarySearch
pub mod Order
pub mod Lookup
use micro_opcua.Base.{
  ℕ, zero, suc, ◌+◌, ◌-◌, ◌/◌, Bool, true, false, not, ◌&&◌, Option, none, some, List, [], ◌∷◌,
  length, get_elem?, take, ltb, ◌==◌, if◌then◌else◌,
}
use Prim.Native.Nat.{compare, Ordering}
use micro_opcua.Base.Int.{ℤ, pos, negsuc, eq_ℤ}
use micro_opcua.Base.Outcome.{Outcome, ok, err, fault}
use micro_opcua.Encoding.Text.{Str}
use micro_opcua.Encoding.NodeId.{Identifier, numeric, string, guid, opaque, NodeId}

-- identifier_type
abbrev pub identifier_code : Identifier → ℕ
identifier_code (numeric n) = 0
identifier_code (string s) = 1
identifier_code guid = 2
identifier_code opaque = 3

-- if (a < b) return -1; if (a > b) return 1; …
abbrev pub unless_equal : Ordering → Ordering → Ordering
unless_equal Ordering.lt next = Ordering.lt
unless_equal Ordering.eq next = next
unless_equal Ordering.gt next = Ordering.gt

abbrev pub compare_ℤ : ℤ → ℤ → Ordering
compare_ℤ (pos a) (pos b) = compare a b
compare_ℤ (pos a) (negsuc b) = Ordering.gt
compare_ℤ (negsuc a) (pos b) = Ordering.lt
compare_ℤ (negsuc a) (negsuc b) = compare b a

-- memcmp of two strings of the same number of bytes.
abbrev pub memcmp : List ℕ → List ℕ → Ordering
memcmp [] [] = Ordering.eq
memcmp [] (y ∷ ys) = Ordering.lt
memcmp (x ∷ xs) [] = Ordering.gt
memcmp (x ∷ xs) (y ∷ ys) = unless_equal (compare x y) (memcmp xs ys)

-- A NULL pointer is below every other.
abbrev compare_bytes : ℕ → Option (List ℕ) → Option (List ℕ) → Ordering
compare_bytes n none none = Ordering.eq
compare_bytes n none (some ys) = Ordering.lt
compare_bytes n (some xs) none = Ordering.gt
compare_bytes n (some xs) (some ys) = memcmp (take n xs) (take n ys)

-- Of two strings of the length of the first.
abbrev pub compare_payload : ℤ → Option (List ℕ) → Option (List ℕ) → Ordering
compare_payload (negsuc k) xs ys = Ordering.eq
compare_payload (pos zero) xs ys = Ordering.eq
compare_payload (pos (suc n)) xs ys = compare_bytes (suc n) xs ys

abbrev pub compare_str : Str → Str → Ordering
compare_str s t =
    unless_equal (compare_ℤ s.length t.length) (compare_payload s.length s.bytes t.bytes)

-- switch (left->identifier_type), of two identifiers of the same type
abbrev pub compare_identifier : Identifier → Identifier → Ordering
compare_identifier (numeric m) (numeric n) = compare m n
compare_identifier (string s) (string t) = compare_str s t
compare_identifier _ _ = Ordering.eq

unfoldable pub nodeid_compare : NodeId → NodeId → Ordering
nodeid_compare l r = unless_equal (compare l.namespace_index r.namespace_index) (
    unless_equal (compare (identifier_code l.identifier) (identifier_code r.identifier))
      (compare_identifier l.identifier r.identifier))

abbrev pub is_eq : Ordering → Bool
is_eq Ordering.eq = true
is_eq _ = false

-- The bytes are the same, or both pointers are NULL.
abbrev equal_bytes : ℕ → Option (List ℕ) → Option (List ℕ) → Bool
equal_bytes n none none = true
equal_bytes n none (some ys) = false
equal_bytes n (some xs) none = false
equal_bytes n (some xs) (some ys) = is_eq (memcmp (take n xs) (take n ys))

abbrev pub equal_payload : ℤ → Option (List ℕ) → Option (List ℕ) → Bool
equal_payload (negsuc k) xs ys = true
equal_payload (pos zero) xs ys = true
equal_payload (pos (suc n)) xs ys = equal_bytes (suc n) xs ys

abbrev pub equal_str : Str → Str → Bool
equal_str s t = eq_ℤ s.length t.length && equal_payload s.length s.bytes t.bytes

abbrev pub equal_identifier : Identifier → Identifier → Bool
equal_identifier (numeric m) (numeric n) = m == n
equal_identifier (string s) (string t) = equal_str s t
equal_identifier _ _ = false

-- `none` for a NULL pointer.
unfoldable pub nodeid_equal : Option NodeId → Option NodeId → Bool
nodeid_equal (some l) (some r) =
    l.namespace_index == r.namespace_index
    && (identifier_code l.identifier == identifier_code r.identifier
        && equal_identifier l.identifier r.identifier)
nodeid_equal _ _ = false

pub nodeid_in_namespace : Option NodeId → ℕ → Bool
nodeid_in_namespace none ns = false
nodeid_in_namespace (some id) ns = id.namespace_index == ns

-- From position `i` on.
find_linear_from : ℕ → List NodeId → NodeId → Option ℕ
find_linear_from i [] id = none
find_linear_from i (n ∷ nodes) id =
    let rest = find_linear_from (suc i) nodes id in
    if nodeid_equal (some n) (some id) then some i else rest

unfoldable pub find_node_linear : List NodeId → NodeId → Option ℕ
unfolding find_linear_from
find_node_linear nodes id = find_linear_from 0 nodes id

-- One round of the loop at `mid`, which is the position where the node is equal.
abbrev pub turn :
    Option Ordering
    → ℕ
    → Outcome (Unit {0}) (Option ℕ)
    → Outcome (Unit {0}) (Option ℕ)
    → Outcome (Unit {0}) (Option ℕ)
turn none mid lower upper = fault
turn (some Ordering.lt) mid lower upper = upper
turn (some Ordering.eq) mid lower upper = ok (some mid) tt
turn (some Ordering.gt) mid lower upper = lower

-- while (left < right), on fuel; `probe` is the node at a position against the NodeId that is sought, `none`
-- out of bounds. Running out of fuel is a fault.
pub search : (ℕ → Option Ordering) → ℕ → ℕ → ℕ → Outcome (Unit {0}) (Option ℕ)
search probe zero left right = if ltb left right then fault else ok none tt
search probe (suc fuel) left right =
    let mid = left + (right - left) / 2 in
    let lower = search probe fuel left mid in
    let upper = search probe fuel (mid + 1) right in
    if ltb left right then turn (probe mid) mid lower upper else ok none tt

abbrev pub probe_node : Option NodeId → NodeId → Option Ordering
probe_node none id = none
probe_node (some n) id = some (nodeid_compare n id)

abbrev pub probe_at : List NodeId → NodeId → ℕ → Option Ordering
probe_at nodes id i = probe_node (get_elem? nodes i) id

-- A round at least halves the range, so that as many rounds as there are nodes are enough.
pub find_node_binary_direct : List NodeId → NodeId → Outcome (Unit {0}) (Option ℕ)
unfolding search
find_node_binary_direct nodes id = search (probe_at nodes id) (length nodes) 0 (length nodes)
