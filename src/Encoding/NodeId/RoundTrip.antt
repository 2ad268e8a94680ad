-- ===== src/Encoding/NodeId/RoundTrip.antt =====
-- What binary_nodeid.c writes for a NodeId and a QualifiedName, and that it reads it back.
use micro_opcua.Base.{
  ℕ, ◌%◌, ◌^◌, ◌<◌, ◌≡◌, inl, inr, ◌&&◌, some, List, [], ◌∷◌, ◌++◌, leb, ◌==◌, if◌then◌else◌,
  Bool-cases, append-nil, arith,
}
use micro_opcua.Encoding.Le.{le_u16, le_u32}
use micro_opcua.Encoding.Reader.Decodes.{
  Decodes, >>=-Decodes, done-Decodes, read_byte-Decodes, read_uint16-Decodes, read_uint32-Decodes,
}
use micro_opcua.Encoding.Writer.Emits.{Emits, Sticky, >>-Emits, >>-Sticky, if-Emits, if-Sticky}
use micro_opcua.Encoding.Writer.Primitives.{
  write_byte-Emits, write_byte-Sticky, write_uint16-Emits, write_uint16-Sticky, write_uint32-Emits,
}
use micro_opcua.Encoding.Text.{Str}
use micro_opcua.Encoding.Text.RoundTrip.{IsStr, str_bytes, read_string-Decodes, write_string-Emits}
use micro_opcua.Encoding.NodeId.{
  Identifier, numeric, string, guid, opaque, NodeId, QualifiedName, numeric_nodeid, string_nodeid,
  read_nodeid_format, read_nodeid, write_numeric_nodeid, write_nodeid, read_qualified_name,
  write_qualified_name,
}

-- The NodeIds that have a binary encoding: numeric and string ones whose parts fit their types.
pub data IsNodeId : NodeId → Type 0 where
  numeric_id : (ns id : ℕ) → ns < 2 ^ 16 → id < 2 ^ 32 → IsNodeId (numeric_nodeid ns id)
  string_id : (ns : ℕ) (s : Str) → ns < 2 ^ 16 → IsStr s → IsNodeId (string_nodeid ns s)

-- OPC 10000-6 5.2.2.9: the shortest of the numeric forms that holds the NodeId.
numeric_bytes : ℕ → ℕ → List ℕ
numeric_bytes ns id =
    if ns == 0 && leb id 255
    then 0 ∷ id ∷ []
    else if leb ns 255 && leb id 65535
    then 1 ∷ ns ∷ le_u16 id
    else 2 ∷ (le_u16 ns ++ le_u32 id)

identifier_bytes : ℕ → Identifier → List ℕ
unfolding numeric_bytes
identifier_bytes ns (numeric id) = numeric_bytes ns id
identifier_bytes ns (string s) = 3 ∷ (le_u16 ns ++ str_bytes s)
identifier_bytes ns guid = []
identifier_bytes ns opaque = []

unfoldable pub nodeid_bytes : NodeId → List ℕ
unfolding identifier_bytes
nodeid_bytes id = identifier_bytes id.namespace_index id.identifier

-- One decoder for each form.
after_mask :
    (mask : ℕ) (bytes : List ℕ) (id : NodeId)
    → Decodes (read_nodeid_format (mask % 16)) bytes id
    → Decodes read_nodeid (mask ∷ bytes) id
unfolding read_nodeid
after_mask mask bytes id h = >>=-Decodes _ _ (mask ∷ []) bytes mask id (read_byte-Decodes mask) h

two_byte-Decodes : (id : ℕ) → Decodes read_nodeid (0 ∷ id ∷ []) (numeric_nodeid 0 id)
unfolding read_nodeid_format
two_byte-Decodes id =
    after_mask 0 (id ∷ []) _
      (>>=-Decodes _ _ (id ∷ []) [] id _ (read_byte-Decodes id) (done-Decodes _))

four_byte-Decodes :
    (ns id : ℕ) → id < 2 ^ 16 → Decodes read_nodeid (1 ∷ ns ∷ le_u16 id) (numeric_nodeid ns id)
unfolding read_nodeid_format
four_byte-Decodes ns id h = after_mask 1 (ns ∷ le_u16 id) _ (
    >>=-Decodes _ _ (ns ∷ []) (le_u16 id) ns _ (read_byte-Decodes ns)
      (>>=-Decodes _ _ (le_u16 id) [] id _ (read_uint16-Decodes id h) (done-Decodes _)))

numeric-Decodes :
    (ns id : ℕ)
    → ns < 2 ^ 16
    → id < 2 ^ 32
    → Decodes read_nodeid (2 ∷ (le_u16 ns ++ le_u32 id)) (numeric_nodeid ns id)
unfolding read_nodeid_format
numeric-Decodes ns id hn hi = after_mask 2 (le_u16 ns ++ le_u32 id) _ (
    >>=-Decodes _ _ (le_u16 ns) (le_u32 id) ns _ (read_uint16-Decodes ns hn)
      (>>=-Decodes _ _ (le_u32 id) [] id _ (read_uint32-Decodes id hi) (done-Decodes _)))

string-Decodes :
    (ns : ℕ) (s : Str)
    → ns < 2 ^ 16
    → IsStr s
    → Decodes read_nodeid (3 ∷ (le_u16 ns ++ str_bytes s)) (string_nodeid ns s)
unfolding read_nodeid_format
string-Decodes ns s hn hs = after_mask 3 (le_u16 ns ++ str_bytes s) _ (
    >>=-Decodes _ _ (le_u16 ns) (str_bytes s) ns _ (read_uint16-Decodes ns hn) (
      rw (← append-nil (str_bytes s))
        (>>=-Decodes _ _ (str_bytes s) [] s _ (read_string-Decodes s hs) (done-Decodes _))))

numeric_bytes-Decodes :
    (ns id : ℕ)
    → ns < 2 ^ 16
    → id < 2 ^ 32
    → Decodes read_nodeid (numeric_bytes ns id) (numeric_nodeid ns id)
unfolding numeric_bytes
numeric_bytes-Decodes ns id hn hi = elim (Bool-cases (ns == 0 && leb id 255)) [
  | inl h ↦ rw h (two_byte (ground arith))
  | inr h ↦ rw h (elim (Bool-cases (leb ns 255 && leb id 65535)) [
    | inl h' ↦ rw h' (four_byte-Decodes ns id (ground arith))
    | inr h' ↦ rw h' (numeric-Decodes ns id hn hi)
  ])
]
  where
    two_byte : ns ≡ 0 → Decodes read_nodeid (0 ∷ id ∷ []) (numeric_nodeid ns id)
    two_byte e = rw e (two_byte-Decodes id)

pub read_nodeid-Decodes : (id : NodeId) → IsNodeId id → Decodes read_nodeid (nodeid_bytes id) id
unfolding nodeid_bytes
read_nodeid-Decodes id (numeric_id ns n hn hi) = numeric_bytes-Decodes ns n hn hi
read_nodeid-Decodes id (string_id ns s hn hs) = string-Decodes ns s hn hs

write_numeric_nodeid-Emits : (ns id : ℕ) → Emits (write_numeric_nodeid ns id) (numeric_bytes ns id)
unfolding write_numeric_nodeid numeric_bytes
write_numeric_nodeid-Emits ns id =
    if-Emits (ns == 0 && leb id 255) _ _ (0 ∷ id ∷ []) _
      (>>-Emits _ _ (0 ∷ []) (id ∷ []) (write_byte-Emits 0) (write_byte-Emits id))
      (if-Emits (leb ns 255 && leb id 65535) _ _ (1 ∷ ns ∷ le_u16 id) (2 ∷ (le_u16 ns ++ le_u32 id))
        (>>-Emits _ _ (1 ∷ []) (ns ∷ le_u16 id) (write_byte-Emits 1)
          (>>-Emits _ _ (ns ∷ []) (le_u16 id) (write_byte-Emits ns) (write_uint16-Emits id)))
        (>>-Emits _ _ (2 ∷ []) (le_u16 ns ++ le_u32 id) (write_byte-Emits 2)
          (>>-Emits _ _ (le_u16 ns) (le_u32 id) (write_uint16-Emits ns) (write_uint32-Emits id))))

write_numeric_nodeid-Sticky : (ns id : ℕ) → Sticky (write_numeric_nodeid ns id)
unfolding write_numeric_nodeid
write_numeric_nodeid-Sticky ns id =
    if-Sticky (ns == 0 && leb id 255) _ _ (>>-Sticky _ _ (write_byte-Sticky 0)) (
      if-Sticky (leb ns 255 && leb id 65535) _ _ (>>-Sticky _ _ (write_byte-Sticky 1))
        (>>-Sticky _ _ (write_byte-Sticky 2)))

pub write_nodeid-Emits :
    (id : NodeId) → IsNodeId id → Emits (write_nodeid (some id)) (nodeid_bytes id)
unfolding write_nodeid nodeid_bytes
write_nodeid-Emits id (numeric_id ns n hn hi) = write_numeric_nodeid-Emits ns n
write_nodeid-Emits id (string_id ns s hn hs) =
    >>-Emits _ _ (3 ∷ []) (le_u16 ns ++ str_bytes s) (write_byte-Emits 3)
      (>>-Emits _ _ (le_u16 ns) (str_bytes s) (write_uint16-Emits ns) (write_string-Emits s hs))

pub write_nodeid-Sticky : (id : NodeId) → IsNodeId id → Sticky (write_nodeid (some id))
unfolding write_nodeid
write_nodeid-Sticky id (numeric_id ns n hn hi) = write_numeric_nodeid-Sticky ns n
write_nodeid-Sticky id (string_id ns s hn hs) = >>-Sticky _ _ (write_byte-Sticky 3)

pub record IsQualifiedName (q : QualifiedName) : Type 0 where
  pub namespace_fits : q.namespace_index < 2 ^ 16
  pub name_fits : IsStr q.name

abbrev pub qualified_name_bytes : QualifiedName → List ℕ
qualified_name_bytes q = le_u16 q.namespace_index ++ str_bytes q.name

pub read_qualified_name-Decodes :
    (q : QualifiedName) → IsQualifiedName q → Decodes read_qualified_name (qualified_name_bytes q) q
unfolding read_qualified_name
read_qualified_name-Decodes q h =
    >>=-Decodes _ _ (le_u16 q.namespace_index) (str_bytes q.name) q.namespace_index q
      (read_uint16-Decodes q.namespace_index h.namespace_fits)
      (rw (← append-nil (str_bytes q.name)) (
        >>=-Decodes _ _ (str_bytes q.name) [] q.name q (read_string-Decodes q.name h.name_fits)
          (done-Decodes q)))

pub write_qualified_name-Emits :
    (q : QualifiedName)
    → IsQualifiedName q
    → Emits (write_qualified_name (some q)) (qualified_name_bytes q)
unfolding write_qualified_name
write_qualified_name-Emits q h =
    >>-Emits _ _ (le_u16 q.namespace_index) (str_bytes q.name)
      (write_uint16-Emits q.namespace_index) (write_string-Emits q.name h.name_fits)

pub write_qualified_name-Sticky : (q : QualifiedName) → Sticky (write_qualified_name (some q))
unfolding write_qualified_name
write_qualified_name-Sticky q = >>-Sticky _ _ (write_uint16-Sticky q.namespace_index)
