-- ===== src/Encoding/NodeId.antt =====
-- src/encoding/binary_nodeid.c, and mu_nodeid_t, mu_expanded_nodeid_t and mu_qualified_name_t of
-- include/muc_opcua/types.h.
pub mod Safety
pub mod RoundTrip
use micro_opcua.Base.{
  ℕ, ◌/◌, ◌%◌, ◌^◌, Bool, true, false, ◌&&◌, Option, none, some, leb, ◌==◌, if◌then◌else◌,
}
use micro_opcua.Base.Status.{bad_decodingerror, bad_encodingerror}
use micro_opcua.Base.Outcome.{Prog, ◌>>=◌, ◌>>◌, done, fails, err}
use micro_opcua.Encoding.Reader.{Reader, byte_at, read_byte, read_uint16, read_uint32}
use micro_opcua.Encoding.Writer.{Writer, write_byte, write_uint16, write_uint32}
use micro_opcua.Encoding.Text.{Str, null_str, read_string, write_string}

-- identifier_type and the member of the union that it selects; GUID and Opaque hold nothing that the
-- code reads.
pub data Identifier : Type 0 where
  numeric : ℕ → Identifier
  string : Str → Identifier
  guid opaque : Identifier

pub record NodeId : Type 0 where
  pub namespace_index : ℕ
  pub identifier : Identifier

pub record ExpandedNodeId : Type 0 where
  pub node_id : NodeId
  pub namespace_uri : Str
  pub server_index : ℕ

pub record QualifiedName : Type 0 where
  pub namespace_index : ℕ
  pub name : Str

-- mask & (1 << k)
abbrev pub bit : ℕ → ℕ → Bool
bit k mask = mask / 2 ^ k % 2 == 1

abbrev pub numeric_nodeid : ℕ → ℕ → NodeId
numeric_nodeid ns id = record { namespace_index = ns; identifier = numeric id }

abbrev pub string_nodeid : ℕ → Str → NodeId
string_nodeid ns s = record { namespace_index = ns; identifier = string s }

read_two_byte : Prog Reader NodeId
read_two_byte = do id ← read_byte; done (numeric_nodeid 0 id)

read_four_byte : Prog Reader NodeId
read_four_byte = do ns ← read_byte; id ← read_uint16; done (numeric_nodeid ns id)

read_numeric : Prog Reader NodeId
read_numeric = do ns ← read_uint16; id ← read_uint32; done (numeric_nodeid ns id)

read_string_nodeid : Prog Reader NodeId
read_string_nodeid = do ns ← read_uint16; s ← read_string; done (string_nodeid ns s)

-- switch (format)
read_nodeid_format : ℕ → Prog Reader NodeId
unfolding read_two_byte read_four_byte read_numeric read_string_nodeid
read_nodeid_format format =
    if format == 0
    then read_two_byte
    else if format == 1
    then read_four_byte
    else if format == 2
    then read_numeric
    else if format == 3
    then read_string_nodeid
    else fails bad_decodingerror

pub read_nodeid : Prog Reader NodeId
unfolding read_nodeid_format
read_nodeid = do encoding_mask ← read_byte; read_nodeid_format (encoding_mask % 16)

write_numeric_nodeid : ℕ → ℕ → Prog Writer (Unit {0})
write_numeric_nodeid ns id =
    if ns == 0 && leb id 255
    then (do write_byte 0; write_byte id)
    else if leb ns 255 && leb id 65535
    then (do write_byte 1; write_byte ns; write_uint16 id)
    else (do write_byte 2; write_uint16 ns; write_uint32 id)

write_identifier : ℕ → Identifier → Prog Writer (Unit {0})
unfolding write_numeric_nodeid
write_identifier ns (numeric id) = write_numeric_nodeid ns id
write_identifier ns (string s) = do write_byte 3; write_uint16 ns; write_string (some s)
write_identifier ns guid = fails bad_encodingerror
write_identifier ns opaque = fails bad_encodingerror

-- `none` for a NULL pointer.
pub write_nodeid : Option NodeId → Prog Writer (Unit {0})
unfolding write_identifier
write_nodeid none = fails bad_encodingerror
write_nodeid (some id) = write_identifier id.namespace_index id.identifier

abbrev pub read_if : {A : Type 0} → Bool → Prog Reader A → A → Prog Reader A
read_if true m a = m
read_if false m a = done a

read_expanded_fields : ℕ → Prog Reader ExpandedNodeId
read_expanded_fields encoding_mask = do
  id ← read_nodeid
  uri ← read_if (bit 7 encoding_mask) read_string null_str
  server ← read_if (bit 6 encoding_mask) read_uint32 0
  done (record { node_id = id; namespace_uri = uri; server_index = server })

pub read_expanded_nodeid : Prog Reader ExpandedNodeId
unfolding read_expanded_fields
read_expanded_nodeid r =
    if leb r.length r.position
    then err bad_decodingerror r
    else (byte_at 0 >>= read_expanded_fields) r

pub write_expanded_nodeid : Option ExpandedNodeId → Prog Writer (Unit {0})
write_expanded_nodeid none = fails bad_encodingerror
write_expanded_nodeid (some id) = write_nodeid (some id.node_id)

pub read_qualified_name : Prog Reader QualifiedName
read_qualified_name = do
  ns ← read_uint16
  name ← read_string
  done (record { namespace_index = ns; name = name })

pub write_qualified_name : Option QualifiedName → Prog Writer (Unit {0})
write_qualified_name none = fails bad_encodingerror
write_qualified_name (some q) = do write_uint16 q.namespace_index; write_string (some q.name)
