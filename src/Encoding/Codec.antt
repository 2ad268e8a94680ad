-- ===== src/Encoding/Codec.antt =====
-- The contract between an encoder and a decoder of src/encoding, and the pairs that keep it.
use micro_opcua.Base.{ℕ, ◌^◌, ◌<◌, ◌≤◌, ◌≡◌, ◌≢◌, some, List, ◌++◌, length, drop}
use micro_opcua.Base.Status.{good}
use micro_opcua.Base.Outcome.{ok, err, Prog}
use micro_opcua.Encoding.Reader.{Reader}
use micro_opcua.Encoding.Reader.Decodes.{reader_at, Decodes}
use micro_opcua.Encoding.Writer.{Writer}
use micro_opcua.Encoding.Writer.Emits.{writer_at, IsFull, Emits, Sticky}
use micro_opcua.Encoding.Text.{Str, read_string, write_string}
use micro_opcua.Encoding.Text.RoundTrip.{
  IsStr, str_bytes, read_string-Decodes, write_string-Emits, write_string-Sticky,
}
use micro_opcua.Encoding.NodeId.{
  NodeId, QualifiedName, read_nodeid, write_nodeid, read_qualified_name, write_qualified_name,
}
use micro_opcua.Encoding.NodeId.RoundTrip.{
  IsNodeId, nodeid_bytes, read_nodeid-Decodes, write_nodeid-Emits, write_nodeid-Sticky,
  IsQualifiedName, qualified_name_bytes, read_qualified_name-Decodes, write_qualified_name-Emits,
  write_qualified_name-Sticky,
}
use micro_opcua.Encoding.ExtensionObject.{
  read_extension_object_header, write_extension_object_header,
}
use micro_opcua.Encoding.ExtensionObject.RoundTrip.{
  extension_object_header_bytes, read_extension_object_header-Decodes,
  write_extension_object_header-Emits, write_extension_object_header-Sticky,
}
use micro_opcua.Encoding.DataValue.{DataValue}

-- What an encoder and a decoder promise each other for one value.
pub record Codec {A : Type 0} (write : Prog Writer (Unit {0})) (read : Prog Reader A)
    (bytes : List ℕ) (a : A) : Type 0 where
  -- Where the encoding fits, it is written at the position of the writer, which moves behind it, and what
  -- lies before and behind it is left as it was.
  pub writes :
      (before room : List ℕ)
      → length bytes ≤ length room
      → write (writer_at before room)
        ≡ ok tt (writer_at (before ++ bytes) (drop (length bytes) room))
  -- A reader of that buffer at the same position reads the value, and ends where the writer did.
  pub reads :
      (before room : List ℕ)
      → read (reader_at before (bytes ++ drop (length bytes) room))
        ≡ ok a (reader_at (before ++ bytes) (drop (length bytes) room))
  -- Where it does not fit, the status is Bad_EncodingError, and what was written before is left as it was.
  pub refuses :
      (before room : List ℕ)
      → length room < length bytes
      → IsFull before room (write (writer_at before room))
  -- A writer that has failed returns its status, and is left as it was.
  pub stops : (w : Writer) → w.status ≢ good → write w ≡ err w.status w

Codec-of :
    {A : Type 0} (write : Prog Writer (Unit {0})) (read : Prog Reader A) (bytes : List ℕ) (a : A)
    → Emits write bytes
    → Decodes read bytes a
    → Sticky write
    → Codec write read bytes a
Codec-of write read bytes a e d s = record {
  writes = e.fits;
  reads = λ before room. d.run before (drop (length bytes) room);
  refuses = e.full;
  stops = s.run;
}

-- For a numeric or string NodeId in range, mu_binary_write_nodeid writes the shortest format that holds it
-- (two bytes, four bytes, numeric or string) where it fits, and mu_binary_read_nodeid reads the same
-- NodeId back and ends where the writer did; where it does not fit, or the writer has failed before, the
-- writer refuses and what stood before is kept.
pub nodeid-Codec :
    (id : NodeId) → IsNodeId id → Codec (write_nodeid (some id)) read_nodeid (nodeid_bytes id) id
nodeid-Codec id h =
    Codec-of _ _ (nodeid_bytes id) id (write_nodeid-Emits id h) (read_nodeid-Decodes id h)
      (write_nodeid-Sticky id h)

-- For the null string and every string of at most 4096 bytes, mu_binary_write_string writes the length and
-- the bytes where they fit, and mu_binary_read_string reads the same string back and ends where the writer
-- did; where they do not fit, or the writer has failed before, the writer refuses and what stood before is
-- kept.
pub string-Codec : (s : Str) → IsStr s → Codec (write_string (some s)) read_string (str_bytes s) s
string-Codec s h =
    Codec-of _ _ (str_bytes s) s (write_string-Emits s h) (read_string-Decodes s h)
      (write_string-Sticky s h)

-- For a QualifiedName in range, mu_binary_write_qualified_name writes the index and the name where they
-- fit, and mu_binary_read_qualified_name reads the same QualifiedName back and ends where the writer did;
-- where they do not fit, or the writer has failed before, the writer refuses and what stood before is kept.
pub qualified_name-Codec :
    (q : QualifiedName)
    → IsQualifiedName q
    → Codec (write_qualified_name (some q)) read_qualified_name (qualified_name_bytes q) q
qualified_name-Codec q h =
    Codec-of _ _ (qualified_name_bytes q) q (write_qualified_name-Emits q h)
      (read_qualified_name-Decodes q h) (write_qualified_name-Sticky q)

-- For a type id in range and a body length below 2 ^ 31, mu_binary_write_extension_object_header writes
-- the header where it fits, and mu_binary_read_extension_object_header reads the same type id and length
-- back and ends where the writer did; where it does not fit, or the writer has failed before, the writer
-- refuses and what stood before is kept.
pub extension_object_header-Codec :
    (id : NodeId) (n : ℕ)
    → IsNodeId id
    → n < 2 ^ 31
    → Codec
        (write_extension_object_header (some id) n)
        read_extension_object_header
        (extension_object_header_bytes id n)
        (id, n)
extension_object_header-Codec id n h k =
    Codec-of _ _ (extension_object_header_bytes id n) (id, n)
      (write_extension_object_header-Emits id n h) (read_extension_object_header-Decodes id n h k)
      (write_extension_object_header-Sticky id n h)
