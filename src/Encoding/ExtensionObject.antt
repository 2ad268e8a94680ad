-- ===== src/Encoding/ExtensionObject.antt =====
-- src/encoding/binary_extension_object.c: ExtensionObject headers and bodies.
pub mod Safety
pub mod RoundTrip
use micro_opcua.Base.{
  ℕ, ◌+◌, ◌-◌, Bool, true, false, not, ◌||◌, Option, none, some, List, leb, ltb, ◌==◌,
  if◌then◌else◌, drop,
}
use micro_opcua.Base.Int.{ℤ, pos, negsuc}
use micro_opcua.Base.Status.{good, bad_internalerror, bad_decodingerror}
use micro_opcua.Base.Outcome.{Outcome, ok, err, fault, Prog, ◌>>=◌, ◌>>◌, done, fails}
use micro_opcua.Encoding.Reader.{Reader, reader_init, reader_fail, read_byte, read_int32}
use micro_opcua.Encoding.Reader
use micro_opcua.Encoding.Writer.{Writer, write_byte, write_int32}
use micro_opcua.Encoding.NodeId.{NodeId, read_nodeid, write_nodeid}

-- if (len < 0) return MU_STATUS_BAD_DECODINGERROR; *length = (size_t)len;
body_length_of : ℤ → Prog Reader ℕ
body_length_of (pos n) = done n
body_length_of (negsuc k) = fails bad_decodingerror

read_body_length : ℕ → Prog Reader ℕ
unfolding body_length_of
read_body_length encoding_mask =
    if encoding_mask == 0
    then done 0
    else if encoding_mask == 1 || encoding_mask == 2
    then (read_int32 >>= body_length_of)
    else fails bad_decodingerror

read_body_header : Prog Reader ℕ
unfolding read_body_length
read_body_header = do encoding_mask ← read_byte; read_body_length encoding_mask

pub read_extension_object_header : Prog Reader (NodeId × ℕ)
unfolding read_body_header
read_extension_object_header = do
  type_id ← read_nodeid
  length ← read_body_header
  done (type_id, length)

-- The cast of `length` to Int32 keeps the low 32 bits, which are those that `write_int32` writes.
pub write_extension_object_header : Option NodeId → ℕ → Prog Writer (Unit {0})
write_extension_object_header type_id length = do
  write_nodeid type_id
  if length == 0 then write_byte 0 else (do write_byte 1; write_int32 (pos length))

-- reader->position > reader->length || length > reader->length - reader->position
abbrev beyond : Reader → ℕ → Bool
beyond r n = ltb r.length r.position || ltb (r.length - r.position) n

skip_body : ℕ → Prog Reader (Unit {0})
skip_body n r = if beyond r n then reader_fail bad_decodingerror r else Reader.advance n r

pub skip_extension_object : Prog Reader (Unit {0})
unfolding skip_body
skip_extension_object = do (type_id, length) ← read_extension_object_header; skip_body length

-- What the outer reader makes of the outcome of the body's decoder.
finish_body : {A : Type 0} → ℕ → Reader → Outcome Reader A → Outcome Reader A
finish_body n r (ok a body) =
    if not (body.status == good)
    then err body.status (record r { status = body.status })
    else if not (body.position == n)
    then reader_fail bad_decodingerror r
    else ok a (record r { position = r.position + n })
finish_body n r (err e body) = err e (record r { status = e })
finish_body n r fault = fault

decode_body : {A : Type 0} → ℕ → Prog Reader A → Option (List ℕ) → Prog Reader A
unfolding finish_body
decode_body n decoder none r = err bad_internalerror r
decode_body n decoder (some bytes) r =
    if beyond r n
    then reader_fail bad_decodingerror r
    else finish_body n r (decoder (reader_init (some (drop r.position bytes)) n))

-- The decoder of the body is a function pointer; its context is part of the result.
pub read_extension_object_body : {A : Type 0} → ℕ → Prog Reader A → Prog Reader A
unfolding decode_body
read_extension_object_body n decoder r =
    if not (r.status == good) then err r.status r else decode_body n decoder r.buffer r
