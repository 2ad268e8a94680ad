-- ===== src/Services/ServiceHeader.antt =====
-- src/services/service_header.c, and mu_write_service_fault of src/core/service_dispatch.c.
pub mod Bytes
use micro_opcua.Base.{ℕ, ◌+◌, Option, none, some, List, [], ◌∷◌, take}
use micro_opcua.Base.Int.{ℤ, pos, negsuc}
use micro_opcua.Base.Outcome.{Outcome, ok, err, fault, Prog, ◌>>=◌, ◌>>◌, done}
use micro_opcua.Encoding.Text.{Str, read_string}
use micro_opcua.Encoding.Reader.{Reader, read_int64, read_uint32}
use micro_opcua.Encoding.Writer.{
  Writer, writer_init, write_byte, write_uint32, write_int32, write_int64, write_statuscode,
}
use micro_opcua.Encoding.NodeId.{NodeId, numeric_nodeid, read_nodeid, write_nodeid}
use micro_opcua.Encoding.ExtensionObject.{skip_extension_object, write_extension_object_header}

-- mu_request_header_t
pub record RequestHeader : Type 0 where
  pub authentication_token : NodeId
  pub timestamp : ℤ
  pub request_handle : ℕ
  pub return_diagnostics : ℕ
  pub audit_entry_id : Str
  pub timeout_hint : ℕ

pub request_header_decode : Prog Reader RequestHeader
request_header_decode = do
  authentication_token ← read_nodeid
  timestamp ← read_int64
  request_handle ← read_uint32
  return_diagnostics ← read_uint32
  audit_entry_id ← read_string
  timeout_hint ← read_uint32
  skip_extension_object
  done (record {
    authentication_token = authentication_token;
    timestamp = timestamp;
    request_handle = request_handle;
    return_diagnostics = return_diagnostics;
    audit_entry_id = audit_entry_id;
    timeout_hint = timeout_hint;
  })

-- mu_response_header_t, by its members.
pub response_header_encode : ℤ → ℕ → ℕ → Prog Writer (Unit {0})
response_header_encode timestamp request_handle service_result = do
  write_int64 timestamp
  write_uint32 request_handle
  write_statuscode service_result
  write_byte 0
  write_int32 (negsuc 0)
  write_extension_object_header (some (numeric_nodeid 0 0)) 0

-- A response type and a response header with timestamp 0.
pub write_prefix : ℕ → ℕ → ℕ → Prog Writer (Unit {0})
unfolding response_header_encode
write_prefix type request_handle service_result = do
  write_nodeid (some (numeric_nodeid 0 type))
  response_header_encode (pos 0) request_handle service_result

-- MU_ID_SERVICEFAULT
abbrev pub servicefault_id : ℕ
servicefault_id = 397

-- The bytes that were written to a buffer.
abbrev pub written : Option (List ℕ) → ℕ → List ℕ
written none n = []
written (some bytes) n = take n bytes

abbrev fault_of : Outcome Writer (Unit {0}) → Outcome (Unit {0}) (List ℕ)
fault_of (ok u w) = ok (written w.buffer w.position) tt
fault_of (err e w) = err e tt
fault_of fault = fault

-- mu_write_service_fault into a buffer of `length` bytes; the result is the message.
unfoldable pub write_service_fault : List ℕ → ℕ → ℕ → ℕ → Outcome (Unit {0}) (List ℕ)
unfolding write_prefix
write_service_fault buffer length request_handle service_result =
    fault_of (
      write_prefix servicefault_id request_handle service_result (writer_init (some buffer) length))
