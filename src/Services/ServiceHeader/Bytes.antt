-- ===== src/Services/ServiceHeader/Bytes.antt =====
-- The bytes of response headers and service faults, and the reading of request headers.
use micro_opcua.Base.{ℕ, ◌^◌, ◌≤◌, ◌<◌, List, [], ◌∷◌, ◌++◌, length, arith}
use micro_opcua.Base.Int.{ℤ, pos, negsuc, unsigned}
use micro_opcua.Encoding.Le.{le_u32, le_u64}
use micro_opcua.Encoding.Reader.Safety.{Safe, >>=-Safe, >>-Safe, done-Safe}
use micro_opcua.Encoding.Reader.Safety.Primitives.{read_uint32-Safe, read_int64-Safe}
use micro_opcua.Encoding.Text.Safety.{read_string-Safe}
use micro_opcua.Encoding.Writer.Emits.{Emits, >>-Emits}
use micro_opcua.Encoding.Writer.Primitives.{
  write_byte-Emits, write_uint32-Emits, write_int32-Emits, write_int64-Emits,
  write_statuscode-Emits,
}
use micro_opcua.Encoding.NodeId.{numeric_nodeid}
use micro_opcua.Encoding.NodeId.Safety.{read_nodeid-Safe}
use micro_opcua.Encoding.NodeId.RoundTrip.{IsNodeId, nodeid_bytes, write_nodeid-Emits}
use micro_opcua.Encoding.ExtensionObject.RoundTrip.{
  extension_object_header_bytes, write_extension_object_header-Emits,
}
use micro_opcua.Encoding.ExtensionObject.Safety.{skip_extension_object-Safe}
use micro_opcua.Services.ServiceHeader.{request_header_decode, response_header_encode, write_prefix}

-- Decoding a request header stays in the buffer.
pub request_header_decode-Safe : Safe request_header_decode
unfolding request_header_decode
request_header_decode-Safe = >>=-Safe _ _ read_nodeid-Safe λ token.
    >>=-Safe _ _ read_int64-Safe λ time. >>=-Safe _ _ read_uint32-Safe λ handle.
      >>=-Safe _ _ read_uint32-Safe λ diagnostics. >>=-Safe _ _ read_string-Safe λ audit.
        >>=-Safe _ _ read_uint32-Safe
          λ timeout. >>-Safe _ _ skip_extension_object-Safe (done-Safe _)

-- A null ExtensionObject is a null NodeId and no body.
pub response_header_bytes : ℤ → ℕ → ℕ → List ℕ
response_header_bytes timestamp request_handle service_result =
    le_u64 (unsigned (2 ^ 63) timestamp)
    ++ (le_u32 request_handle
        ++ (le_u32 service_result
            ++ ((0 ∷ [])
                ++ (le_u32 0xffffffff ++ extension_object_header_bytes (numeric_nodeid 0 0) 0))))

pub response_header_encode-Emits :
    (timestamp : ℤ) (request_handle service_result : ℕ)
    → Emits
        (response_header_encode timestamp request_handle service_result)
        (response_header_bytes timestamp request_handle service_result)
unfolding response_header_encode response_header_bytes
response_header_encode-Emits timestamp request_handle service_result =
    >>-Emits _ _ _ _ (write_int64-Emits timestamp) (
      >>-Emits _ _ _ _ (write_uint32-Emits request_handle) (
        >>-Emits _ _ _ _ (write_statuscode-Emits service_result) (
          >>-Emits _ _ _ _ (write_byte-Emits 0) (
            >>-Emits _ _ _ _ (write_int32-Emits (negsuc 0)) (
              write_extension_object_header-Emits (numeric_nodeid 0 0) 0
                (IsNodeId.numeric_id 0 0 (omega arith) (omega arith)))))))

pub prefix_bytes : ℕ → ℕ → ℕ → List ℕ
unfolding response_header_bytes
prefix_bytes type request_handle service_result =
    nodeid_bytes (numeric_nodeid 0 type)
    ++ response_header_bytes (pos 0) request_handle service_result

pub write_prefix-Emits :
    (type request_handle service_result : ℕ)
    → type < 2 ^ 32
    → Emits
        (write_prefix type request_handle service_result)
        (prefix_bytes type request_handle service_result)
unfolding write_prefix prefix_bytes
write_prefix-Emits type request_handle service_result h =
    >>-Emits _ _ _ _
      (write_nodeid-Emits (numeric_nodeid 0 type) (IsNodeId.numeric_id 0 type (omega arith) h))
      (response_header_encode-Emits (pos 0) request_handle service_result)

-- A prefix has at most 33 bytes.
pub length-prefix_bytes :
    (type request_handle service_result : ℕ)
    → length (prefix_bytes type request_handle service_result) ≤ 33
unfolding prefix_bytes nodeid_bytes response_header_bytes
length-prefix_bytes type request_handle service_result = ground (arith)
