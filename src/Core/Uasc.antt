-- ===== src/Core/Uasc.antt =====
-- src/core/uasc.c and uasc.h: the headers in front of a response.
pub mod Headers
use micro_opcua.Base.{ℕ, ◌+◌, ◌*◌, ◌%◌, ◌^◌, List, [], ◌∷◌, ◌++◌, ltb, if◌then◌else◌}
use micro_opcua.Base.Status.{bad_responsetoolarge}
use micro_opcua.Base.Outcome.{Prog, ◌>>◌, done, fails}
use micro_opcua.Base.Memory.{store}
use micro_opcua.Encoding.Le.{le_u32}
use micro_opcua.Core.MessageChunk.{uasc_symmetric_header_size}
use micro_opcua.Security.Policy.{none_uri}

-- MU_UASC_ASYMMETRIC_NONE_HEADER_SIZE
abbrev pub uasc_asymmetric_none_header_size : ℕ
uasc_asymmetric_none_header_size = 79

-- The four bytes and the five words.
unfoldable pub symmetric_header_bytes : ℕ → ℕ → ℕ → ℕ → ℕ → List ℕ
symmetric_header_bytes total channel token sequence_number request_id =
    b'M'
    ∷ b'S'
    ∷ b'G'
    ∷ b'F'
    ∷ (le_u32 total
        ++ (le_u32 channel ++ (le_u32 token ++ (le_u32 sequence_number ++ le_u32 request_id))))

-- The state is the buffer, which is never NULL; the result is `*out_total_length`.
unfoldable pub finalize_symmetric : ℕ → ℕ → ℕ → ℕ → ℕ → ℕ → Prog (List ℕ) ℕ
unfolding symmetric_header_bytes
finalize_symmetric buffer_size channel token sequence_number request_id body_length =
    let total = uasc_symmetric_header_size + body_length in
    if ltb buffer_size total then fails bad_responsetoolarge else do
      store 0 (symmetric_header_bytes total channel token sequence_number request_id)
      done total

-- The URI is that of SecurityPolicy None, of 47 bytes.
pub asymmetric_none_header_bytes : ℕ → ℕ → ℕ → ℕ → List ℕ
asymmetric_none_header_bytes total channel sequence_number request_id =
    b'O'
    ∷ b'P'
    ∷ b'N'
    ∷ b'F'
    ∷ (le_u32 total
        ++ (le_u32 channel
            ++ (le_u32 47
                ++ (none_uri
                    ++ (le_u32 0xFFFFFFFF
                        ++ (le_u32 0xFFFFFFFF ++ (le_u32 sequence_number ++ le_u32 request_id)))))))

pub finalize_asymmetric_none : ℕ → ℕ → ℕ → ℕ → ℕ → Prog (List ℕ) ℕ
unfolding asymmetric_none_header_bytes
finalize_asymmetric_none buffer_size channel sequence_number request_id body_length =
    let total = uasc_asymmetric_none_header_size + body_length in
    if ltb buffer_size total then fails bad_responsetoolarge else do
      store 0 (asymmetric_none_header_bytes total channel sequence_number request_id)
      done total
