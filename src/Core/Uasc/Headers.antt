-- ===== src/Core/Uasc/Headers.antt =====
-- The headers that uasc.c writes are read back by the parsers of message_chunk.c.
use micro_opcua.Base.{
  ℕ, ◌+◌, ◌^◌, ◌≤◌, ◌<◌, ◌≡◌, refl, some, List, [], ◌∷◌, ◌++◌, length, drop, le→ltb_false, arith,
}
use micro_opcua.Base.Outcome.{ok, Prog}
use micro_opcua.Base.Memory.{store-append}
use micro_opcua.Encoding.Le.{le_u32}
use micro_opcua.Core.MessageChunk.{
  MessageHeader, SequenceHeader, is_message_type, parse_message_header, parse_sequence_header,
}
use micro_opcua.Core.MessageChunk.RoundTrip.{
  IsFinal, parse-message_header_bytes, parse-sequence_header_bytes,
}
use micro_opcua.Security.Policy.{none_uri}
use micro_opcua.Core.Uasc.{
  symmetric_header_bytes, finalize_symmetric, asymmetric_none_header_bytes,
  finalize_asymmetric_none,
}

abbrev pub msg_header : ℕ → ℕ → MessageHeader
msg_header total channel = record {
  type0 = b'M';
  type1 = b'S';
  type2 = b'G';
  chunk_type = b'F';
  message_size = total;
  secure_channel_id = channel;
}

abbrev pub opn_header : ℕ → ℕ → MessageHeader
opn_header total channel = record {
  type0 = b'O';
  type1 = b'P';
  type2 = b'N';
  chunk_type = b'F';
  message_size = total;
  secure_channel_id = channel;
}

abbrev pub sequence_header : ℕ → ℕ → SequenceHeader
sequence_header sequence_number request_id = record {
  sequence_number = sequence_number;
  request_id = request_id;
}

module _ (total channel : ℕ) (fits : total < 2 ^ 32) (channel_fits : channel < 2 ^ 32)
    (room : 12 ≤ total) where
  msg_header-IsFinal : IsFinal total (msg_header total channel)
  unfolding is_message_type
  msg_header-IsFinal = record {
    known = refl;
    final = refl;
    min_size = room;
    max_size = omega arith;
    size_fits = fits;
    id_fits = channel_fits;
    connection = λ e. absurd (ground arith);
  }

  opn_header-IsFinal : IsFinal total (opn_header total channel)
  unfolding is_message_type
  opn_header-IsFinal = record {
    known = refl;
    final = refl;
    min_size = room;
    max_size = omega arith;
    size_fits = fits;
    id_fits = channel_fits;
    connection = λ e. absurd (ground arith);
  }

-- The chunk in front of a body: what was written, and what the parsers make of it. `offset` is where the
-- sequence header starts.
pub record IsChunk (write : Prog (List ℕ) ℕ) (m header : List ℕ) (total offset : ℕ)
    (h : MessageHeader) (s : SequenceHeader) : Type 0 where
  pub written : write m ≡ ok total (header ++ drop (length header) m)
  pub message_read : parse_message_header (some (header ++ drop (length header) m)) total ≡ ok h tt
  pub sequence_read :
      parse_sequence_header (some (header ++ drop (length header) m)) total offset
      ≡ ok s (offset + 8)

-- On a buffer of at least `n` bytes of which the body and the 24 bytes of the headers fit into `n`, with
-- words of 32 bits: the headers are written and the body is kept, and the parsers read a final MSG chunk
-- with its channel and its whole length, and the SequenceNumber and the RequestId behind the token.
pub finalize_symmetric-IsChunk :
    (m : List ℕ) (n channel token sequence_number request_id body_length : ℕ)
    → n ≤ length m
    → 24 + body_length ≤ n
    → 24 + body_length < 2 ^ 32
    → channel < 2 ^ 32
    → sequence_number < 2 ^ 32
    → request_id < 2 ^ 32
    → IsChunk
        (finalize_symmetric n channel token sequence_number request_id body_length)
        m
        (symmetric_header_bytes (24 + body_length) channel token sequence_number request_id)
        (24 + body_length)
        16
        (msg_header (24 + body_length) channel)
        (sequence_header sequence_number request_id)
unfolding finalize_symmetric symmetric_header_bytes
finalize_symmetric-IsChunk m n channel token sequence_number request_id body_length fits room small
      channel_fits sequence_fits request_fits =
    record {
      written = rw (
        le→ltb_false n (24 + body_length) room,
        store-append
            (symmetric_header_bytes (24 + body_length) channel token sequence_number request_id) []
            m 0 refl (omega arith),
      );
      message_read =
          parse-message_header_bytes (24 + body_length) (msg_header (24 + body_length) channel)
            (le_u32 token ++ (le_u32 sequence_number ++ (le_u32 request_id ++ drop 24 m)))
            (msg_header-IsFinal (24 + body_length) channel small channel_fits (omega arith));
      sequence_read =
          parse-sequence_header_bytes
            (b'M'
              ∷ b'S'
              ∷ b'G'
              ∷ b'F'
              ∷ (le_u32 (24 + body_length) ++ (le_u32 channel ++ le_u32 token)))
            (drop 24 m) (24 + body_length) (sequence_header sequence_number request_id)
            (omega arith) sequence_fits request_fits;
    }

-- On a buffer of at least `n` bytes of which the body and the 79 bytes of the headers fit into `n`, with
-- words of 32 bits: the headers of SecurityPolicy None are written and the body is kept, and the parsers
-- read a final OPN chunk with its channel and its whole length, and the SequenceNumber and the RequestId
-- behind the security header.
pub finalize_asymmetric_none-IsChunk :
    (m : List ℕ) (n channel sequence_number request_id body_length : ℕ)
    → n ≤ length m
    → 79 + body_length ≤ n
    → 79 + body_length < 2 ^ 32
    → channel < 2 ^ 32
    → sequence_number < 2 ^ 32
    → request_id < 2 ^ 32
    → IsChunk
        (finalize_asymmetric_none n channel sequence_number request_id body_length)
        m
        (asymmetric_none_header_bytes (79 + body_length) channel sequence_number request_id)
        (79 + body_length)
        71
        (opn_header (79 + body_length) channel)
        (sequence_header sequence_number request_id)
unfolding finalize_asymmetric_none asymmetric_none_header_bytes
finalize_asymmetric_none-IsChunk m n channel sequence_number request_id body_length fits room small
      channel_fits sequence_fits request_fits =
    record {
      written = rw (
        le→ltb_false n (79 + body_length) room,
        store-append
            (asymmetric_none_header_bytes (79 + body_length) channel sequence_number request_id) []
            m 0 refl (omega arith),
      );
      message_read =
          parse-message_header_bytes (79 + body_length) (opn_header (79 + body_length) channel) _
            (opn_header-IsFinal (79 + body_length) channel small channel_fits (omega arith));
      sequence_read =
          parse-sequence_header_bytes
            (b'O'
              ∷ b'P'
              ∷ b'N'
              ∷ b'F'
              ∷ (le_u32 (79 + body_length)
                  ++ (le_u32 channel
                      ++ (le_u32 47 ++ (none_uri ++ (le_u32 0xFFFFFFFF ++ le_u32 0xFFFFFFFF))))))
            (drop 79 m) (79 + body_length) (sequence_header sequence_number request_id)
            (omega arith) sequence_fits request_fits;
    }
