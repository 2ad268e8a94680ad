-- ===== src/Core/MessageChunk.antt =====
-- src/core/message_chunk.c: the headers of a message chunk.
pub mod Bounds
pub mod RoundTrip
use micro_opcua.Base.{
  ℕ, ◌+◌, ◌-◌, Bool, true, false, not, ◌&&◌, ◌||◌, Option, none, some, List, [], ◌∷◌, ◌++◌, leb,
  ltb, ◌==◌, if◌then◌else◌,
}
use micro_opcua.Base.Status.{
  good, bad_internalerror, bad_tcpinternalerror, bad_tcpmessagetypeinvalid, bad_tcpmessagetoolarge,
  bad_decodingerror, bad_encodingerror,
}
use micro_opcua.Base.Outcome.{Outcome, ok, err, fault, Prog, ◌>>=◌, ◌>>◌, done, fails, guard}
use micro_opcua.Base.Memory.{load, load_u32, store}
use micro_opcua.Encoding.Le.{le_u32}
use micro_opcua.Encoding.Reader.{Reader, reader_init, read_statuscode}

-- mu_message_header_t; the message type is its three bytes.
pub record MessageHeader : Type 0 where
  pub type0 : ℕ
  pub type1 : ℕ
  pub type2 : ℕ
  pub chunk_type : ℕ
  pub message_size : ℕ
  pub secure_channel_id : ℕ

-- mu_sequence_header_t
pub record SequenceHeader : Type 0 where
  pub sequence_number : ℕ
  pub request_id : ℕ

-- MU_UASC_SYMMETRIC_HEADER_SIZE
abbrev pub uasc_symmetric_header_size : ℕ
uasc_symmetric_header_size = 24

abbrev is_type : ℕ → ℕ → ℕ → ℕ → ℕ → ℕ → Bool
is_type a b c t0 t1 t2 = t0 == a && t1 == b && t2 == c

unfoldable pub is_message_type : ℕ → ℕ → ℕ → Bool
is_message_type t0 t1 t2 =
    is_type b'H' b'E' b'L' t0 t1 t2
    || is_type b'A' b'C' b'K' t0 t1 t2
    || is_type b'E' b'R' b'R' t0 t1 t2
    || is_type b'O' b'P' b'N' t0 t1 t2
    || is_type b'C' b'L' b'O' t0 t1 t2
    || is_type b'M' b'S' b'G' t0 t1 t2

abbrev pub is_chunk_type : ℕ → Bool
is_chunk_type c = c == b'C' || c == b'F' || c == b'A'

-- HEL, ACK and ERR carry no SecureChannelId.
abbrev pub is_connection_type : ℕ → Bool
is_connection_type t0 = t0 == b'H' || t0 == b'A' || t0 == b'E'

-- The status that the body of an abort chunk carries.
abort_outcome : Outcome Reader ℕ → Outcome (Unit {0}) MessageHeader
abort_outcome (ok abort_status r) =
    if abort_status == good then err bad_tcpinternalerror tt else err abort_status tt
abort_outcome (err e r) = err e tt
abort_outcome fault = fault

abort_chunk : List ℕ → ℕ → MessageHeader → Prog (Unit {0}) MessageHeader
unfolding abort_outcome
abort_chunk bytes length h =
    if h.type0 == b'O'
    then fails bad_tcpinternalerror
    else if ltb h.message_size (uasc_symmetric_header_size + 4)
    then fails bad_tcpinternalerror
    else λ s. abort_outcome (
        read_statuscode
          (record (reader_init (some bytes) length) { position = uasc_symmetric_header_size }))

-- What follows the message size: the SecureChannelId and the abort of a chunk.
parse_channel : List ℕ → ℕ → MessageHeader → Prog (Unit {0}) MessageHeader
unfolding abort_chunk
parse_channel bytes length h =
    if is_connection_type h.type0 then done (record h { secure_channel_id = 0 }) else do
      guard (leb 12 length) bad_tcpinternalerror
      guard (leb 12 h.message_size) bad_tcpinternalerror
      id ← load_u32 bytes 8
      let h' = record h { secure_channel_id = id }
      if h'.chunk_type == b'A' then abort_chunk bytes length h' else done h'

-- From the message size on.
parse_size : List ℕ → ℕ → MessageHeader → Prog (Unit {0}) MessageHeader
unfolding parse_channel
parse_size bytes length h = do
  guard (leb 8 h.message_size) bad_tcpinternalerror
  guard (leb h.message_size length) bad_tcpmessagetoolarge
  guard (not (h.chunk_type == b'C')) bad_tcpinternalerror
  parse_channel bytes length h

-- From the message type and the chunk type on.
parse_types : List ℕ → ℕ → ℕ → ℕ → ℕ → ℕ → Prog (Unit {0}) MessageHeader
unfolding parse_size
parse_types bytes length t0 t1 t2 c = do
  guard (is_message_type t0 t1 t2) bad_tcpmessagetypeinvalid
  guard (is_chunk_type c) bad_tcpmessagetypeinvalid
  size ← load_u32 bytes 4
  parse_size bytes length (record {
    type0 = t0;
    type1 = t1;
    type2 = t2;
    chunk_type = c;
    message_size = size;
    secure_channel_id = 0;
  })

parse_header_bytes : List ℕ → ℕ → Prog (Unit {0}) MessageHeader
unfolding parse_types
parse_header_bytes bytes length = do
  guard (leb 8 length) bad_tcpinternalerror
  t0 ← load bytes 0
  t1 ← load bytes 1
  t2 ← load bytes 2
  c ← load bytes 3
  parse_types bytes length t0 t1 t2 c

-- `none` for a NULL buffer; `header` is the result, and is never NULL.
pub parse_message_header : Option (List ℕ) → ℕ → Outcome (Unit {0}) MessageHeader
unfolding parse_header_bytes
parse_message_header none length = err bad_internalerror tt
parse_message_header (some bytes) length = parse_header_bytes bytes length tt

-- The twelve assignments.
abbrev pub message_header_bytes : MessageHeader → List ℕ
message_header_bytes h =
    h.type0
    ∷ h.type1
    ∷ h.type2
    ∷ h.chunk_type
    ∷ (le_u32 h.message_size ++ le_u32 h.secure_channel_id)

-- The state is the buffer, which is never NULL.
pub write_message_header : ℕ → MessageHeader → Prog (List ℕ) (Unit {0})
write_message_header length h = do
  guard (leb 12 length) bad_internalerror
  store 0 (message_header_bytes h)

-- *offset = n
abbrev move_to : ℕ → Prog ℕ (Unit {0})
move_to n offset = ok tt n

-- The state is `*offset`.
parse_sequence_bytes : List ℕ → ℕ → Prog ℕ SequenceHeader
parse_sequence_bytes bytes length offset =
    if ltb length offset
    then err bad_decodingerror offset
    else (do
      guard (not (ltb (length - offset) 4)) bad_decodingerror
      sequence_number ← load_u32 bytes offset
      guard (not (ltb (length - (offset + 4)) 4)) bad_decodingerror
      request_id ← load_u32 bytes (offset + 4)
      move_to (offset + 8)
      done (record { sequence_number = sequence_number; request_id = request_id }))
        offset

pub parse_sequence_header : Option (List ℕ) → ℕ → Prog ℕ SequenceHeader
unfolding parse_sequence_bytes
parse_sequence_header none length offset = err bad_internalerror offset
parse_sequence_header (some bytes) length offset = parse_sequence_bytes bytes length offset

-- The result is the offset after the header; the state is the buffer.
pub write_sequence_header : ℕ → ℕ → SequenceHeader → Prog (List ℕ) ℕ
write_sequence_header length offset h = if ltb length offset then fails bad_encodingerror else do
  guard (not (ltb (length - offset) 4)) bad_encodingerror
  store offset (le_u32 h.sequence_number)
  guard (not (ltb (length - (offset + 4)) 4)) bad_encodingerror
  store (offset + 4) (le_u32 h.request_id)
  done (offset + 8)
