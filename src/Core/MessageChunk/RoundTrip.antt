-- ===== src/Core/MessageChunk/RoundTrip.antt =====
-- The headers that message_chunk.c writes are read back by its parsers.
use micro_opcua.Base.{
  ℕ, ◌+◌, ◌-◌, ◌%◌, ◌^◌, ◌≤◌, ◌<◌, ◌≡◌, refl, inl, inr, true, some, List, [], ◌∷◌, ◌++◌,
  append_assoc, length, length-append, length-drop, drop-drop, drop, get_elem?, get_elem?-append,
  get_elem?-append_head, Bool-cases, arith, le→leb, le→ltb_false,
}
use micro_opcua.Base.Outcome.{ok}
use micro_opcua.Base.Memory.{load_u32, store-append}
use micro_opcua.Encoding.Le.{le_u32, le_u32_value}
use micro_opcua.Core.MessageChunk.{
  MessageHeader, SequenceHeader, is_message_type, is_connection_type, parse_channel, parse_size,
  parse_types, parse_header_bytes, parse_message_header, write_message_header, message_header_bytes,
  parse_sequence_bytes, parse_sequence_header, write_sequence_header,
}

-- The header of a final chunk that fits an input of `n` bytes.
pub record IsFinal (n : ℕ) (h : MessageHeader) : Type 0 where
  pub known : is_message_type h.type0 h.type1 h.type2 ≡ true
  pub final : h.chunk_type ≡ b'F'
  pub min_size : 12 ≤ h.message_size
  pub max_size : h.message_size ≤ n
  pub size_fits : h.message_size < 2 ^ 32
  pub id_fits : h.secure_channel_id < 2 ^ 32
  pub connection : is_connection_type h.type0 ≡ true → h.secure_channel_id ≡ 0

load_u32-le :
    {S : Type 0} (before rest : List ℕ) (i v : ℕ) (s : S)
    → i ≡ length before
    → v < 2 ^ 32
    → load_u32 (before ++ (le_u32 v ++ rest)) i s ≡ ok v s
load_u32-le before rest i v s e h = rw (e, first, at_byte 1, at_byte 2, at_byte 3, le_u32_value v h)
  where
    at_byte :
        (k : ℕ)
        → get_elem? (before ++ (le_u32 v ++ rest)) (length before + k)
          ≡ get_elem? (le_u32 v ++ rest) k
    at_byte k = get_elem?-append before (le_u32 v ++ rest) k

    first : get_elem? (before ++ (le_u32 v ++ rest)) (length before) ≡ some (v % 256)
    first = get_elem?-append_head before _ (v % 256)

written_types :
    (n t0 t1 t2 c : ℕ) (size id : ℕ) (rest : List ℕ)
    → is_message_type t0 t1 t2 ≡ true
    → c ≡ b'F'
    → 12 ≤ size
    → size ≤ n
    → size < 2 ^ 32
    → id < 2 ^ 32
    → (is_connection_type t0 ≡ true → id ≡ 0)
    → parse_types (t0 ∷ t1 ∷ t2 ∷ c ∷ (le_u32 size ++ (le_u32 id ++ rest))) n t0 t1 t2 c tt
      ≡ ok
          (record {
            type0 = t0;
            type1 = t1;
            type2 = t2;
            chunk_type = c;
            message_size = size;
            secure_channel_id = id;
          })
          tt
unfolding parse_types parse_size parse_channel
written_types n t0 t1 t2 c size id rest known final lo hi size_fits id_fits connection =
    rw (final, known, le_u32_value size size_fits, le→leb 8 size (omega arith), le→leb size n hi)
      (elim (Bool-cases (is_connection_type t0)) [
        | inl k ↦ rw (k, connection k)
        | inr k ↦ rw (k, le→leb 12 n (omega arith), le→leb 12 size lo, le_u32_value id id_fits)
      ])

pub parse-message_header_bytes :
    (n : ℕ) (h : MessageHeader) (rest : List ℕ)
    → IsFinal n h
    → parse_message_header (some (message_header_bytes h ++ rest)) n ≡ ok h tt
unfolding parse_message_header parse_header_bytes
parse-message_header_bytes n h rest f = rw (le→leb 8 n (omega (arith, f.min_size, f.max_size))) (
    rw (append_assoc (le_u32 h.message_size) (le_u32 h.secure_channel_id) rest) (
      written_types n h.type0 h.type1 h.type2 h.chunk_type h.message_size h.secure_channel_id rest
        f.known f.final f.min_size f.max_size f.size_fits f.id_fits f.connection))

-- On a buffer of at least `n` bytes, a header of a final chunk whose size lies between 12 and `n` (with
-- fields of 32 bits, and no SecureChannelId where the type carries none) is written into the first twelve
-- bytes, the rest of the buffer is left as it was, and the parser reads the same header back.
pub parse-write_message_header :
    (m : List ℕ) (n : ℕ) (h : MessageHeader)
    → n ≤ length m
    → IsFinal n h
    → (write_message_header n h m ≡ ok tt (message_header_bytes h ++ drop 12 m))
      × (parse_message_header (some (message_header_bytes h ++ drop 12 m)) n ≡ ok h tt)
unfolding write_message_header
parse-write_message_header m n h fits f = (
  rw (le→leb 12 n (omega (arith, f.min_size, f.max_size))) (
      store-append (message_header_bytes h) [] m 0 refl
        (omega (arith, f.min_size, f.max_size, fits))),
  parse-message_header_bytes n h (drop 12 m) f,
)

abbrev pub sequence_header_bytes : SequenceHeader → List ℕ
sequence_header_bytes h = le_u32 h.sequence_number ++ le_u32 h.request_id

pub parse-sequence_header_bytes :
    (before rest : List ℕ) (n : ℕ) (h : SequenceHeader)
    → length before + 8 ≤ n
    → h.sequence_number < 2 ^ 32
    → h.request_id < 2 ^ 32
    → parse_sequence_header (some (before ++ (sequence_header_bytes h ++ rest))) n (length before)
      ≡ ok h (length before + 8)
unfolding parse_sequence_header parse_sequence_bytes
parse-sequence_header_bytes before rest n h lo hs hr = rw (
  le→ltb_false n (length before) (omega arith),
  le→ltb_false (n - length before) 4 (omega arith),
  load_u32-le before (le_u32 h.request_id ++ rest) (length before) h.sequence_number (length before)
      refl hs,
  le→ltb_false (n - (length before + 4)) 4 (omega arith),
  at_second (length before),
)
  where
    at_second :
        {S : Type 0} (s : S)
        → load_u32
            (before ++ (le_u32 h.sequence_number ++ (le_u32 h.request_id ++ rest)))
            (length before + 4)
            s
          ≡ ok h.request_id s
    at_second s =
        rw (← append_assoc before (le_u32 h.sequence_number) (le_u32 h.request_id ++ rest)) (
          load_u32-le (before ++ le_u32 h.sequence_number) rest (length before + 4) h.request_id s
            (omega (arith, length-append before (le_u32 h.sequence_number))) hr)

-- A sequence header, of fields of 32 bits, written at an offset with eight bytes of the buffer ahead
-- changes those eight bytes only and returns the offset behind them, and the parser that starts at the
-- same offset reads the same header back and ends at the same offset.
pub parse-write_sequence_header :
    (before room : List ℕ) (n : ℕ) (h : SequenceHeader)
    → length before + 8 ≤ n
    → n ≤ length before + length room
    → h.sequence_number < 2 ^ 32
    → h.request_id < 2 ^ 32
    → (write_sequence_header n (length before) h (before ++ room)
        ≡ ok (length before + 8) (before ++ (sequence_header_bytes h ++ drop 8 room)))
      × (parse_sequence_header
            (some (before ++ (sequence_header_bytes h ++ drop 8 room)))
            n
            (length before)
          ≡ ok h (length before + 8))
unfolding write_sequence_header parse_sequence_header parse_sequence_bytes
parse-write_sequence_header before room n h lo hi hs hr =
    (written, parse-sequence_header_bytes before (drop 8 room) n h lo hs hr)
  where
    first : List ℕ
    first = le_u32 h.sequence_number

    second_offset : length before + 4 ≡ length (before ++ first)
    second_offset = omega (arith, length-append before first)

    written :
        write_sequence_header n (length before) h (before ++ room)
        ≡ ok (length before + 8) (before ++ (sequence_header_bytes h ++ drop 8 room))
    written = rw (
      le→ltb_false n (length before) (omega arith),
      le→ltb_false (n - length before) 4 (omega arith),
      store-append first before room (length before) refl (omega arith),
      le→ltb_false (n - (length before + 4)) 4 (omega arith),
      ← append_assoc before first (drop 4 room),
      store-append (le_u32 h.request_id) (before ++ first) (drop 4 room) (length before + 4)
          second_offset (omega (arith, length-drop 4 room)),
      drop-drop 4 4 room,
      append_assoc before first (le_u32 h.request_id ++ drop 8 room),
    )

-- The header of a final chunk of HEL, ACK or ERR, whatever follows the message size.
pub parse_message_header-connection :
    (n t0 t1 t2 size : ℕ) (rest : List ℕ)
    → is_message_type t0 t1 t2 ≡ true
    → is_connection_type t0 ≡ true
    → 8 ≤ size
    → size ≤ n
    → size < 2 ^ 32
    → parse_message_header (some (t0 ∷ t1 ∷ t2 ∷ b'F' ∷ (le_u32 size ++ rest))) n
      ≡ ok
          (record {
            type0 = t0;
            type1 = t1;
            type2 = t2;
            chunk_type = b'F';
            message_size = size;
            secure_channel_id = 0;
          })
          tt
unfolding parse_message_header parse_header_bytes parse_types parse_size parse_channel
parse_message_header-connection n t0 t1 t2 size rest known kind lo hi fits = rw (
  le→leb 8 n (omega arith),
  known,
  le_u32_value size fits,
  le→leb 8 size lo,
  le→leb size n hi,
  kind,
)
