-- ===== src/Core/MessageChunk/Bounds.antt =====
-- What a parsed message header guarantees, on any input.
use micro_opcua.Base.{
  ℕ, ◌+◌, ◌≤◌, ◌≡◌, ◌≢◌, refl, ◌⊎◌, inl, inr, Bool, true, false, not, some, List, leb, ltb, ◌==◌,
  if◌then◌else◌, length, Bool-cases, arith, leb→le,
}
use micro_opcua.Base.Status.{good}
use micro_opcua.Base.Outcome.{Outcome, ok, err, fault, Prog, ◌>>=◌, ◌>>◌, done, guard}
use micro_opcua.Base.Memory.{load_u32, load_ok, load_u32_ok}
use micro_opcua.Encoding.Reader.{Reader, reader_init}
use micro_opcua.Encoding.Reader.Safety.{SafeOutcome}
use micro_opcua.Encoding.Reader.Safety.Primitives.{read_statuscode-Safe}
use micro_opcua.Core.MessageChunk.{
  MessageHeader, is_message_type, is_chunk_type, is_connection_type, abort_outcome, abort_chunk,
  parse_channel, parse_size, parse_types, parse_message_header, uasc_symmetric_header_size,
}

-- A header that may be dispatched: a known type, a final chunk, and a size that fits the input and the
-- header itself. Only HEL, ACK and ERR may come as `A`, since for them the chunk type is not looked at.
pub record IsAccepted (length : ℕ) (h : MessageHeader) : Type 0 where
  pub known : is_message_type h.type0 h.type1 h.type2 ≡ true
  pub single : (h.chunk_type ≡ b'F') ⊎ ((h.chunk_type ≡ b'A') × (is_connection_type h.type0 ≡ true))
  pub min_size : 8 ≤ h.message_size
  pub max_size : h.message_size ≤ length
  pub channel : (is_connection_type h.type0 ≡ true) ⊎ (12 ≤ h.message_size)

abbrev pub ParseOutcome : ℕ → Outcome (Unit {0}) MessageHeader → Type 0
ParseOutcome length (ok h s) = IsAccepted length h
ParseOutcome length (err e s) = e ≢ good
ParseOutcome length fault = ⊥

guard-ParseOutcome :
    (n : ℕ) (b : Bool) (e : ℕ) (k : Prog (Unit {0}) MessageHeader)
    → e ≢ good
    → (b ≡ true → ParseOutcome n (k tt))
    → ParseOutcome n ((guard b e >> k) tt)
guard-ParseOutcome n true e k h f = f refl
guard-ParseOutcome n false e k h f = h

abort_outcome-ParseOutcome :
    (length : ℕ) (r : Reader) (o : Outcome Reader ℕ)
    → SafeOutcome r o
    → ParseOutcome length (abort_outcome o)
unfolding abort_outcome
abort_outcome-ParseOutcome length r (ok status s) h = elim (Bool-cases (status == good)) [
  | inl e ↦ rw e (omega arith)
  | inr e ↦ rw e (ground arith)
]
abort_outcome-ParseOutcome length r (err e s) h = h.1
abort_outcome-ParseOutcome length r fault h = h

abort_chunk-ParseOutcome :
    (bytes : List ℕ) (n : ℕ) (h : MessageHeader)
    → n ≤ length bytes
    → ParseOutcome n (abort_chunk bytes n h tt)
unfolding abort_chunk
abort_chunk-ParseOutcome bytes n h fits = elim (Bool-cases (h.type0 == b'O')) [
  | inl e ↦ rw e (omega arith)
  | inr e ↦ rw e (elim (Bool-cases (ltb h.message_size (uasc_symmetric_header_size + 4))) [
    | inl f ↦ rw f (omega arith)
    | inr f ↦ rw f (
        abort_outcome-ParseOutcome n _ _ (
          read_statuscode-Safe.run
            (record (reader_init (some bytes) n) { position = uasc_symmetric_header_size }) fits))
  ])
]

parse_channel-ParseOutcome :
    (bytes : List ℕ) (n : ℕ) (h : MessageHeader)
    → n ≤ length bytes
    → is_message_type h.type0 h.type1 h.type2 ≡ true
    → (h.chunk_type ≡ b'F') ⊎ (h.chunk_type ≡ b'A')
    → 8 ≤ h.message_size
    → h.message_size ≤ n
    → ParseOutcome n (parse_channel bytes n h tt)
unfolding parse_channel
parse_channel-ParseOutcome bytes n h fits known chunk lo hi =
    elim (Bool-cases (is_connection_type h.type0)) [
      | inl c ↦ rw c (connection c)
      | inr c ↦ rw c (
          guard-ParseOutcome n (leb 12 n) _ _ (omega arith) λ room.
            guard-ParseOutcome n (leb 12 h.message_size) _ _ (omega arith)
              λ size. secured (leb→le 12 n room) (leb→le 12 h.message_size size))
    ]
  where
    connection :
        is_connection_type h.type0 ≡ true → IsAccepted n (record h { secure_channel_id = 0 })
    connection c = record {
      known = known;
      single = ground (arith, c);
      min_size = lo;
      max_size = hi;
      channel = inl c;
    }

    secured :
        12 ≤ n
        → 12 ≤ h.message_size
        → ParseOutcome n (
            (do
              id ← load_u32 bytes 8
              let h' = record h { secure_channel_id = id }
              if h'.chunk_type == b'A' then abort_chunk bytes n h' else done h')
              tt)
    secured room size =
        let (id, e) = load_u32_ok {S = Unit {0}} bytes 8 (omega arith) in
        rw (e tt) (elim (Bool-cases (h.chunk_type == b'A')) [
          | inl a ↦
              rw a (abort_chunk-ParseOutcome bytes n (record h { secure_channel_id = id }) fits)
          | inr a ↦ rw a (record {
            known = known;
            single = ground (arith, chunk);
            min_size = lo;
            max_size = hi;
            channel = inr size;
          })
        ])

final_chunk : (c : ℕ) → is_chunk_type c ≡ true → not (c == b'C') ≡ true → (c ≡ b'F') ⊎ (c ≡ b'A')
final_chunk c h k = ground arith

parse_size-ParseOutcome :
    (bytes : List ℕ) (n : ℕ) (h : MessageHeader)
    → n ≤ length bytes
    → is_message_type h.type0 h.type1 h.type2 ≡ true
    → is_chunk_type h.chunk_type ≡ true
    → ParseOutcome n (parse_size bytes n h tt)
unfolding parse_size
parse_size-ParseOutcome bytes n h fits known chunk =
    guard-ParseOutcome n (leb 8 h.message_size) _ _ (omega arith) λ lo.
      guard-ParseOutcome n (leb h.message_size n) _ _ (omega arith) λ hi.
        guard-ParseOutcome n (not (h.chunk_type == b'C')) _ _ (omega arith) λ single.
          parse_channel-ParseOutcome bytes n h fits known (final_chunk h.chunk_type chunk single)
            (leb→le 8 h.message_size lo) (leb→le h.message_size n hi)

parse_types-ParseOutcome :
    (bytes : List ℕ) (n t0 t1 t2 c : ℕ)
    → n ≤ length bytes
    → 8 ≤ n
    → ParseOutcome n (parse_types bytes n t0 t1 t2 c tt)
unfolding parse_types
parse_types-ParseOutcome bytes n t0 t1 t2 c fits room =
    guard-ParseOutcome n (is_message_type t0 t1 t2) _ _ (omega arith) λ known.
      guard-ParseOutcome n (is_chunk_type c) _ _ (omega arith) λ chunk.
        let (size, e) = load_u32_ok {S = Unit {0}} bytes 4 (omega arith) in
        let h : MessageHeader = record {
          type0 = t0;
          type1 = t1;
          type2 = t2;
          chunk_type = c;
          message_size = size;
          secure_channel_id = 0;
        } in
        rw (e tt) (parse_size-ParseOutcome bytes n h fits known chunk)

-- On every buffer that holds `n` bytes the parser stays in bounds; a header that it accepts has a known
-- type, is no continuation chunk, has a size between its own and `n`, and is an abort chunk only if its
-- type is HEL, ACK or ERR; and a status that it returns in place of a header is never MU_STATUS_GOOD.
pub parse_message_header-ParseOutcome :
    (bytes : List ℕ) (n : ℕ)
    → n ≤ length bytes
    → ParseOutcome n (parse_message_header (some bytes) n)
unfolding parse_message_header
parse_message_header-ParseOutcome bytes n fits =
    guard-ParseOutcome n (leb 8 n) _ _ (omega arith) λ h.
      let room : 8 ≤ n = leb→le 8 n h in
      let (t0, e0) = load_ok {S = Unit {0}} bytes 0 (omega arith) in
      let (t1, e1) = load_ok {S = Unit {0}} bytes 1 (omega arith) in
      let (t2, e2) = load_ok {S = Unit {0}} bytes 2 (omega arith) in
      let (c, e3) = load_ok {S = Unit {0}} bytes 3 (omega arith) in
      rw (e0 tt, e1 tt, e2 tt, e3 tt) (parse_types-ParseOutcome bytes n t0 t1 t2 c fits room)
