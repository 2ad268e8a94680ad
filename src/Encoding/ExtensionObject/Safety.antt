-- ===== src/Encoding/ExtensionObject/Safety.antt =====
-- Memory safety of the ExtensionObject decoders of binary_extension_object.c.
use micro_opcua.Base.{
  ℕ, ◌+◌, ◌≤◌, ◌≡◌, refl, inl, inr, ◌||◌, Option, none, some, List, ◌==◌, drop, length-drop,
  Bool-cases, arith,
}
use micro_opcua.Base.Int.{ℤ, pos, negsuc}
use micro_opcua.Base.Status.{good}
use micro_opcua.Base.Outcome.{Prog, Outcome, ok, err, fault}
use micro_opcua.Encoding.Reader.{Reader, reader_init, advance}
use micro_opcua.Encoding.Reader.Safety.{
  Safe, SafeOutcome, Spans, Spans-length-le, Stays-refl, >>=-Safe, done-Safe, fails-Safe,
  Safe-SafeLoaded,
}
use micro_opcua.Encoding.Reader.Safety.Primitives.{read_byte-Safe, read_int32->>=-Safe}
use micro_opcua.Encoding.NodeId.Safety.{read_nodeid-Safe, if-Safe}
use micro_opcua.Encoding.ExtensionObject.{
  body_length_of, read_body_length, read_body_header, read_extension_object_header, beyond,
  skip_body, skip_extension_object, finish_body, decode_body, read_extension_object_body,
}

body_length_of-Safe : (n : ℤ) → Safe (body_length_of n)
unfolding body_length_of
body_length_of-Safe (pos n) = done-Safe n
body_length_of-Safe (negsuc k) = fails-Safe _ (omega arith)

read_body_length-Safe : (mask : ℕ) → Safe (read_body_length mask)
unfolding read_body_length
read_body_length-Safe mask = if-Safe (mask == 0) _ _ (done-Safe 0) (
    if-Safe (mask == 1 || mask == 2) _ _
      (read_int32->>=-Safe body_length_of (λ n. Safe-SafeLoaded _ (body_length_of-Safe n)))
      (fails-Safe _ (omega arith)))

read_body_header-Safe : Safe read_body_header
unfolding read_body_header
read_body_header-Safe = >>=-Safe _ _ read_byte-Safe read_body_length-Safe

pub read_extension_object_header-Safe : Safe read_extension_object_header
unfolding read_extension_object_header
read_extension_object_header-Safe =
    >>=-Safe _ _ read_nodeid-Safe λ id. >>=-Safe _ _ read_body_header-Safe λ n. done-Safe _

skip_body-Safe : (n : ℕ) → Safe (skip_body n)
unfolding skip_body advance
skip_body-Safe n = record {
  run = λ r b. elim (Bool-cases (beyond r n)) [
    | inl h ↦ rw h (ground arith, ground arith)
    | inr h ↦ rw h (ground arith)
  ];
}

-- On every buffer that holds as many bytes as the reader is told, whatever they are,
-- mu_binary_skip_extension_object reads no byte out of bounds, keeps the buffer and its length, moves the
-- position forward and within the length only, and every status that it fails with is different from
-- MU_STATUS_GOOD.
pub skip_extension_object-Safe : Safe skip_extension_object
unfolding skip_extension_object
skip_extension_object-Safe = >>=-Safe _ _ read_extension_object_header-Safe λ h. skip_body-Safe h.1

finish_body-SafeOutcome :
    {A : Type 0} (n : ℕ) (r : Reader) (bytes : List ℕ) (o : Outcome Reader A)
    → r.position + n ≤ r.length
    → SafeOutcome (reader_init (some bytes) n) o
    → SafeOutcome r (finish_body n r o)
unfolding finish_body
finish_body-SafeOutcome n r bytes (ok a s) h k = elim (Bool-cases (s.status == good)) [
  | inl g ↦ rw g (elim (Bool-cases (s.position == n)) [
    | inl e ↦ rw e (ground arith)
    | inr e ↦ rw e (ground arith, ground arith)
  ])
  | inr g ↦ rw g (ground arith, ground arith)
]
finish_body-SafeOutcome n r bytes (err e s) h k = (ground arith, k.1)
finish_body-SafeOutcome n r bytes fault h k = k

decode_body-SafeOutcome :
    {A : Type 0} (n : ℕ) (decoder : Prog Reader A) (r : Reader) (b : Option (List ℕ))
    → r.buffer ≡ b
    → Spans r.buffer r.length
    → Safe decoder
    → SafeOutcome r (decode_body n decoder b r)
unfolding decode_body
decode_body-SafeOutcome n decoder r none e s d = (Stays-refl r, omega arith)
decode_body-SafeOutcome n decoder r (some bytes) e s d = elim (Bool-cases (beyond r n)) [
  | inl h ↦ rw h (ground arith, ground arith)
  | inr h ↦ rw h (
      finish_body-SafeOutcome n r (drop r.position bytes) _ (ground arith) (
        d.run (reader_init (some (drop r.position bytes)) n) (
          ground
            (arith, length-drop r.position bytes, Spans-length-le r.buffer r.length bytes e s))))
]

-- If the decoder that is passed in stays in bounds, keeps its buffer and never fails with MU_STATUS_GOOD,
-- then so does mu_binary_read_extension_object_body around it, for every length that it is told.
pub read_extension_object_body-Safe :
    {A : Type 0} (n : ℕ) (decoder : Prog Reader A)
    → Safe decoder
    → Safe (read_extension_object_body n decoder)
unfolding read_extension_object_body
read_extension_object_body-Safe n decoder d = record {
  run = λ r b. elim (Bool-cases (r.status == good)) [
    | inl h ↦ rw h (decode_body-SafeOutcome n decoder r r.buffer refl b d)
    | inr h ↦ rw h (Stays-refl r, ground arith)
  ];
}
