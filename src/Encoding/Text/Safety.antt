-- ===== src/Encoding/Text/Safety.antt =====
-- Memory safety of the String and ByteString decoders of binary_string.c.
use micro_opcua.Base.{ℕ, ◌+◌, ◌≤◌, inl, inr, ltb, Bool-cases, arith}
use micro_opcua.Base.Int.{ℤ, pos, negsuc, minus_one, eq_ℤ}
use micro_opcua.Base.Outcome.{◌>>◌}
use micro_opcua.Encoding.Reader.{Reader, advance}
use micro_opcua.Encoding.Reader.Safety.{
  Spans, Spans-length-le, SafeOutcome, Safe, SafeLoaded, IsLoaded, bytes_at-Loads, Safe-SafeLoaded,
  done-Safe, fails-Safe,
}
use micro_opcua.Encoding.Reader.Safety.Primitives.{read_int32->>=-Safe}
use micro_opcua.Encoding.Text.{
  null_str, max_encoded_string_length, ensure_string_payload, read_payload, read_str_of_length,
  read_string, read_bytestring,
}

read_payload-SafeOutcome :
    (n : ℕ) (r : Reader)
    → Spans r.buffer r.length
    → IsLoaded r
    → r.position + n ≤ r.length
    → SafeOutcome r (read_payload n r)
unfolding read_payload advance
read_payload-SafeOutcome n r b (bytes, e, l) h =
    let (s, es) =
      bytes_at-Loads n r bytes e (omega (arith, Spans-length-le r.buffer r.length bytes e b)) in
    rw es (ground arith)

payload-SafeLoaded : (n : ℕ) → SafeLoaded (ensure_string_payload (pos n) >> read_payload n)
unfolding ensure_string_payload
payload-SafeLoaded n = record {
  run = λ r b l. ground (arith, read_payload-SafeOutcome n r b l, l.2);
}

str_of_length-SafeLoaded : (n : ℤ) → SafeLoaded (read_str_of_length n)
unfolding read_str_of_length
str_of_length-SafeLoaded (negsuc k) = elim (Bool-cases (eq_ℤ (negsuc k) minus_one)) [
  | inl h ↦ rw h (Safe-SafeLoaded _ (done-Safe null_str))
  | inr h ↦ rw h (Safe-SafeLoaded _ (fails-Safe _ (omega arith)))
]
str_of_length-SafeLoaded (pos n) = elim (Bool-cases (ltb max_encoded_string_length n)) [
  | inl h ↦ rw h (Safe-SafeLoaded _ (fails-Safe _ (omega arith)))
  | inr h ↦ rw h (payload-SafeLoaded n)
]

pub read_string-Safe : Safe read_string
unfolding read_string
read_string-Safe = read_int32->>=-Safe _ str_of_length-SafeLoaded

pub read_bytestring-Safe : Safe read_bytestring
unfolding read_bytestring
read_bytestring-Safe = read_string-Safe
