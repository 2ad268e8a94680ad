-- ===== src/Encoding/NodeId/Safety.antt =====
-- Memory safety of the NodeId, ExpandedNodeId and QualifiedName decoders of binary_nodeid.c.
use micro_opcua.Base.{
  ℕ, ◌%◌, ◌<◌, ◌≡◌, inl, inr, Bool, true, false, Option, none, some, List, leb, ◌==◌, Option-cases,
  if◌then◌else◌, Bool-cases, arith,
}
use micro_opcua.Base.Outcome.{Prog, ◌>>=◌}
use micro_opcua.Encoding.Reader.{Reader, byte_at}
use micro_opcua.Encoding.Reader.Safety.{
  Safe, SafeOutcome, Spans, Spans-length-le, Stays-refl, >>=-Safe, done-Safe, fails-Safe,
  byte_at-Loads,
}
use micro_opcua.Encoding.Reader.Safety.Primitives.{
  read_byte-Safe, read_uint16-Safe, read_uint32-Safe,
}
use micro_opcua.Encoding.Text.Safety.{read_string-Safe}
use micro_opcua.Encoding.NodeId.{
  read_two_byte, read_four_byte, read_numeric, read_string_nodeid, read_nodeid_format, read_nodeid,
  read_if, read_expanded_fields, read_expanded_nodeid, read_qualified_name, bit,
}

pub if-Safe :
    {A : Type 0} (b : Bool) (m k : Prog Reader A) → Safe m → Safe k → Safe (if b then m else k)
if-Safe true m k h h' = h
if-Safe false m k h h' = h'

read_two_byte-Safe : Safe read_two_byte
unfolding read_two_byte
read_two_byte-Safe = >>=-Safe _ _ read_byte-Safe λ id. done-Safe _

read_four_byte-Safe : Safe read_four_byte
unfolding read_four_byte
read_four_byte-Safe =
    >>=-Safe _ _ read_byte-Safe λ ns. >>=-Safe _ _ read_uint16-Safe λ id. done-Safe _

read_numeric-Safe : Safe read_numeric
unfolding read_numeric
read_numeric-Safe =
    >>=-Safe _ _ read_uint16-Safe λ ns. >>=-Safe _ _ read_uint32-Safe λ id. done-Safe _

read_string_nodeid-Safe : Safe read_string_nodeid
unfolding read_string_nodeid
read_string_nodeid-Safe =
    >>=-Safe _ _ read_uint16-Safe λ ns. >>=-Safe _ _ read_string-Safe λ s. done-Safe _

read_nodeid_format-Safe : (format : ℕ) → Safe (read_nodeid_format format)
unfolding read_nodeid_format
read_nodeid_format-Safe format = if-Safe (format == 0) _ _ read_two_byte-Safe (
    if-Safe (format == 1) _ _ read_four_byte-Safe (
      if-Safe (format == 2) _ _ read_numeric-Safe
        (if-Safe (format == 3) _ _ read_string_nodeid-Safe (fails-Safe _ (omega arith)))))

pub read_nodeid-Safe : Safe read_nodeid
unfolding read_nodeid
read_nodeid-Safe = >>=-Safe _ _ read_byte-Safe λ mask. read_nodeid_format-Safe (mask % 16)

pub read_if-Safe :
    {A : Type 0} (b : Bool) (m : Prog Reader A) (a : A) → Safe m → Safe (read_if b m a)
read_if-Safe true m a h = h
read_if-Safe false m a h = done-Safe a

expanded_fields-Safe : (mask : ℕ) → Safe (read_expanded_fields mask)
unfolding read_expanded_fields
expanded_fields-Safe mask = >>=-Safe _ _ read_nodeid-Safe λ id.
    >>=-Safe _ _ (read_if-Safe (bit 7 mask) _ _ read_string-Safe)
      λ uri. >>=-Safe _ _ (read_if-Safe (bit 6 mask) _ _ read_uint32-Safe) λ server. done-Safe _

Spans-none : (b : Option (List ℕ)) (n : ℕ) → b ≡ none → Spans b n → n ≡ 0
Spans-none none n e h = h
Spans-none (some bytes) n e h = cc

expanded-SafeOutcome :
    (r : Reader)
    → Spans r.buffer r.length
    → r.position < r.length
    → SafeOutcome r ((byte_at 0 >>= read_expanded_fields) r)
expanded-SafeOutcome r b h = elim (Option-cases r.buffer) [
  | inl e ↦ absurd (omega (arith, Spans-none r.buffer r.length e b))
  | inr (bytes, e) ↦
      let (mask, em) =
        byte_at-Loads 1 0 (omega arith) r bytes e
          (omega (arith, Spans-length-le r.buffer r.length bytes e b)) in
      rw em ((expanded_fields-Safe mask).run r b)
]

-- On every buffer that holds as many bytes as the reader is told, whatever they are,
-- mu_binary_read_expanded_nodeid reads no byte out of bounds, keeps the buffer and its length, moves the
-- position forward and within the length only, and every status that it fails with is different from
-- MU_STATUS_GOOD.
pub read_expanded_nodeid-Safe : Safe read_expanded_nodeid
unfolding read_expanded_nodeid
read_expanded_nodeid-Safe = record {
  run = λ r b. elim (Bool-cases (leb r.length r.position)) [
    | inl h ↦ rw h (Stays-refl r, omega arith)
    | inr h ↦ rw h (expanded-SafeOutcome r b (ground arith))
  ];
}

pub read_qualified_name-Safe : Safe read_qualified_name
unfolding read_qualified_name
read_qualified_name-Safe =
    >>=-Safe _ _ read_uint16-Safe λ ns. >>=-Safe _ _ read_string-Safe λ s. done-Safe _
