-- ===== src/Encoding/ExtensionObject/RoundTrip.antt =====
-- What binary_extension_object.c writes as the header of an ExtensionObject, that it reads it back, and
-- that a decoder skips a whole object.
use micro_opcua.Base.{
  ℕ, ◌^◌, ◌<◌, ◌≡◌, refl, inl, inr, List, [], ◌∷◌, ◌++◌, ◌==◌, length, length-append, if◌then◌else◌,
  Bool-cases, arith, some,
}
use micro_opcua.Base.Int.{pos, unsigned}
use micro_opcua.Base.Outcome.{◌>>=◌}
use micro_opcua.Encoding.Le.{le_u32}
use micro_opcua.Encoding.Reader.{advance, read_int32, read_byte}
use micro_opcua.Encoding.Reader.Decodes.{
  reader_at-append, Decodes, >>=-Decodes, >>=-done-Decodes, done-Decodes, read_byte-Decodes,
  read_int32-Decodes,
}
use micro_opcua.Encoding.Writer.Emits.{Emits, Sticky, >>-Emits, >>-Sticky, if-Emits}
use micro_opcua.Encoding.Writer.Primitives.{write_byte-Emits, write_int32-Emits}
use micro_opcua.Encoding.NodeId.{NodeId}
use micro_opcua.Encoding.NodeId.RoundTrip.{
  IsNodeId, nodeid_bytes, read_nodeid-Decodes, write_nodeid-Emits, write_nodeid-Sticky,
}
use micro_opcua.Encoding.ExtensionObject.{
  body_length_of, read_body_length, read_body_header, read_extension_object_header,
  write_extension_object_header, skip_body, skip_extension_object,
}

-- No body, or a ByteString body of `n` bytes that follow.
abbrev body_header_bytes : ℕ → List ℕ
body_header_bytes n = if n == 0 then 0 ∷ [] else 1 ∷ le_u32 (unsigned (2 ^ 31) (pos n))

abbrev pub extension_object_header_bytes : NodeId → ℕ → List ℕ
extension_object_header_bytes id n = nodeid_bytes id ++ body_header_bytes n

pub write_extension_object_header-Emits :
    (id : NodeId) (n : ℕ)
    → IsNodeId id
    → Emits (write_extension_object_header (some id) n) (extension_object_header_bytes id n)
unfolding write_extension_object_header
write_extension_object_header-Emits id n h =
    >>-Emits _ _ (nodeid_bytes id) (body_header_bytes n) (write_nodeid-Emits id h) (
      if-Emits (n == 0) _ _ (0 ∷ []) (1 ∷ le_u32 (unsigned (2 ^ 31) (pos n))) (write_byte-Emits 0) (
        >>-Emits _ _ (1 ∷ []) (le_u32 (unsigned (2 ^ 31) (pos n))) (write_byte-Emits 1)
          (write_int32-Emits (pos n))))

pub write_extension_object_header-Sticky :
    (id : NodeId) (n : ℕ) → IsNodeId id → Sticky (write_extension_object_header (some id) n)
unfolding write_extension_object_header
write_extension_object_header-Sticky id n h = >>-Sticky _ _ (write_nodeid-Sticky id h)

int_body-Decodes :
    (n : ℕ)
    → n < 2 ^ 31
    → Decodes (read_int32 >>= body_length_of) (le_u32 (unsigned (2 ^ 31) (pos n))) n
unfolding body_length_of
int_body-Decodes n h = rw (← append_nil_u32) (
    >>=-Decodes _ _ (le_u32 (unsigned (2 ^ 31) (pos n))) [] (pos n) n (read_int32-Decodes (pos n) h)
      (done-Decodes n))
  where
    append_nil_u32 : le_u32 (unsigned (2 ^ 31) (pos n)) ++ [] ≡ le_u32 (unsigned (2 ^ 31) (pos n))
    append_nil_u32 = refl

read_body_header-Decodes : (n : ℕ) → n < 2 ^ 31 → Decodes read_body_header (body_header_bytes n) n
unfolding read_body_header read_body_length
read_body_header-Decodes n h = elim (Bool-cases (n == 0)) [
  | inl e ↦ rw e (no_body (ground arith))
  | inr e ↦ rw e (
      >>=-Decodes _ _ (1 ∷ []) (le_u32 (unsigned (2 ^ 31) (pos n))) 1 n (read_byte-Decodes 1)
        (int_body-Decodes n h))
]
  where
    no_body : n ≡ 0 → Decodes (read_byte >>= read_body_length) (0 ∷ []) n
    no_body e = rw e (>>=-Decodes _ _ (0 ∷ []) [] 0 0 (read_byte-Decodes 0) (done-Decodes 0))

pub read_extension_object_header-Decodes :
    (id : NodeId) (n : ℕ)
    → IsNodeId id
    → n < 2 ^ 31
    → Decodes read_extension_object_header (extension_object_header_bytes id n) (id, n)
unfolding read_extension_object_header
read_extension_object_header-Decodes id n hi hn =
    >>=-Decodes _ _ (nodeid_bytes id) (body_header_bytes n) id (id, n) (read_nodeid-Decodes id hi)
      (>>=-done-Decodes _ (λ n. (id, n)) (body_header_bytes n) n (read_body_header-Decodes n hn))

skip_body-Decodes : (body : List ℕ) → Decodes (skip_body (length body)) body tt
unfolding skip_body advance
skip_body-Decodes body = record {
  run = λ before rest. ground (
    arith,
    reader_at-append before body rest,
    length-append before (body ++ rest),
    length-append body rest,
  );
}

-- An ExtensionObject with a type id in range and any body of fewer than 2 ^ 31 bytes is skipped: the reader
-- ends just behind it, wherever it stands in the buffer.
pub skip_extension_object-Decodes :
    (id : NodeId) (body : List ℕ)
    → IsNodeId id
    → length body < 2 ^ 31
    → Decodes skip_extension_object (extension_object_header_bytes id (length body) ++ body) tt
unfolding skip_extension_object
skip_extension_object-Decodes id body hi hn =
    >>=-Decodes _ _ (extension_object_header_bytes id (length body)) body (id, length body) tt
      (read_extension_object_header-Decodes id (length body) hi hn) (skip_body-Decodes body)
