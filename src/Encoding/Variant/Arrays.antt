-- ===== src/Encoding/Variant/Arrays.antt =====
-- Array Variants of binary_variant.c: what is written, and that the decoder refuses it.
use micro_opcua.Base.{
  ℕ, ◌+◌, ◌%◌, ◌^◌, ◌≡◌, ◌≢◌, true, false, ◌||◌, some, List, [], ◌∷◌, ◌++◌, ◌==◌, arith, length,
}
use micro_opcua.Base.Int.{pos, unsigned}
use micro_opcua.Base.Status.{bad_decodingerror}
use micro_opcua.Base.Outcome.{err}
use micro_opcua.Encoding.Le.{le_u32}
use micro_opcua.Encoding.Reader.Decodes.{reader_at, read_byte-Decodes}
use micro_opcua.Encoding.Writer.Emits.{Emits, Sticky, >>-Emits, >>-Sticky, done-Emits}
use micro_opcua.Encoding.Writer.Primitives.{write_byte-Emits, write_byte-Sticky, write_int32-Emits}
use micro_opcua.Encoding.NodeId.{bit}
use micro_opcua.Encoding.Variant.{
  Builtin, code, Scalar, type_of, Variant, scalar, array, has_stride, write_elements, write_variant,
  read_variant,
}
use micro_opcua.Encoding.Variant.RoundTrip.{IsScalar, scalar_bytes, write_scalar_value-Emits}

-- Elements of one type, each with an encoding.
abbrev pub AreElements : Builtin → List Scalar → Type 0
AreElements type [] = Unit
AreElements type (e ∷ elements) =
    (code (type_of e) ≡ code type) × IsScalar e × AreElements type elements

abbrev pub elements_bytes : List Scalar → List ℕ
elements_bytes [] = []
elements_bytes (e ∷ elements) = scalar_bytes e ++ elements_bytes elements

-- OPC 10000-6 5.2.2.16: the type with the array bit, the number of elements, and the elements.
abbrev pub array_bytes : Builtin → List Scalar → List ℕ
array_bytes type elements =
    (code type % 128 + 128)
    ∷ (le_u32 (unsigned (2 ^ 31) (pos (length elements))) ++ elements_bytes elements)

write_elements-Emits :
    (type : Builtin) (elements : List Scalar)
    → AreElements type elements
    → code type ≢ 0
    → Emits (write_elements type (length elements) elements) (elements_bytes elements)
unfolding write_elements
write_elements-Emits type [] h z = done-Emits
write_elements-Emits type (e ∷ elements) (same, fits, rest) z = rw (tested) (
    >>-Emits _ _ (scalar_bytes e) (elements_bytes elements)
      (write_scalar_value-Emits e fits (λ c. z (omega arith)))
      (write_elements-Emits type elements rest z))
  where
    tested : (code (type_of e) == code type) ≡ true
    tested = ground arith

-- An array Variant whose elements all have the element type and are in its range is written as the type
-- with the array bit, the number of elements, and the elements in order, where that fits; where it does
-- not fit, the status is Bad_EncodingError and what was written before is left as it was.
pub write_array-Emits :
    (type : Builtin) (elements : List Scalar)
    → AreElements type elements
    → has_stride type ≡ true
    → code type ≢ 0
    → Emits
        (write_variant (some (array type (pos (length elements)) (some elements))))
        (array_bytes type elements)
unfolding write_variant
write_array-Emits type elements h s z =
    >>-Emits _ _ ((code type % 128 + 128) ∷ [])
      (le_u32 (unsigned (2 ^ 31) (pos (length elements))) ++ elements_bytes elements)
      (write_byte-Emits _)
      (rw (coded, s)
        (>>-Emits _ _ (le_u32 (unsigned (2 ^ 31) (pos (length elements)))) (elements_bytes elements)
          (write_int32-Emits (pos (length elements))) (write_elements-Emits type elements h z)))
  where
    coded : (code type == 0) ≡ false
    coded = ground arith

pub write_variant-Sticky : (v : Variant) → Sticky (write_variant (some v))
unfolding write_variant
write_variant-Sticky (scalar v) = >>-Sticky _ _ (write_byte-Sticky _)
write_variant-Sticky (array type n elements) = >>-Sticky _ _ (write_byte-Sticky _)

-- A Variant whose mask has the array bit or the dimensions bit is refused with Bad_DecodingError right
-- behind the mask, and the status of the reader stays good.
pub read_variant_refuses_arrays :
    (mask : ℕ) (before rest : List ℕ)
    → (bit 7 mask || bit 6 mask) ≡ true
    → read_variant (reader_at before (mask ∷ rest))
      ≡ err bad_decodingerror (reader_at (before ++ mask ∷ []) rest)
unfolding read_variant
read_variant_refuses_arrays mask before rest h = rw ((read_byte-Decodes mask).run before rest, h)
