-- ===== src/Encoding/DataValue/RoundTrip.antt =====
-- What binary_datavalue.c writes for a DataValue, and that it reads it back.
use micro_opcua.Base.{
  ℕ, ◌+◌, ◌^◌, ◌<◌, ◌≡◌, Bool, false, Option, none, some, List, [], ◌∷◌, ◌++◌, arith,
}
use micro_opcua.Base.Int.{ℤ, InRange, unsigned}
use micro_opcua.Base.Outcome.{Prog}
use micro_opcua.Encoding.Le.{le_u32, le_u64}
use micro_opcua.Encoding.Reader.{Reader, read_int64, read_statuscode}
use micro_opcua.Encoding.Reader.Decodes.{
  Decodes, >>=-Decodes, >>=-done-Decodes, done-Decodes, read_byte-Decodes, read_int64-Decodes,
  read_statuscode-Decodes,
}
use micro_opcua.Encoding.Writer.{Writer}
use micro_opcua.Encoding.Writer.Emits.{Emits, Sticky, >>-Emits, >>-Sticky, done-Emits}
use micro_opcua.Encoding.Writer.Primitives.{
  write_byte-Emits, write_byte-Sticky, write_int64-Emits, write_statuscode-Emits,
}
use micro_opcua.Encoding.NodeId.{bit}
use micro_opcua.Encoding.Variant.{Scalar, Variant, scalar, read_variant, write_variant}
use micro_opcua.Encoding.Variant.RoundTrip.{
  IsScalar, variant_bytes, read_variant-Decodes, write_variant-Emits,
}
use micro_opcua.Encoding.DataValue.{
  DataValue, read_option, read_fields, read_datavalue, has, flag, datavalue_mask, write_option,
  write_datavalue,
}

-- A field that is missing, or that has an encoding.
pub data IsOption {A : Type 0} (P : A → Type 0) : Option A → Type 0 where
  absent : IsOption P none
  present : (a : A) → P a → IsOption P (some a)

pub data IsVariant : Variant → Type 0 where
  is_scalar : (v : Scalar) → IsScalar v → IsVariant (scalar v)

abbrev pub IsStatus : ℕ → Type 0
IsStatus v = v < 2 ^ 32

abbrev pub IsDateTime : ℤ → Type 0
IsDateTime z = InRange (2 ^ 63) z

pub record IsDataValue (v : DataValue) : Type 0 where
  pub value_fits : IsOption IsVariant v.value
  pub status_fits : IsOption IsStatus v.status
  pub source_fits : IsOption IsDateTime v.source_timestamp
  pub server_fits : IsOption IsDateTime v.server_timestamp

abbrev scalar_of : Variant → List ℕ
scalar_of (scalar v) = variant_bytes v
scalar_of _ = []

abbrev option_bytes : {A : Type 0} → (A → List ℕ) → Option A → List ℕ
option_bytes f none = []
option_bytes f (some a) = f a

abbrev timestamp_bytes : ℤ → List ℕ
timestamp_bytes z = le_u64 (unsigned (2 ^ 63) z)

abbrev fields_bytes : DataValue → List ℕ
fields_bytes v =
    option_bytes scalar_of v.value
    ++ (option_bytes le_u32 v.status
        ++ (option_bytes timestamp_bytes v.source_timestamp
            ++ option_bytes timestamp_bytes v.server_timestamp))

-- OPC 10000-6 5.2.2.17: the mask, and the fields that are there.
abbrev pub datavalue_bytes : DataValue → List ℕ
datavalue_bytes v = datavalue_mask v ∷ fields_bytes v

module _ {A : Type 0} {P : A → Type 0} (f : A → List ℕ) where
  read_option-Decodes :
      (m : Prog Reader A)
      → ((a : A) → P a → Decodes m (f a) a)
      → (o : Option A) → IsOption P o
      → Decodes (read_option (has o) m) (option_bytes f o) o
  unfolding read_option
  read_option-Decodes m h o absent = done-Decodes none
  read_option-Decodes m h o (present a p) = >>=-done-Decodes m some (f a) a (h a p)

  write_option-Emits :
      (m : A → Prog Writer (Unit {0}))
      → ((a : A) → P a → Emits (m a) (f a))
      → (o : Option A) → IsOption P o
      → Emits (write_option m o) (option_bytes f o)
  unfolding write_option
  write_option-Emits m h o absent = done-Emits
  write_option-Emits m h o (present a p) = h a p

abbrev mask_of : Bool → Bool → Bool → Bool → ℕ
mask_of a b c d = flag a 1 + flag b 2 + flag c 4 + flag d 8

-- The mask of four flags gives each back, and has no other bit.
mask_of_bits :
    (a b c d : Bool)
    → (bit 0 (mask_of a b c d) ≡ a)
      × (bit 1 (mask_of a b c d) ≡ b)
      × (bit 2 (mask_of a b c d) ≡ c)
      × (bit 4 (mask_of a b c d) ≡ false)
      × (bit 3 (mask_of a b c d) ≡ d)
      × (bit 5 (mask_of a b c d) ≡ false)
mask_of_bits a b c d = ground arith

variant-Decodes : (v : Variant) → IsVariant v → Decodes read_variant (scalar_of v) v
variant-Decodes v (is_scalar x h) = read_variant-Decodes x h

variant-Emits : (v : Variant) → IsVariant v → Emits (write_variant (some v)) (scalar_of v)
variant-Emits v (is_scalar x h) = write_variant-Emits x h

read_fields-Decodes :
    (v : DataValue) → IsDataValue v → Decodes (read_fields (datavalue_mask v)) (fields_bytes v) v
unfolding read_fields
read_fields-Decodes v h =
    let (e0, e1, e2, e4, e3, e5) =
      mask_of_bits (has v.value) (has v.status) (has v.source_timestamp) (has v.server_timestamp) in
    rw (e0, e1, e2, e4, e3, e5)
      (>>=-Decodes _ _ (option_bytes scalar_of v.value) _ v.value v
        (read_option-Decodes scalar_of read_variant variant-Decodes v.value h.value_fits)
        (>>=-Decodes _ _ (option_bytes le_u32 v.status) _ v.status v
          (read_option-Decodes le_u32 read_statuscode read_statuscode-Decodes v.status
            h.status_fits)
          (>>=-Decodes _ _ (option_bytes timestamp_bytes v.source_timestamp) _ v.source_timestamp v
            (read_option-Decodes timestamp_bytes read_int64 read_int64-Decodes v.source_timestamp
              h.source_fits)
            (>>=-done-Decodes _ (λ z. record v { server_timestamp = z })
              (option_bytes timestamp_bytes v.server_timestamp) v.server_timestamp
              (read_option-Decodes timestamp_bytes read_int64 read_int64-Decodes v.server_timestamp
                h.server_fits)))))

pub read_datavalue-Decodes :
    (v : DataValue) → IsDataValue v → Decodes read_datavalue (datavalue_bytes v) v
unfolding read_datavalue
read_datavalue-Decodes v h =
    >>=-Decodes _ _ (datavalue_mask v ∷ []) (fields_bytes v) (datavalue_mask v) v
      (read_byte-Decodes (datavalue_mask v)) (read_fields-Decodes v h)

pub write_datavalue-Emits :
    (v : DataValue) → IsDataValue v → Emits (write_datavalue (some v)) (datavalue_bytes v)
unfolding write_datavalue
write_datavalue-Emits v h =
    >>-Emits _ _ (datavalue_mask v ∷ []) (fields_bytes v) (write_byte-Emits (datavalue_mask v)) (
      >>-Emits _ _ (option_bytes scalar_of v.value) _
        (write_option-Emits scalar_of _ variant-Emits v.value h.value_fits)
        (>>-Emits _ _ (option_bytes le_u32 v.status) _
          (write_option-Emits {P = IsStatus} le_u32 _ (λ a p. write_statuscode-Emits a) v.status
            h.status_fits)
          (>>-Emits _ _ (option_bytes timestamp_bytes v.source_timestamp) _
            (write_option-Emits {P = IsDateTime} timestamp_bytes _ (λ a p. write_int64-Emits a)
              v.source_timestamp h.source_fits)
            (write_option-Emits {P = IsDateTime} timestamp_bytes _ (λ a p. write_int64-Emits a)
              v.server_timestamp h.server_fits))))

pub write_datavalue-Sticky : (v : DataValue) → Sticky (write_datavalue (some v))
unfolding write_datavalue
write_datavalue-Sticky v = >>-Sticky _ _ (write_byte-Sticky (datavalue_mask v))
