-- ===== src/Encoding/Variant/RoundTrip.antt =====
-- What binary_variant.c writes for a scalar Variant, and that it reads it back.
use micro_opcua.Base.{
  ℕ, ◌+◌, ◌%◌, ◌^◌, ◌<◌, ◌≡◌, ◌≢◌, refl, Bool, true, false, ◌||◌, some, List, [], ◌∷◌, ◌++◌, ◌==◌,
  if◌then◌else◌, arith,
}
use micro_opcua.Base.Int.{ℤ, InRange, unsigned}
use micro_opcua.Base.Outcome.{done}
use micro_opcua.Encoding.Le.{IsByte, le_u16, le_u32, le_u64}
use micro_opcua.Encoding.Reader.Decodes.{
  Decodes, >>=-Decodes, >>=-done-Decodes, done-Decodes, bool_byte, read_byte-Decodes,
  read_boolean-Decodes, read_sbyte-Decodes, read_uint16-Decodes, read_int16-Decodes,
  read_uint32-Decodes, read_int32-Decodes, read_uint64-Decodes, read_int64-Decodes,
  read_float-Decodes, read_double-Decodes, read_statuscode-Decodes,
}
use micro_opcua.Encoding.Writer.Emits.{Emits, >>-Emits, done-Emits}
use micro_opcua.Encoding.Writer.Primitives.{
  write_byte-Emits, write_boolean-Emits, write_sbyte-Emits, write_uint16-Emits, write_int16-Emits,
  write_uint32-Emits, write_int32-Emits, write_uint64-Emits, write_int64-Emits, write_float-Emits,
  write_double-Emits, write_statuscode-Emits,
}
use micro_opcua.Encoding.Text.{Str, null_str, read_string, write_string}
use micro_opcua.Encoding.Text.RoundTrip.{
  IsStr, str_bytes, read_string-Decodes, read_bytestring-Decodes, write_string-Emits,
  write_bytestring-Emits,
}
use micro_opcua.Encoding.NodeId.{NodeId, QualifiedName, bit, read_if}
use micro_opcua.Encoding.NodeId.RoundTrip.{
  IsNodeId, nodeid_bytes, read_nodeid-Decodes, write_nodeid-Emits, IsQualifiedName,
  qualified_name_bytes, read_qualified_name-Decodes, write_qualified_name-Emits,
}
use micro_opcua.Encoding.Variant.{
  LocalizedText, code, builtin_of, Scalar, type_of, scalar, read_localized_text, read_value,
  read_variant_of, read_variant, is_present, flag, write_if, write_localized_text,
  write_scalar_value, write_variant,
}

pub record IsLocalizedText (t : LocalizedText) : Type 0 where
  pub locale_fits : IsStr t.locale
  pub text_fits : IsStr t.text

-- The scalars that have an encoding: a handled type, and a value of it.
pub data IsScalar : Scalar → Type 0 where
  null : IsScalar Scalar.null
  boolean : (b : Bool) → IsScalar (Scalar.boolean b)
  sbyte : (z : ℤ) → InRange (2 ^ 7) z → IsScalar (Scalar.sbyte z)
  int16 : (z : ℤ) → InRange (2 ^ 15) z → IsScalar (Scalar.int16 z)
  int32 : (z : ℤ) → InRange (2 ^ 31) z → IsScalar (Scalar.int32 z)
  int64 : (z : ℤ) → InRange (2 ^ 63) z → IsScalar (Scalar.int64 z)
  datetime : (z : ℤ) → InRange (2 ^ 63) z → IsScalar (Scalar.datetime z)
  byte : (v : ℕ) → IsByte v → IsScalar (Scalar.byte v)
  uint16 : (v : ℕ) → v < 2 ^ 16 → IsScalar (Scalar.uint16 v)
  uint32 : (v : ℕ) → v < 2 ^ 32 → IsScalar (Scalar.uint32 v)
  uint64 : (v : ℕ) → v < 2 ^ 64 → IsScalar (Scalar.uint64 v)
  float : (v : ℕ) → v < 2 ^ 32 → IsScalar (Scalar.float v)
  double : (v : ℕ) → v < 2 ^ 64 → IsScalar (Scalar.double v)
  statuscode : (v : ℕ) → v < 2 ^ 32 → IsScalar (Scalar.statuscode v)
  string : (s : Str) → IsStr s → IsScalar (Scalar.string s)
  bytestring : (s : Str) → IsStr s → IsScalar (Scalar.bytestring s)
  nodeid : (id : NodeId) → IsNodeId id → IsScalar (Scalar.nodeid id)
  qualified_name : (q : QualifiedName) → IsQualifiedName q → IsScalar (Scalar.qualified_name q)
  localized_text : (t : LocalizedText) → IsLocalizedText t → IsScalar (Scalar.localized_text t)

abbrev if_present : Str → List ℕ
if_present s = if is_present s then str_bytes s else []

-- OPC 10000-6 5.2.2.14: a mask, and the parts that are there.
abbrev pub localized_text_bytes : LocalizedText → List ℕ
localized_text_bytes t =
    (flag (is_present t.locale) 1 + flag (is_present t.text) 2)
    ∷ (if_present t.locale ++ if_present t.text)

pub scalar_bytes : Scalar → List ℕ
scalar_bytes Scalar.null = []
scalar_bytes (Scalar.boolean b) = bool_byte b ∷ []
scalar_bytes (Scalar.sbyte z) = unsigned (2 ^ 7) z ∷ []
scalar_bytes (Scalar.int16 z) = le_u16 (unsigned (2 ^ 15) z)
scalar_bytes (Scalar.int32 z) = le_u32 (unsigned (2 ^ 31) z)
scalar_bytes (Scalar.int64 z) = le_u64 (unsigned (2 ^ 63) z)
scalar_bytes (Scalar.datetime z) = le_u64 (unsigned (2 ^ 63) z)
scalar_bytes (Scalar.byte v) = v ∷ []
scalar_bytes (Scalar.uint16 v) = le_u16 v
scalar_bytes (Scalar.uint32 v) = le_u32 v
scalar_bytes (Scalar.uint64 v) = le_u64 v
scalar_bytes (Scalar.float v) = le_u32 v
scalar_bytes (Scalar.double v) = le_u64 v
scalar_bytes (Scalar.statuscode v) = le_u32 v
scalar_bytes (Scalar.string s) = str_bytes s
scalar_bytes (Scalar.bytestring s) = str_bytes s
scalar_bytes (Scalar.nodeid id) = nodeid_bytes id
scalar_bytes (Scalar.qualified_name q) = qualified_name_bytes q
scalar_bytes (Scalar.localized_text t) = localized_text_bytes t
scalar_bytes (Scalar.unsupported c) = []

-- The type's code, and the value.
abbrev pub variant_bytes : Scalar → List ℕ
variant_bytes v = code (type_of v) ∷ scalar_bytes v

read_if_present-Decodes :
    (s : Str) → IsStr s → Decodes (read_if (is_present s) read_string null_str) (if_present s) s
read_if_present-Decodes s IsStr.null = done-Decodes null_str
read_if_present-Decodes s (IsStr.text bytes h) = read_string-Decodes s (IsStr.text bytes h)

write_if_present-Emits :
    (s : Str) → IsStr s → Emits (write_if (is_present s) (write_string (some s))) (if_present s)
write_if_present-Emits s IsStr.null = done-Emits
write_if_present-Emits s (IsStr.text bytes h) = write_string-Emits s (IsStr.text bytes h)

-- The mask of two flags gives both back.
flags_bit : (a b : Bool) → (bit 0 (flag a 1 + flag b 2) ≡ a) × (bit 1 (flag a 1 + flag b 2) ≡ b)
flags_bit true true = (refl, refl)
flags_bit true false = (refl, refl)
flags_bit false true = (refl, refl)
flags_bit false false = (refl, refl)

read_localized_text-Decodes :
    (t : LocalizedText)
    → IsLocalizedText t
    → Decodes read_localized_text (localized_text_bytes t) (Scalar.localized_text t)
unfolding read_localized_text
read_localized_text-Decodes t h =
    let mask : ℕ = flag (is_present t.locale) 1 + flag (is_present t.text) 2 in
    let (e0, e1) = flags_bit (is_present t.locale) (is_present t.text) in
    >>=-Decodes _ _ (mask ∷ []) (if_present t.locale ++ if_present t.text) mask _
      (read_byte-Decodes mask)
      (rw (e0, e1)
        (>>=-Decodes _ _ (if_present t.locale) (if_present t.text) t.locale _
          (read_if_present-Decodes t.locale h.locale_fits)
          (>>=-done-Decodes _
            (λ text. Scalar.localized_text (record { locale = t.locale; text = text }))
            (if_present t.text) t.text (read_if_present-Decodes t.text h.text_fits))))

write_localized_text-Emits :
    (t : LocalizedText)
    → IsLocalizedText t
    → Emits (write_localized_text t) (localized_text_bytes t)
unfolding write_localized_text
write_localized_text-Emits t h =
    >>-Emits _ _ ((flag (is_present t.locale) 1 + flag (is_present t.text) 2) ∷ [])
      (if_present t.locale ++ if_present t.text) (write_byte-Emits _)
      (>>-Emits _ _ (if_present t.locale) (if_present t.text)
        (write_if_present-Emits t.locale h.locale_fits) (write_if_present-Emits t.text h.text_fits))

read_value-Decodes : (v : Scalar) → IsScalar v → Decodes (read_value (type_of v)) (scalar_bytes v) v
unfolding read_value scalar_bytes
read_value-Decodes s IsScalar.null = done-Decodes Scalar.null
read_value-Decodes s (IsScalar.boolean b) =
    >>=-done-Decodes _ Scalar.boolean (bool_byte b ∷ []) b (read_boolean-Decodes b)
read_value-Decodes x (IsScalar.sbyte z h) =
    >>=-done-Decodes _ Scalar.sbyte (unsigned (2 ^ 7) z ∷ []) z (read_sbyte-Decodes z h)
read_value-Decodes x (IsScalar.int16 z h) =
    >>=-done-Decodes _ Scalar.int16 (le_u16 (unsigned (2 ^ 15) z)) z (read_int16-Decodes z h)
read_value-Decodes x (IsScalar.int32 z h) =
    >>=-done-Decodes _ Scalar.int32 (le_u32 (unsigned (2 ^ 31) z)) z (read_int32-Decodes z h)
read_value-Decodes x (IsScalar.int64 z h) =
    >>=-done-Decodes _ Scalar.int64 (le_u64 (unsigned (2 ^ 63) z)) z (read_int64-Decodes z h)
read_value-Decodes x (IsScalar.datetime z h) =
    >>=-done-Decodes _ Scalar.datetime (le_u64 (unsigned (2 ^ 63) z)) z (read_int64-Decodes z h)
read_value-Decodes x (IsScalar.byte v h) =
    >>=-done-Decodes _ Scalar.byte (v ∷ []) v (read_byte-Decodes v)
read_value-Decodes x (IsScalar.uint16 v h) =
    >>=-done-Decodes _ Scalar.uint16 (le_u16 v) v (read_uint16-Decodes v h)
read_value-Decodes x (IsScalar.uint32 v h) =
    >>=-done-Decodes _ Scalar.uint32 (le_u32 v) v (read_uint32-Decodes v h)
read_value-Decodes x (IsScalar.uint64 v h) =
    >>=-done-Decodes _ Scalar.uint64 (le_u64 v) v (read_uint64-Decodes v h)
read_value-Decodes x (IsScalar.float v h) =
    >>=-done-Decodes _ Scalar.float (le_u32 v) v (read_float-Decodes v h)
read_value-Decodes x (IsScalar.double v h) =
    >>=-done-Decodes _ Scalar.double (le_u64 v) v (read_double-Decodes v h)
read_value-Decodes x (IsScalar.statuscode v h) =
    >>=-done-Decodes _ Scalar.statuscode (le_u32 v) v (read_statuscode-Decodes v h)
read_value-Decodes x (IsScalar.string s h) =
    >>=-done-Decodes _ Scalar.string (str_bytes s) s (read_string-Decodes s h)
read_value-Decodes x (IsScalar.bytestring s h) =
    >>=-done-Decodes _ Scalar.bytestring (str_bytes s) s (read_bytestring-Decodes s h)
read_value-Decodes x (IsScalar.nodeid id h) =
    >>=-done-Decodes _ Scalar.nodeid (nodeid_bytes id) id (read_nodeid-Decodes id h)
read_value-Decodes x (IsScalar.qualified_name q h) =
    >>=-done-Decodes _ Scalar.qualified_name (qualified_name_bytes q) q
      (read_qualified_name-Decodes q h)
read_value-Decodes s (IsScalar.localized_text t h) = read_localized_text-Decodes t h

pub write_scalar_value-Emits :
    (v : Scalar) → IsScalar v → code (type_of v) ≢ 0 → Emits (write_scalar_value v) (scalar_bytes v)
unfolding write_scalar_value scalar_bytes
write_scalar_value-Emits x IsScalar.null e = absurd (e refl)
write_scalar_value-Emits x (IsScalar.boolean true) e = write_boolean-Emits true
write_scalar_value-Emits x (IsScalar.boolean false) e = write_boolean-Emits false
write_scalar_value-Emits x (IsScalar.sbyte z h) e = write_sbyte-Emits z
write_scalar_value-Emits x (IsScalar.int16 z h) e = write_int16-Emits z
write_scalar_value-Emits x (IsScalar.int32 z h) e = write_int32-Emits z
write_scalar_value-Emits x (IsScalar.int64 z h) e = write_int64-Emits z
write_scalar_value-Emits x (IsScalar.datetime z h) e = write_int64-Emits z
write_scalar_value-Emits x (IsScalar.byte v h) e = write_byte-Emits v
write_scalar_value-Emits x (IsScalar.uint16 v h) e = write_uint16-Emits v
write_scalar_value-Emits x (IsScalar.uint32 v h) e = write_uint32-Emits v
write_scalar_value-Emits x (IsScalar.uint64 v h) e = write_uint64-Emits v
write_scalar_value-Emits x (IsScalar.float v h) e = write_float-Emits v
write_scalar_value-Emits x (IsScalar.double v h) e = write_double-Emits v
write_scalar_value-Emits x (IsScalar.statuscode v h) e = write_statuscode-Emits v
write_scalar_value-Emits x (IsScalar.string s h) e = write_string-Emits s h
write_scalar_value-Emits x (IsScalar.bytestring s h) e = write_bytestring-Emits s h
write_scalar_value-Emits x (IsScalar.nodeid id h) e = write_nodeid-Emits id h
write_scalar_value-Emits x (IsScalar.qualified_name q h) e = write_qualified_name-Emits q h
write_scalar_value-Emits x (IsScalar.localized_text t h) e = write_localized_text-Emits t h

-- The code of a handled type is below 64, and names the type.
type_code :
    (v : Scalar)
    → IsScalar v
    → (builtin_of (code (type_of v) % 64) ≡ type_of v)
      × ((bit 7 (code (type_of v)) || bit 6 (code (type_of v))) ≡ false)
      × (code (type_of v) % 256 ≡ code (type_of v))
unfolding builtin_of
type_code v IsScalar.null = (refl, refl, refl)
type_code _ _ = (refl, refl, refl)

read_variant_of-Decodes :
    (v : Scalar)
    → IsScalar v
    → Decodes (read_variant_of (code (type_of v))) (scalar_bytes v) (scalar v)
unfolding read_variant_of
read_variant_of-Decodes v h =
    let (e, plain, fits) = type_code v h in
    rw (plain, e) (>>=-done-Decodes _ scalar (scalar_bytes v) v (read_value-Decodes v h))

pub read_variant-Decodes :
    (v : Scalar) → IsScalar v → Decodes read_variant (variant_bytes v) (scalar v)
unfolding read_variant
read_variant-Decodes v h =
    >>=-Decodes _ _ (code (type_of v) ∷ []) (scalar_bytes v) (code (type_of v)) (scalar v)
      (read_byte-Decodes (code (type_of v))) (read_variant_of-Decodes v h)

-- Only the null type has the code 0.
after_code-Emits :
    (v : Scalar)
    → IsScalar v
    → Emits (if code (type_of v) == 0 then done tt else write_scalar_value v) (scalar_bytes v)
unfolding scalar_bytes
after_code-Emits v IsScalar.null = done-Emits
after_code-Emits v h = write_scalar_value-Emits v h (omega arith)

pub write_variant-Emits :
    (v : Scalar) → IsScalar v → Emits (write_variant (some (scalar v))) (variant_bytes v)
unfolding write_variant
write_variant-Emits v h =
    let (e, plain, fits) = type_code v h in
    >>-Emits _ _ (code (type_of v) ∷ []) (scalar_bytes v)
      (rw fits (write_byte-Emits (code (type_of v)))) (after_code-Emits v h)
