-- ===== src/Encoding/Variant.antt =====
-- src/encoding/binary_variant.c, and mu_variant_t, mu_localized_text_t and mu_builtin_type_t of
-- include/muc_opcua/types.h.
pub mod Safety
pub mod RoundTrip
pub mod Arrays
use micro_opcua.Base.{
  ℕ, zero, suc, ◌+◌, ◌%◌, Bool, true, false, ◌||◌, Option, none, some, List, [], ◌∷◌, ◌==◌,
  if◌then◌else◌,
}
use micro_opcua.Base.Int.{ℤ, pos, negsuc, is_negative}
use micro_opcua.Base.Status.{bad_decodingerror, bad_encodingerror}
use micro_opcua.Base.Outcome.{Prog, ◌>>=◌, ◌>>◌, done, fails, fault}
use micro_opcua.Encoding.Reader.{
  Reader, read_byte, read_boolean, read_sbyte, read_uint16, read_int16, read_uint32, read_int32,
  read_uint64, read_int64, read_float, read_double, read_statuscode,
}
use micro_opcua.Encoding.Writer.{
  Writer, write_byte, write_boolean, write_sbyte, write_uint16, write_int16, write_uint32,
  write_int32, write_uint64, write_int64, write_float, write_double, write_statuscode,
}
use micro_opcua.Encoding.Text.{
  Str, null_str, read_string, read_bytestring, write_string, write_bytestring,
}
use micro_opcua.Encoding.NodeId.{
  NodeId, QualifiedName, bit, read_if, read_nodeid, write_nodeid, read_qualified_name,
  write_qualified_name,
}

-- mu_localized_text_t
pub record LocalizedText : Type 0 where
  pub locale : Str
  pub text : Str

-- mu_builtin_type_t; `unsupported` stands for the types that no function of the file handles.
pub data Builtin : Type 0 where
  null boolean sbyte byte int16 uint16 int32 uint32 int64 uint64 float double : Builtin
  string datetime bytestring nodeid statuscode qualified_name localized_text : Builtin
  unsupported : ℕ → Builtin

abbrev pub code : Builtin → ℕ
code null = 0
code boolean = 1
code sbyte = 2
code byte = 3
code int16 = 4
code uint16 = 5
code int32 = 6
code uint32 = 7
code int64 = 8
code uint64 = 9
code float = 10
code double = 11
code string = 12
code datetime = 13
code bytestring = 15
code nodeid = 17
code statuscode = 19
code qualified_name = 20
code localized_text = 21
code (unsupported c) = c

-- (mu_builtin_type_t)type
pub builtin_of : ℕ → Builtin
builtin_of c =
    if c == 0
    then null
    else if c == 1
    then boolean
    else if c == 2
    then sbyte
    else if c == 3
    then byte
    else if c == 4
    then int16
    else if c == 5
    then uint16
    else if c == 6
    then int32
    else if c == 7
    then uint32
    else if c == 8
    then int64
    else if c == 9
    then uint64
    else if c == 10
    then float
    else if c == 11
    then double
    else if c == 12
    then string
    else if c == 13
    then datetime
    else if c == 15
    then bytestring
    else if c == 17
    then nodeid
    else if c == 19
    then statuscode
    else if c == 20
    then qualified_name
    else if c == 21
    then localized_text
    else unsupported c

-- The type and the member of the union that it selects.
pub data Scalar : Type 0 where
  null : Scalar
  boolean : Bool → Scalar
  sbyte int16 int32 int64 datetime : ℤ → Scalar
  byte uint16 uint32 uint64 float double statuscode : ℕ → Scalar
  string bytestring : Str → Scalar
  nodeid : NodeId → Scalar
  qualified_name : QualifiedName → Scalar
  localized_text : LocalizedText → Scalar
  unsupported : ℕ → Scalar

abbrev pub type_of : Scalar → Builtin
type_of Scalar.null = null
type_of (Scalar.boolean b) = boolean
type_of (Scalar.sbyte z) = sbyte
type_of (Scalar.int16 z) = int16
type_of (Scalar.int32 z) = int32
type_of (Scalar.int64 z) = int64
type_of (Scalar.datetime z) = datetime
type_of (Scalar.byte v) = byte
type_of (Scalar.uint16 v) = uint16
type_of (Scalar.uint32 v) = uint32
type_of (Scalar.uint64 v) = uint64
type_of (Scalar.float v) = float
type_of (Scalar.double v) = double
type_of (Scalar.statuscode v) = statuscode
type_of (Scalar.string s) = string
type_of (Scalar.bytestring s) = bytestring
type_of (Scalar.nodeid id) = nodeid
type_of (Scalar.qualified_name q) = qualified_name
type_of (Scalar.localized_text t) = localized_text
type_of (Scalar.unsupported c) = unsupported c

-- mu_variant_t: a scalar, or an array with its element type, its length and the elements behind the
-- pointer, `none` for NULL.
pub data Variant : Type 0 where
  scalar : Scalar → Variant
  array : Builtin → ℤ → Option (List Scalar) → Variant

read_localized_text : Prog Reader Scalar
read_localized_text = do
  lt_mask ← read_byte
  locale ← read_if (bit 0 lt_mask) read_string null_str
  text ← read_if (bit 1 lt_mask) read_string null_str
  done (Scalar.localized_text (record { locale = locale; text = text }))

-- switch (type)
read_value : Builtin → Prog Reader Scalar
unfolding read_localized_text
read_value null = done Scalar.null
read_value boolean = do v ← read_boolean; done (Scalar.boolean v)
read_value sbyte = do v ← read_sbyte; done (Scalar.sbyte v)
read_value byte = do v ← read_byte; done (Scalar.byte v)
read_value int16 = do v ← read_int16; done (Scalar.int16 v)
read_value uint16 = do v ← read_uint16; done (Scalar.uint16 v)
read_value int32 = do v ← read_int32; done (Scalar.int32 v)
read_value uint32 = do v ← read_uint32; done (Scalar.uint32 v)
read_value int64 = do v ← read_int64; done (Scalar.int64 v)
read_value uint64 = do v ← read_uint64; done (Scalar.uint64 v)
read_value float = do v ← read_float; done (Scalar.float v)
read_value double = do v ← read_double; done (Scalar.double v)
read_value string = do v ← read_string; done (Scalar.string v)
read_value datetime = do v ← read_int64; done (Scalar.datetime v)
read_value bytestring = do v ← read_bytestring; done (Scalar.bytestring v)
read_value nodeid = do v ← read_nodeid; done (Scalar.nodeid v)
read_value statuscode = do v ← read_statuscode; done (Scalar.statuscode v)
read_value qualified_name = do v ← read_qualified_name; done (Scalar.qualified_name v)
read_value localized_text = read_localized_text
read_value (unsupported c) = fails bad_decodingerror

read_variant_of : ℕ → Prog Reader Variant
unfolding read_value
read_variant_of encoding_mask =
    if bit 7 encoding_mask || bit 6 encoding_mask
    then fails bad_decodingerror
    else (do v ← read_value (builtin_of (encoding_mask % 64)); done (scalar v))

pub read_variant : Prog Reader Variant
unfolding read_variant_of
read_variant = do encoding_mask ← read_byte; read_variant_of encoding_mask

-- length >= 0
abbrev is_present : Str → Bool
is_present s = if is_negative s.length then false else true

abbrev flag : Bool → ℕ → ℕ
flag true n = n
flag false n = 0

abbrev write_if : Bool → Prog Writer (Unit {0}) → Prog Writer (Unit {0})
write_if true m = m
write_if false m = done tt

write_localized_text : LocalizedText → Prog Writer (Unit {0})
write_localized_text t = do
  write_byte (flag (is_present t.locale) 1 + flag (is_present t.text) 2)
  write_if (is_present t.locale) (write_string (some t.locale))
  write_if (is_present t.text) (write_string (some t.text))

pub write_scalar_value : Scalar → Prog Writer (Unit {0})
unfolding write_localized_text
write_scalar_value Scalar.null = fails bad_encodingerror
write_scalar_value (Scalar.boolean b) = write_boolean b
write_scalar_value (Scalar.sbyte z) = write_sbyte z
write_scalar_value (Scalar.int16 z) = write_int16 z
write_scalar_value (Scalar.int32 z) = write_int32 z
write_scalar_value (Scalar.int64 z) = write_int64 z
write_scalar_value (Scalar.datetime z) = write_int64 z
write_scalar_value (Scalar.byte v) = write_byte v
write_scalar_value (Scalar.uint16 v) = write_uint16 v
write_scalar_value (Scalar.uint32 v) = write_uint32 v
write_scalar_value (Scalar.uint64 v) = write_uint64 v
write_scalar_value (Scalar.float v) = write_float v
write_scalar_value (Scalar.double v) = write_double v
write_scalar_value (Scalar.statuscode v) = write_statuscode v
write_scalar_value (Scalar.string s) = write_string (some s)
write_scalar_value (Scalar.bytestring s) = write_bytestring (some s)
write_scalar_value (Scalar.nodeid id) = write_nodeid (some id)
write_scalar_value (Scalar.qualified_name q) = write_qualified_name (some q)
write_scalar_value (Scalar.localized_text t) = write_localized_text t
write_scalar_value (Scalar.unsupported c) = fails bad_encodingerror

-- element_size(type) != 0
abbrev has_stride : Builtin → Bool
has_stride null = false
has_stride (unsupported c) = false
has_stride _ = true

-- `n` elements of `type` from the pointer on; past the last one, or at an object of another type, the
-- read of the element is undefined.
write_elements : Builtin → ℕ → List Scalar → Prog Writer (Unit {0})
write_elements type zero elements = done tt
write_elements type (suc n) [] = λ w. fault
write_elements type (suc n) (e ∷ elements) =
    if code (type_of e) == code type
    then (write_scalar_value e >> write_elements type n elements)
    else (λ w. fault)

write_array_of : Builtin → ℤ → Option (List Scalar) → Prog Writer (Unit {0})
unfolding write_elements
write_array_of type (negsuc k) elements = done tt
write_array_of type (pos n) none = done tt
write_array_of type (pos n) (some elements) =
    if has_stride type then write_elements type n elements else fails bad_encodingerror

-- (opcua_byte_t)type | 0x80 is `code type % 128 + 128`.
write_array : Builtin → ℤ → Option (List Scalar) → Prog Writer (Unit {0})
unfolding write_array_of
write_array type n elements = do
  write_byte (code type % 128 + 128)
  if code type == 0 then done tt else (do write_int32 n; write_array_of type n elements)

write_scalar : Scalar → Prog Writer (Unit {0})
unfolding write_scalar_value
write_scalar v = do
  write_byte (code (type_of v) % 256)
  if code (type_of v) == 0 then done tt else write_scalar_value v

-- `none` for a NULL pointer.
pub write_variant : Option Variant → Prog Writer (Unit {0})
unfolding write_array write_scalar
write_variant none = fails bad_encodingerror
write_variant (some (scalar v)) = write_scalar v
write_variant (some (array type n elements)) = write_array type n elements
