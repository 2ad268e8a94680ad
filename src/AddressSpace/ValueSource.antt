-- ===== src/AddressSpace/ValueSource.antt =====
-- src/address_space/value_source.c: the value of a node.
use micro_opcua.Base.{ℕ, Option, none, some, if◌then◌else◌}
use micro_opcua.Base.Int.{ℤ, pos, negsuc}
use micro_opcua.Base.Tests.{ltb}
use micro_opcua.Base.Status.{good, bad_internalerror, bad_encodinglimitsexceeded, bad_notreadable}
use micro_opcua.Encoding.NodeId.{NodeId}
use micro_opcua.Encoding.Variant.{Scalar, Variant, scalar, array}

-- A status, and the value that is left in `*value`.
abbrev pub Reading : Type 0
Reading = ℕ × Variant

-- mu_value_source_t: a static value, or a callback of the application, `none` for NULL.
pub data ValueSource : Type 0 where
  static_value : Variant → ValueSource
  callback : Option (NodeId → Reading) → ValueSource

abbrev pub too_long : ℤ → ℕ → Reading → Reading → Reading
too_long (pos n) max bad fine = if ltb max n then bad else fine
too_long (negsuc n) max bad fine = fine

-- switch (source->data.static_value.type); `before` is the value of `*value` before the call.
abbrev pub static_scalar : ℕ → Scalar → Variant → Reading
static_scalar max (Scalar.boolean b) before = (good, scalar (Scalar.boolean b))
static_scalar max (Scalar.int32 z) before = (good, scalar (Scalar.int32 z))
static_scalar max (Scalar.uint32 n) before = (good, scalar (Scalar.uint32 n))
static_scalar max (Scalar.float f) before = (good, scalar (Scalar.float f))
static_scalar max (Scalar.string s) before =
    too_long s.length max (bad_encodinglimitsexceeded, before) (good, scalar (Scalar.string s))
static_scalar max _ before = (bad_notreadable, before)

-- mu_value_source_read, with MU_MAX_STRING_VALUE_LENGTH
pub value_source_read : ℕ → Option ValueSource → NodeId → Variant → Reading
value_source_read max none id before = (bad_internalerror, before)
value_source_read max (some (static_value (array t n es))) id before = (good, array t n es)
value_source_read max (some (static_value (scalar s))) id before = static_scalar max s before
value_source_read max (some (callback none)) id before = (bad_internalerror, before)
value_source_read max (some (callback (some read))) id before = read id
