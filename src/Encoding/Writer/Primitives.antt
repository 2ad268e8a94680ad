-- ===== src/Encoding/Writer/Primitives.antt =====
-- Each primitive encoder of binary_writer.c against the bytes that it is to write.
use micro_opcua.Base.{ℕ, ◌^◌, Bool, refl, [], ◌∷◌, if◌then◌else◌}
use micro_opcua.Base.Int.{ℤ, unsigned}
use micro_opcua.Encoding.Le.{le_u16, le_u32, le_u64}
use micro_opcua.Encoding.Writer.{
  write_byte, write_boolean, write_sbyte, write_uint16, write_int16, write_uint32, write_int32,
  write_uint64, write_int64, write_float, write_double, write_statuscode,
}
use micro_opcua.Encoding.Writer.Emits.{Emits, Sticky, ensured-Emits, ensured-Sticky}

pub write_byte-Emits : (b : ℕ) → Emits (write_byte b) (b ∷ [])
unfolding write_byte
write_byte-Emits b = ensured-Emits 1 (b ∷ []) refl

pub write_byte-Sticky : (b : ℕ) → Sticky (write_byte b)
unfolding write_byte
write_byte-Sticky b = ensured-Sticky 1 (b ∷ [])

pub write_boolean-Emits : (b : Bool) → Emits (write_boolean b) ((if b then 1 else 0) ∷ [])
unfolding write_boolean
write_boolean-Emits b = ensured-Emits 1 ((if b then 1 else 0) ∷ []) refl

pub write_boolean-Sticky : (b : Bool) → Sticky (write_boolean b)
unfolding write_boolean
write_boolean-Sticky b = ensured-Sticky 1 ((if b then 1 else 0) ∷ [])

pub write_sbyte-Emits : (z : ℤ) → Emits (write_sbyte z) (unsigned (2 ^ 7) z ∷ [])
unfolding write_sbyte
write_sbyte-Emits z = ensured-Emits 1 (unsigned (2 ^ 7) z ∷ []) refl

pub write_sbyte-Sticky : (z : ℤ) → Sticky (write_sbyte z)
unfolding write_sbyte
write_sbyte-Sticky z = ensured-Sticky 1 (unsigned (2 ^ 7) z ∷ [])

pub write_uint16-Emits : (v : ℕ) → Emits (write_uint16 v) (le_u16 v)
unfolding write_uint16
write_uint16-Emits v = ensured-Emits 2 (le_u16 v) refl

pub write_uint16-Sticky : (v : ℕ) → Sticky (write_uint16 v)
unfolding write_uint16
write_uint16-Sticky v = ensured-Sticky 2 (le_u16 v)

pub write_uint32-Emits : (v : ℕ) → Emits (write_uint32 v) (le_u32 v)
unfolding write_uint32
write_uint32-Emits v = ensured-Emits 4 (le_u32 v) refl

pub write_uint32-Sticky : (v : ℕ) → Sticky (write_uint32 v)
unfolding write_uint32
write_uint32-Sticky v = ensured-Sticky 4 (le_u32 v)

pub write_uint64-Emits : (v : ℕ) → Emits (write_uint64 v) (le_u64 v)
unfolding write_uint64
write_uint64-Emits v = ensured-Emits 8 (le_u64 v) refl

pub write_uint64-Sticky : (v : ℕ) → Sticky (write_uint64 v)
unfolding write_uint64
write_uint64-Sticky v = ensured-Sticky 8 (le_u64 v)

pub write_int16-Emits : (z : ℤ) → Emits (write_int16 z) (le_u16 (unsigned (2 ^ 15) z))
unfolding write_int16
write_int16-Emits z = write_uint16-Emits (unsigned (2 ^ 15) z)

pub write_int16-Sticky : (z : ℤ) → Sticky (write_int16 z)
unfolding write_int16
write_int16-Sticky z = write_uint16-Sticky (unsigned (2 ^ 15) z)

pub write_int32-Emits : (z : ℤ) → Emits (write_int32 z) (le_u32 (unsigned (2 ^ 31) z))
unfolding write_int32
write_int32-Emits z = write_uint32-Emits (unsigned (2 ^ 31) z)

pub write_int32-Sticky : (z : ℤ) → Sticky (write_int32 z)
unfolding write_int32
write_int32-Sticky z = write_uint32-Sticky (unsigned (2 ^ 31) z)

pub write_int64-Emits : (z : ℤ) → Emits (write_int64 z) (le_u64 (unsigned (2 ^ 63) z))
unfolding write_int64
write_int64-Emits z = write_uint64-Emits (unsigned (2 ^ 63) z)

pub write_int64-Sticky : (z : ℤ) → Sticky (write_int64 z)
unfolding write_int64
write_int64-Sticky z = write_uint64-Sticky (unsigned (2 ^ 63) z)

pub write_float-Emits : (v : ℕ) → Emits (write_float v) (le_u32 v)
unfolding write_float
write_float-Emits v = write_uint32-Emits v

pub write_float-Sticky : (v : ℕ) → Sticky (write_float v)
unfolding write_float
write_float-Sticky v = write_uint32-Sticky v

pub write_double-Emits : (v : ℕ) → Emits (write_double v) (le_u64 v)
unfolding write_double
write_double-Emits v = write_uint64-Emits v

pub write_double-Sticky : (v : ℕ) → Sticky (write_double v)
unfolding write_double
write_double-Sticky v = write_uint64-Sticky v

pub write_statuscode-Emits : (v : ℕ) → Emits (write_statuscode v) (le_u32 v)
unfolding write_statuscode
write_statuscode-Emits v = write_uint32-Emits v

pub write_statuscode-Sticky : (v : ℕ) → Sticky (write_statuscode v)
unfolding write_statuscode
write_statuscode-Sticky v = write_uint32-Sticky v
