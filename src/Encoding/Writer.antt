-- ===== src/Encoding/Writer.antt =====
-- src/encoding/binary_writer.c and the writers of src/encoding/binary_le.h: the primitive encoders.
-- A writer is a state that is passed on; its buffer is the memory behind the pointer, `none` for NULL.
pub mod Emits
pub mod Primitives
use micro_opcua.Base.{
  ℕ, ◌+◌, ◌-◌, ◌^◌, Bool, true, false, ◌&&◌, not, Option, none, some, List, [], ◌∷◌, leb, ltb, ◌==◌,
  if◌then◌else◌, length, set, take,
}
use micro_opcua.Base.Int.{ℤ, unsigned}
use micro_opcua.Base.Status.{good, bad_internalerror, bad_encodingerror}
use micro_opcua.Base.Outcome.{ok, err, fault, Prog, ◌>>=◌, ◌>>◌, done}
use micro_opcua.Encoding.Le.{le_u16, le_u32, le_u64}

-- mu_binary_writer_t
pub record Writer : Type 0 where
  pub buffer : Option (List ℕ)
  pub length : ℕ
  pub position : ℕ
  pub status : ℕ

abbrev pub writer_init : Option (List ℕ) → ℕ → Writer
writer_init buffer length = record { buffer = buffer; length = length; position = 0; status = good }

abbrev pub writer_fail : {A : Type 0} → ℕ → Prog Writer A
writer_fail e w = err e (record w { status = e })

abbrev is_null {ℓ} : {A : Type ℓ} → Option A → Bool
is_null none = true
is_null (some a) = false

pub ensure_space : ℕ → Prog Writer (Unit {0})
ensure_space count w =
    if w.status == good
      && not (is_null w.buffer)
      && leb w.position w.length
      && leb count (w.length - w.position)
    then ok tt w
    else if not (w.status == good)
    then err w.status w
    else if is_null w.buffer
    then writer_fail bad_internalerror w
    else writer_fail bad_encodingerror w

abbrev store : Option (List ℕ) → ℕ → ℕ → Prog Writer (Unit {0})
store none i b w = fault
store (some bytes) i b w =
    if ltb i (length bytes) then ok tt (record w { buffer = some (set bytes i b) }) else fault

-- writer->buffer[writer->position + k] = b
put_byte_at : ℕ → ℕ → Prog Writer (Unit {0})
put_byte_at k b w = store w.buffer (w.position + k) b w

-- Byte after byte from writer->buffer + writer->position + k on: memcpy, and the assignments of
-- mu_binary_le_put_u16, mu_binary_le_put_u32 and mu_binary_le_put_u64.
pub put_bytes : ℕ → List ℕ → Prog Writer (Unit {0})
unfolding put_byte_at
put_bytes k [] = done tt
put_bytes k (b ∷ bs) = put_byte_at k b >> put_bytes (k + 1) bs

-- writer->position += n
unfoldable pub advance : ℕ → Prog Writer (Unit {0})
advance n w = ok tt (record w { position = w.position + n })

pub write_byte : ℕ → Prog Writer (Unit {0})
write_byte b = do ensure_space 1; put_bytes 0 (b ∷ []); advance 1

pub write_boolean : Bool → Prog Writer (Unit {0})
write_boolean b = do ensure_space 1; put_bytes 0 ((if b then 1 else 0) ∷ []); advance 1

pub write_sbyte : ℤ → Prog Writer (Unit {0})
write_sbyte z = do ensure_space 1; put_bytes 0 (unsigned (2 ^ 7) z ∷ []); advance 1

pub write_uint16 : ℕ → Prog Writer (Unit {0})
write_uint16 v = do ensure_space 2; put_bytes 0 (le_u16 v); advance 2

pub write_int16 : ℤ → Prog Writer (Unit {0})
unfolding write_uint16
write_int16 z = write_uint16 (unsigned (2 ^ 15) z)

pub write_uint32 : ℕ → Prog Writer (Unit {0})
write_uint32 v = do ensure_space 4; put_bytes 0 (le_u32 v); advance 4

pub write_int32 : ℤ → Prog Writer (Unit {0})
write_int32 z = write_uint32 (unsigned (2 ^ 31) z)

pub write_uint64 : ℕ → Prog Writer (Unit {0})
write_uint64 v = do ensure_space 8; put_bytes 0 (le_u64 v); advance 8

pub write_int64 : ℤ → Prog Writer (Unit {0})
write_int64 z = write_uint64 (unsigned (2 ^ 63) z)

-- A float is its bit pattern, which memcpy moves.
pub write_float : ℕ → Prog Writer (Unit {0})
write_float v = write_uint32 v

pub write_double : ℕ → Prog Writer (Unit {0})
write_double v = write_uint64 v

pub write_statuscode : ℕ → Prog Writer (Unit {0})
write_statuscode v = write_uint32 v
