-- ===== src/Encoding/Reader/Safety/Primitives.antt =====
-- Memory safety of each primitive decoder of binary_reader.c.
use micro_opcua.Base.{◌^◌, inl, inr, Bool-cases, arith}
use micro_opcua.Base.Int.{ℤ, signed}
use micro_opcua.Base.Outcome.{Prog, ◌>>=◌}
use micro_opcua.Encoding.Reader.{
  Reader, get_u16, get_u32, get_u64, read_byte, read_boolean, read_sbyte, read_uint16, read_int16,
  read_uint32, read_int32, read_uint64, read_int64, bad_array_length, check_array_length,
  read_array_length, read_float, read_double, read_statuscode,
}
use micro_opcua.Encoding.Reader.Safety.{
  Safe, Stays-refl, Loads, byte_at-Loads, done-Loads, >>=-Loads, done-Safe, ensured-Safe,
  SafeLoaded, ensured->>=-Safe,
}

get_u16-Loads : Loads 2 get_u16
unfolding get_u16
get_u16-Loads =
    >>=-Loads 2 _ _ (byte_at-Loads 2 0 (omega arith))
      λ b0. >>=-Loads 2 _ _ (byte_at-Loads 2 1 (omega arith)) λ b1. done-Loads 2 _

get_u32-Loads : Loads 4 get_u32
unfolding get_u32
get_u32-Loads = >>=-Loads 4 _ _ (byte_at-Loads 4 0 (omega arith)) λ b0.
    >>=-Loads 4 _ _ (byte_at-Loads 4 1 (omega arith)) λ b1.
      >>=-Loads 4 _ _ (byte_at-Loads 4 2 (omega arith))
        λ b2. >>=-Loads 4 _ _ (byte_at-Loads 4 3 (omega arith)) λ b3. done-Loads 4 _

get_u64-Loads : Loads 8 get_u64
unfolding get_u64
get_u64-Loads = >>=-Loads 8 _ _ (byte_at-Loads 8 0 (omega arith)) λ b0.
    >>=-Loads 8 _ _ (byte_at-Loads 8 1 (omega arith)) λ b1.
      >>=-Loads 8 _ _ (byte_at-Loads 8 2 (omega arith)) λ b2.
        >>=-Loads 8 _ _ (byte_at-Loads 8 3 (omega arith)) λ b3.
          >>=-Loads 8 _ _ (byte_at-Loads 8 4 (omega arith)) λ b4.
            >>=-Loads 8 _ _ (byte_at-Loads 8 5 (omega arith)) λ b5.
              >>=-Loads 8 _ _ (byte_at-Loads 8 6 (omega arith))
                λ b6. >>=-Loads 8 _ _ (byte_at-Loads 8 7 (omega arith)) λ b7. done-Loads 8 _

pub read_byte-Safe : Safe read_byte
unfolding read_byte
read_byte-Safe = ensured-Safe 1 _ _ (byte_at-Loads 1 0 (omega arith)) λ b. done-Safe _

pub read_boolean-Safe : Safe read_boolean
unfolding read_boolean
read_boolean-Safe = ensured-Safe 1 _ _ (byte_at-Loads 1 0 (omega arith)) λ b. done-Safe _

pub read_sbyte-Safe : Safe read_sbyte
unfolding read_sbyte
read_sbyte-Safe = ensured-Safe 1 _ _ (byte_at-Loads 1 0 (omega arith)) λ b. done-Safe _

pub read_uint16-Safe : Safe read_uint16
unfolding read_uint16
read_uint16-Safe = ensured-Safe 2 _ _ get_u16-Loads λ b. done-Safe _

pub read_int16-Safe : Safe read_int16
unfolding read_int16
read_int16-Safe = ensured-Safe 2 _ _ get_u16-Loads λ b. done-Safe _

pub read_uint32-Safe : Safe read_uint32
unfolding read_uint32
read_uint32-Safe = ensured-Safe 4 _ _ get_u32-Loads λ b. done-Safe _

pub read_int32-Safe : Safe read_int32
unfolding read_int32
read_int32-Safe = ensured-Safe 4 _ _ get_u32-Loads λ b. done-Safe _

pub read_uint64-Safe : Safe read_uint64
unfolding read_uint64
read_uint64-Safe = ensured-Safe 8 _ _ get_u64-Loads λ b. done-Safe _

pub read_int64-Safe : Safe read_int64
unfolding read_int64
read_int64-Safe = ensured-Safe 8 _ _ get_u64-Loads λ b. done-Safe _

check_array_length-Safe : (n : ℤ) → Safe (check_array_length n)
check_array_length-Safe n = record {
  run = λ r b. elim (Bool-cases (bad_array_length n r.position)) [
    | inl h ↦ rw h (ground arith, ground arith)
    | inr h ↦ rw h (Stays-refl r)
  ];
}

pub read_array_length-Safe : Safe read_array_length
unfolding read_array_length
read_array_length-Safe =
    ensured-Safe 4 _ _ get_u32-Loads λ v. check_array_length-Safe (signed (2 ^ 31) v)

pub read_float-Safe : Safe read_float
unfolding read_float
read_float-Safe = read_uint32-Safe

pub read_double-Safe : Safe read_double
unfolding read_double
read_double-Safe = read_uint64-Safe

pub read_statuscode-Safe : Safe read_statuscode
unfolding read_statuscode
read_statuscode-Safe = read_uint32-Safe

-- What follows the read of a length may rely on a buffer that is there.
pub read_int32->>=-Safe :
    {A : Type 0} (k : ℤ → Prog Reader A) → ((n : ℤ) → SafeLoaded (k n)) → Safe (read_int32 >>= k)
unfolding read_int32
read_int32->>=-Safe k h = ensured->>=-Safe 4 _ (signed (2 ^ 31)) k get_u32-Loads h
