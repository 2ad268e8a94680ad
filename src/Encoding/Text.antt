-- ===== src/Encoding/Text.antt =====
-- src/encoding/binary_string.c and mu_string_t of include/muc_opcua/types.h: String and ByteString.
pub mod Safety
pub mod RoundTrip
use micro_opcua.Base.{
  ℕ, ◌+◌, ◌-◌, Bool, true, false, Option, none, some, List, leb, ltb, if◌then◌else◌, length, take,
}
use micro_opcua.Base.Int.{ℤ, pos, negsuc, minus_one, eq_ℤ, is_negative}
use micro_opcua.Base.Status.{bad_decodingerror, bad_encodingerror, bad_encodinglimitsexceeded}
use micro_opcua.Base.Outcome.{ok, err, fault, Prog, ◌>>=◌, ◌>>◌, done, fails}
use micro_opcua.Encoding.Reader.{Reader, reader_fail, read_int32, bytes_at}
use micro_opcua.Encoding.Reader
use micro_opcua.Encoding.Writer.{Writer, write_int32, put_bytes}
use micro_opcua.Encoding.Writer

-- mu_string_t and mu_bytestring_t: the bytes behind `data`, `none` for NULL.
pub record Str : Type 0 where
  pub length : ℤ
  pub bytes : Option (List ℕ)

-- MU_MAX_ENCODED_STRING_LENGTH
abbrev pub max_encoded_string_length : ℕ
max_encoded_string_length = 4096

abbrev pub null_str : Str
null_str = record { length = minus_one; bytes = none }

-- length > n
abbrev exceeds : ℤ → ℕ → Bool
exceeds (pos k) n = ltb n k
exceeds (negsuc k) n = false

pub ensure_string_payload : ℤ → Prog Reader (Unit {0})
ensure_string_payload (negsuc k) r = ok tt r
ensure_string_payload (pos n) r =
    if leb n 0
    then ok tt r
    else if ltb r.length r.position
    then reader_fail bad_decodingerror r
    else if ltb (r.length - r.position) n
    then reader_fail bad_decodingerror r
    else ok tt r

-- value->data = reader->buffer + reader->position; reader->position += length
read_payload : ℕ → Prog Reader Str
read_payload n = do
  s ← bytes_at n
  Reader.advance n
  done (record { length = pos n; bytes = some s })

-- What follows once the length is read.
read_str_of_length : ℤ → Prog Reader Str
unfolding ensure_string_payload read_payload
read_str_of_length (negsuc k) =
    if eq_ℤ (negsuc k) minus_one then done null_str else fails bad_decodingerror
read_str_of_length (pos n) =
    if ltb max_encoded_string_length n
    then fails bad_encodinglimitsexceeded
    else (ensure_string_payload (pos n) >> read_payload n)

pub read_string : Prog Reader Str
unfolding read_str_of_length
read_string = do n ← read_int32; read_str_of_length n

-- memcpy(writer->buffer + writer->position, value->data, n)
copy_str : ℕ → Option (List ℕ) → Prog Writer (Unit {0})
copy_str n none w = fault
copy_str n (some bytes) w = if leb n (length bytes) then put_bytes 0 (take n bytes) w else fault

write_payload : ℕ → Option (List ℕ) → Prog Writer (Unit {0})
unfolding copy_str
write_payload n bytes w =
    if ltb 0 n
    then if ltb w.length (w.position + n)
      then err bad_encodingerror w
      else (do copy_str n bytes; Writer.advance n) w
    else ok tt w

write_str_of_length : ℤ → Option (List ℕ) → Prog Writer (Unit {0})
unfolding write_payload
write_str_of_length (negsuc k) bytes =
    if eq_ℤ (negsuc k) minus_one then write_int32 minus_one else fails bad_encodingerror
write_str_of_length (pos n) bytes =
    if ltb max_encoded_string_length n
    then fails bad_encodinglimitsexceeded
    else (write_int32 (pos n) >> write_payload n bytes)

-- `none` for a NULL pointer to the string.
pub write_string : Option Str → Prog Writer (Unit {0})
unfolding write_str_of_length
write_string none = write_int32 minus_one
write_string (some s) = write_str_of_length s.length s.bytes

pub read_bytestring : Prog Reader Str
read_bytestring = read_string

pub write_bytestring : Option Str → Prog Writer (Unit {0})
write_bytestring s = write_string s
