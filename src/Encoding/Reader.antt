-- ===== src/Encoding/Reader.antt =====
-- src/encoding/binary_reader.c and the readers of src/encoding/binary_le.h: the primitive decoders.
-- A reader is a state that is passed on; its buffer is the memory behind the pointer, `none` for NULL.
pub mod Safety
pub mod Decodes
use micro_opcua.Base.{
  ℕ, ◌+◌, ◌-◌, ◌*◌, ◌^◌, Bool, true, false, ◌&&◌, not, Option, none, some, List, leb, ltb, ◌==◌,
  if◌then◌else◌, get_elem?, length, take, drop,
}
use micro_opcua.Base.Int.{ℤ, pos, negsuc, signed}
use micro_opcua.Base.Status.{good, bad_internalerror, bad_decodingerror}
use micro_opcua.Base.Outcome.{ok, err, fault, Prog, ◌>>=◌, ◌>>◌, done}

-- mu_binary_reader_t
pub record Reader : Type 0 where
  pub buffer : Option (List ℕ)
  pub length : ℕ
  pub position : ℕ
  pub status : ℕ

abbrev pub reader_init : Option (List ℕ) → ℕ → Reader
reader_init buffer length = record { buffer = buffer; length = length; position = 0; status = good }

abbrev pub is_null {ℓ} : {A : Type ℓ} → Option A → Bool
is_null none = true
is_null (some a) = false

abbrev pub reader_fail : {A : Type 0} → ℕ → Prog Reader A
reader_fail e r = err e (record r { status = e })

pub ensure_bytes : ℕ → Prog Reader (Unit {0})
ensure_bytes count r =
    if r.status == good
      && not (is_null r.buffer)
      && leb r.position r.length
      && leb count (r.length - r.position)
    then ok tt r
    else if not (r.status == good)
    then err r.status r
    else if is_null r.buffer
    then reader_fail bad_internalerror r
    else reader_fail bad_decodingerror r

-- reader->buffer[reader->position + k]
abbrev load : Option (List ℕ) → ℕ → Prog Reader ℕ
load none i r = fault
load (some bytes) i r = elim (get_elem? bytes i) [ none ↦ fault | some b ↦ ok b r ]

pub byte_at : ℕ → Prog Reader ℕ
byte_at k r = load r.buffer (r.position + k) r

-- reader->position += n
unfoldable pub advance : ℕ → Prog Reader (Unit {0})
advance n r = ok tt (record r { position = r.position + n })

-- The bytes at reader->buffer + reader->position, to which a decoded string points.
abbrev span : Option (List ℕ) → ℕ → ℕ → Prog Reader (List ℕ)
span none i n r = fault
span (some bytes) i n r = if leb (i + n) (length bytes) then ok (take n (drop i bytes)) r else fault

pub bytes_at : ℕ → Prog Reader (List ℕ)
bytes_at n r = span r.buffer r.position n r

-- The shifted operands of `|` are bytes at different places, so that `|` is their sum.
pub get_u16 : Prog Reader ℕ
get_u16 = do b0 ← byte_at 0; b1 ← byte_at 1; done (b0 + b1 * 2 ^ 8)

pub get_u32 : Prog Reader ℕ
get_u32 = do
  b0 ← byte_at 0
  b1 ← byte_at 1
  b2 ← byte_at 2
  b3 ← byte_at 3
  done (b0 + b1 * 2 ^ 8 + b2 * 2 ^ 16 + b3 * 2 ^ 24)

pub get_u64 : Prog Reader ℕ
get_u64 = do
  b0 ← byte_at 0
  b1 ← byte_at 1
  b2 ← byte_at 2
  b3 ← byte_at 3
  b4 ← byte_at 4
  b5 ← byte_at 5
  b6 ← byte_at 6
  b7 ← byte_at 7
  done (
      b0
      + b1 * 2 ^ 8
      + b2 * 2 ^ 16
      + b3 * 2 ^ 24
      + b4 * 2 ^ 32
      + b5 * 2 ^ 40
      + b6 * 2 ^ 48
      + b7 * 2 ^ 56)

pub read_byte : Prog Reader ℕ
read_byte = do ensure_bytes 1; b ← byte_at 0; advance 1; done b

pub read_boolean : Prog Reader Bool
read_boolean = do ensure_bytes 1; b ← byte_at 0; advance 1; done (not (b == 0))

pub read_sbyte : Prog Reader ℤ
read_sbyte = do ensure_bytes 1; b ← byte_at 0; advance 1; done (signed (2 ^ 7) b)

pub read_uint16 : Prog Reader ℕ
read_uint16 = do ensure_bytes 2; v ← get_u16; advance 2; done v

pub read_int16 : Prog Reader ℤ
read_int16 = do ensure_bytes 2; v ← get_u16; advance 2; done (signed (2 ^ 15) v)

pub read_uint32 : Prog Reader ℕ
read_uint32 = do ensure_bytes 4; v ← get_u32; advance 4; done v

pub read_int32 : Prog Reader ℤ
read_int32 = do ensure_bytes 4; v ← get_u32; advance 4; done (signed (2 ^ 31) v)

pub read_uint64 : Prog Reader ℕ
read_uint64 = do ensure_bytes 8; v ← get_u64; advance 8; done v

pub read_int64 : Prog Reader ℤ
read_int64 = do ensure_bytes 8; v ← get_u64; advance 8; done (signed (2 ^ 63) v)

-- A float is its bit pattern, which memcpy moves.
pub read_float : Prog Reader ℕ
read_float = read_uint32

pub read_double : Prog Reader ℕ
read_double = read_uint64

pub read_statuscode : Prog Reader ℕ
read_statuscode = read_uint32

-- SIZE_MAX of a 32-bit target.
abbrev pub size_max : ℕ
size_max = 2 ^ 32 - 1

-- decoded_length < -1 || (decoded_length > 0 && decoded_length > SIZE_MAX - position)
abbrev bad_array_length : ℤ → ℕ → Bool
bad_array_length (pos n) position = ltb 0 n && ltb (size_max - position) n
bad_array_length (negsuc n) position = ltb 0 n

abbrev check_array_length : ℤ → Prog Reader ℤ
check_array_length n r =
    if bad_array_length n r.position then reader_fail bad_decodingerror r else ok n r

pub read_array_length : Prog Reader ℤ
read_array_length = do
  ensure_bytes 4
  v ← get_u32
  advance 4
  check_array_length (signed (2 ^ 31) v)
