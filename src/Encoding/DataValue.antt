-- ===== src/Encoding/DataValue.antt =====
-- src/encoding/binary_datavalue.c and mu_datavalue_t of include/muc_opcua/types.h.
pub mod Safety
pub mod RoundTrip
use micro_opcua.Base.{ℕ, ◌+◌, Bool, true, false, Option, none, some}
use micro_opcua.Base.Int.{ℤ}
use micro_opcua.Base.Status.{bad_encodingerror}
use micro_opcua.Base.Outcome.{Prog, ◌>>=◌, ◌>>◌, done, fails}
use micro_opcua.Encoding.Reader.{Reader, read_byte, read_uint16, read_int64, read_statuscode}
use micro_opcua.Encoding.Writer.{Writer, write_byte, write_int64, write_statuscode}
use micro_opcua.Encoding.NodeId.{bit}
use micro_opcua.Encoding.Variant.{Variant, read_variant, write_variant}

-- mu_datavalue_t: a `has_…` flag and its field are an option.
pub record DataValue : Type 0 where
  pub value : Option Variant
  pub status : Option ℕ
  pub source_timestamp : Option ℤ
  pub server_timestamp : Option ℤ

read_option : {A : Type 0} → Bool → Prog Reader A → Prog Reader (Option A)
read_option true m = do a ← m; done (some a)
read_option false m = done none

-- The picoseconds, which are read and dropped.
abbrev skip_pico : Bool → Prog Reader (Unit {0})
skip_pico true = do pico ← read_uint16; done tt
skip_pico false = done tt

read_fields : ℕ → Prog Reader DataValue
unfolding read_option
read_fields encoding_mask = do
  value ← read_option (bit 0 encoding_mask) read_variant
  status ← read_option (bit 1 encoding_mask) read_statuscode
  source ← read_option (bit 2 encoding_mask) read_int64
  skip_pico (bit 4 encoding_mask)
  server ← read_option (bit 3 encoding_mask) read_int64
  skip_pico (bit 5 encoding_mask)
  done (record {
    value = value;
    status = status;
    source_timestamp = source;
    server_timestamp = server;
  })

pub read_datavalue : Prog Reader DataValue
unfolding read_fields
read_datavalue = do encoding_mask ← read_byte; read_fields encoding_mask

abbrev has : {A : Type 0} → Option A → Bool
has none = false
has (some a) = true

abbrev flag : Bool → ℕ → ℕ
flag true n = n
flag false n = 0

abbrev datavalue_mask : DataValue → ℕ
datavalue_mask v =
    flag (has v.value) 1
    + flag (has v.status) 2
    + flag (has v.source_timestamp) 4
    + flag (has v.server_timestamp) 8

write_option : {A : Type 0} → (A → Prog Writer (Unit {0})) → Option A → Prog Writer (Unit {0})
write_option m none = done tt
write_option m (some a) = m a

-- `none` for a NULL pointer.
pub write_datavalue : Option DataValue → Prog Writer (Unit {0})
unfolding write_option
write_datavalue none = fails bad_encodingerror
write_datavalue (some v) = do
  write_byte (datavalue_mask v)
  write_option (λ x. write_variant (some x)) v.value
  write_option write_statuscode v.status
  write_option write_int64 v.source_timestamp
  write_option write_int64 v.server_timestamp
