-- ===== src/Core/TcpConnection.antt =====
-- src/core/tcp_connection.c and tcp_connection.h: the negotiation of HEL and ACK, and the ERR message.
pub mod Negotiation
pub mod Ack
pub mod ErrorMessage
use micro_opcua.Base.{
  ℕ, zero, suc, ◌+◌, ◌*◌, ◌%◌, ◌^◌, Bool, true, false, not, ◌&&◌, ◌||◌, Option, none, some, List,
  [], ◌∷◌, ◌++◌, length, leb, ltb, ◌==◌, if◌then◌else◌,
}
use micro_opcua.Base.Int.{ℤ, pos, negsuc, signed}
use micro_opcua.Base.Status.{
  good, bad_internalerror, bad_tcpmessagetoolarge, bad_tcpmessagetypeinvalid,
  bad_tcpendpointurlinvalid, bad_tcpnotenoughresources,
}
use micro_opcua.Base.Outcome.{Outcome, ok, err, fault, Prog, ◌>>=◌, ◌>>◌, done, fails, guard}
use micro_opcua.Base.Memory.{load, store}
use micro_opcua.Encoding.Le.{le_u32}
use micro_opcua.Encoding.Reader.{Reader, reader_init, read_int32, read_uint32}
use micro_opcua.Encoding.Writer.{Writer, writer_init}
use micro_opcua.Encoding.Text.{Str, read_string, write_string}

-- mu_tcp_state_t
pub data TcpState : Type 0 where
  closed connected established : TcpState

-- mu_tcp_connection_t
pub record Connection : Type 0 where
  pub state : TcpState
  pub receive_buffer_size : ℕ
  pub send_buffer_size : ℕ
  pub max_message_size : ℕ
  pub max_chunk_count : ℕ
  pub protocol_version : ℕ

pub tcp_connection_init : Connection
tcp_connection_init = record {
  state = closed;
  receive_buffer_size = 0;
  send_buffer_size = 0;
  max_message_size = 0;
  max_chunk_count = 0;
  protocol_version = 0;
}

-- The members of mu_server_config_t that the negotiation uses.
pub record Config : Type 0 where
  pub receive_buffer_size : ℕ
  pub send_buffer_size : ℕ
  pub max_message_size : ℕ
  pub max_chunk_count : ℕ

-- The body of a HEL message.
pub record Hello : Type 0 where
  pub protocol_version : ℕ
  pub receive_buffer_size : ℕ
  pub send_buffer_size : ℕ
  pub max_message_size : ℕ
  pub max_chunk_count : ℕ
  pub endpoint_url : Str

-- MU_MIN_CHUNK_SIZE
abbrev pub min_chunk_size : ℕ
min_chunk_size = 8192

-- a > b of Int32
abbrev pub gt_ℤ : ℤ → ℤ → Bool
gt_ℤ (pos a) (pos b) = ltb b a
gt_ℤ (pos a) (negsuc b) = true
gt_ℤ (negsuc a) (pos b) = false
gt_ℤ (negsuc a) (negsuc b) = ltb a b

-- length >= n
abbrev pub at_least : ℕ → ℤ → Bool
at_least n (pos k) = leb n k
at_least n (negsuc k) = false

-- From the message size on; `length` is cast to Int32.
pub read_hello : ℕ → Prog Reader Hello
read_hello length = do
  message_size ← read_int32
  guard (not (gt_ℤ message_size (signed (2 ^ 31) (length % 2 ^ 32)))) bad_tcpmessagetoolarge
  protocol_version ← read_uint32
  receive_buffer_size ← read_uint32
  send_buffer_size ← read_uint32
  max_message_size ← read_uint32
  max_chunk_count ← read_uint32
  endpoint_url ← read_string
  done (record {
    protocol_version = protocol_version;
    receive_buffer_size = receive_buffer_size;
    send_buffer_size = send_buffer_size;
    max_message_size = max_message_size;
    max_chunk_count = max_chunk_count;
    endpoint_url = endpoint_url;
  })

abbrev smaller : ℕ → ℕ → ℕ
smaller a b = if ltb a b then a else b

abbrev unless_zero : ℕ → ℕ → ℕ
unless_zero n other = if n == 0 then other else n

-- "Negotiate values"; the buffer sizes of the configuration are cast to UInt32.
pub negotiate : Config → Hello → Connection → Connection
negotiate config h c = record c {
  protocol_version = h.protocol_version;
  receive_buffer_size = smaller h.receive_buffer_size (config.send_buffer_size % 2 ^ 32);
  send_buffer_size = smaller h.send_buffer_size (config.receive_buffer_size % 2 ^ 32);
  max_message_size =
      unless_zero (smaller h.max_message_size config.max_message_size) config.max_message_size;
  max_chunk_count =
      unless_zero (smaller h.max_chunk_count config.max_chunk_count) config.max_chunk_count;
}

pub ack_bytes : Connection → List ℕ
ack_bytes c =
    b'A'
    ∷ b'C'
    ∷ b'K'
    ∷ b'F'
    ∷ (le_u32 28
        ++ (le_u32 0
            ++ (le_u32 c.send_buffer_size
                ++ (le_u32 c.receive_buffer_size
                    ++ (le_u32 c.max_message_size ++ le_u32 c.max_chunk_count)))))

-- `*connection`, the buffer `ack_message` and `*ack_length`.
pub record HelloState : Type 0 where
  pub connection : Connection
  pub ack : List ℕ
  pub ack_length : ℕ

established_ack : HelloState → Outcome (List ℕ) (Unit {0}) → Outcome HelloState (Unit {0})
established_ack s (ok u ack) = ok tt (record {
  connection = record (s.connection) { state = established };
  ack = ack;
  ack_length = 28;
})
established_ack s (err e ack) = err e (record s { ack = ack })
established_ack s fault = fault

write_ack : Prog HelloState (Unit {0})
unfolding established_ack ack_bytes
write_ack s =
    if ltb s.ack_length 28
    then err bad_internalerror s
    else established_ack s (store 0 (ack_bytes s.connection) s.ack)

accept_hello : Config → Hello → Prog HelloState (Unit {0})
unfolding write_ack negotiate
accept_hello config h s =
    if at_least 4096 h.endpoint_url.length
    then err bad_tcpendpointurlinvalid s
    else if ltb h.receive_buffer_size min_chunk_size || ltb h.send_buffer_size min_chunk_size
    then err bad_tcpnotenoughresources s
    else write_ack (record s { connection = negotiate config h s.connection })

-- The reader is local to the function.
after_hello : Config → Outcome Reader Hello → Prog HelloState (Unit {0})
unfolding accept_hello
after_hello config (ok h r) s = accept_hello config h s
after_hello config (err e r) s = err e s
after_hello config fault s = fault

read_and_accept : Config → List ℕ → ℕ → Prog HelloState (Unit {0})
unfolding after_hello read_hello
read_and_accept config message length =
    after_hello config
      (read_hello length (record (reader_init (some message) length) { position = 4 }))

-- The four loads of the test; `||` stops at the first difference, the loads are in bounds in any case.
pub process_hello : Config → List ℕ → ℕ → Prog HelloState (Unit {0})
unfolding read_and_accept
process_hello config message length = do
  guard (not (ltb length 8)) bad_tcpmessagetoolarge
  t0 ← load message 0
  t1 ← load message 1
  t2 ← load message 2
  c ← load message 3
  guard (t0 == b'H' && t1 == b'E' && t2 == b'L' && c == b'F') bad_tcpmessagetypeinvalid
  read_and_accept config message length

-- strlen(reason), 0 for NULL
abbrev pub reason_length : Option (List ℕ) → ℕ
reason_length none = 0
reason_length (some reason) = length reason

abbrev pub reason_str : Option (List ℕ) → Str
reason_str reason = record { length = pos (reason_length reason); bytes = reason }

abbrev memory_of : Option (List ℕ) → List ℕ
memory_of none = []
memory_of (some m) = m

-- The writer is local to the function; what it wrote is in the buffer.
finish_error : Outcome Writer (Unit {0}) → Outcome (List ℕ) ℕ
finish_error (ok u w) = ok w.position (memory_of w.buffer)
finish_error (err e w) = err e (memory_of w.buffer)
finish_error fault = fault

write_reason : Option (List ℕ) → ℕ → Prog (List ℕ) ℕ
unfolding finish_error
write_reason reason err_length m = finish_error (
    write_string (some (reason_str reason))
      (record (writer_init (some m) err_length) { position = 12 }))

pub error_header_bytes : ℕ → ℕ → List ℕ
error_header_bytes total_len error_code =
    b'E' ∷ b'R' ∷ b'R' ∷ b'F' ∷ (le_u32 total_len ++ le_u32 error_code)

-- The state is the buffer `err_message`; the result is the new `*err_length`.
pub create_error_message : ℕ → Option (List ℕ) → ℕ → Prog (List ℕ) ℕ
unfolding write_reason error_header_bytes
create_error_message error_code reason err_length =
    let total_len = 16 + reason_length reason in
    if ltb err_length total_len
    then fails bad_internalerror
    else do store 0 (error_header_bytes total_len error_code); write_reason reason err_length
