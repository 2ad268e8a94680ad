-- ===== src/Core/TcpConnection/Ack.antt =====
-- What mu_tcp_process_hello does on any message.
use micro_opcua.Base.{
  ℕ, ◌≤◌, ◌≡◌, ◌≢◌, refl, inl, inr, Bool, true, false, not, ◌||◌, some, List, [], ◌++◌, length,
  drop, ltb, Bool-cases, arith,
}
use micro_opcua.Base.Status.{good, bad_tcpmessagetypeinvalid}
use micro_opcua.Base.Outcome.{Outcome, ok, err, fault, Prog, ◌>>◌, guard}
use micro_opcua.Base.Memory.{load_ok, store-append}
use micro_opcua.Encoding.Reader.{Reader, reader_init}
use micro_opcua.Encoding.Reader.Safety.{SafeOutcome, Safe, Stays-refl, >>=-Safe, >>-Safe, done-Safe}
use micro_opcua.Encoding.Reader.Safety.Primitives.{read_int32-Safe, read_uint32-Safe}
use micro_opcua.Encoding.Text.Safety.{read_string-Safe}
use micro_opcua.Core.TcpConnection.{
  established, Connection, Config, Hello, at_least, min_chunk_size, read_hello, negotiate,
  ack_bytes, HelloState, established_ack, write_ack, accept_hello, after_hello, read_and_accept,
  process_hello,
}
use micro_opcua.Core.TcpConnection.Negotiation.{IsNegotiated, negotiate-IsNegotiated}

guard-Safe : (b : Bool) (e : ℕ) → e ≢ good → Safe (guard b e)
guard-Safe true e h = record { run = λ r s. Stays-refl r }
guard-Safe false e h = record { run = λ r s. (Stays-refl r, h) }

pub read_hello-Safe : (n : ℕ) → Safe (read_hello n)
unfolding read_hello
read_hello-Safe n = >>=-Safe _ _ read_int32-Safe λ size.
    >>-Safe _ _ (guard-Safe _ _ (omega arith)) (
      >>=-Safe _ _ read_uint32-Safe λ version. >>=-Safe _ _ read_uint32-Safe λ receive.
        >>=-Safe _ _ read_uint32-Safe λ send. >>=-Safe _ _ read_uint32-Safe λ size.
          >>=-Safe _ _ read_uint32-Safe λ count. >>=-Safe _ _ read_string-Safe λ url. done-Safe _)

-- What an accepted HEL message leaves behind; `read` is what reading its body came to.
pub record IsAccepted (config : Config) (read : Outcome Reader Hello) (s t : HelloState)
    : Type 0 where
  pub state : t.connection.state ≡ established
  pub ack_length : t.ack_length ≡ 28
  pub ack : t.ack ≡ ack_bytes t.connection ++ drop 28 s.ack
  pub hello : Hello
  pub reader : Reader
  pub hello_read : read ≡ ok hello reader
  pub receive_min : min_chunk_size ≤ hello.receive_buffer_size
  pub send_min : min_chunk_size ≤ hello.send_buffer_size
  pub negotiated : IsNegotiated config hello t.connection

abbrev pub AckOutcome :
    Config → Outcome Reader Hello → HelloState → Outcome HelloState (Unit {0}) → Type 0
AckOutcome config read s (ok u t) = IsAccepted config read s t
AckOutcome config read s (err e t) =
    (e ≢ good) × (t.connection.state ≡ s.connection.state) × (t.ack ≡ s.ack)
AckOutcome config read s fault = ⊥

guard-AckOutcome :
    (config : Config) (read : Outcome Reader Hello) (s : HelloState) (b : Bool) (e : ℕ)
    (k : Prog HelloState (Unit {0}))
    → e ≢ good
    → (b ≡ true → AckOutcome config read s (k s))
    → AckOutcome config read s ((guard b e >> k) s)
guard-AckOutcome config read s true e k h f = f refl
guard-AckOutcome config read s false e k h f = (h, refl, refl)

-- The state is no negotiated value.
IsNegotiated-established :
    (config : Config) (h : Hello) (c : Connection)
    → IsNegotiated config h c
    → IsNegotiated config h (record c { state = established })
IsNegotiated-established config h c n = record {
  receive_peer = n.receive_peer;
  receive_own = n.receive_own;
  send_peer = n.send_peer;
  send_own = n.send_own;
  message_own = n.message_own;
  message_peer = n.message_peer;
  message_limited = n.message_limited;
  chunks_own = n.chunks_own;
  chunks_peer = n.chunks_peer;
  chunks_limited = n.chunks_limited;
}

write_ack-AckOutcome :
    (config : Config) (h : Hello) (r : Reader) (s : HelloState)
    → s.ack_length ≤ length s.ack
    → min_chunk_size ≤ h.receive_buffer_size
    → min_chunk_size ≤ h.send_buffer_size
    → AckOutcome config
        (ok h r)
        s
        (write_ack (record s { connection = negotiate config h s.connection }))
unfolding write_ack established_ack negotiate ack_bytes
write_ack-AckOutcome config h r s fits receive send = elim (Bool-cases (ltb s.ack_length 28)) [
  | inl e ↦ rw e (omega arith, refl, refl)
  | inr e ↦
      rw
        (
          e,
          store-append (ack_bytes (negotiate config h s.connection)) [] s.ack 0 refl (ground arith),
        )
        (record {
          state = refl;
          ack_length = refl;
          ack = refl;
          hello = h;
          reader = r;
          hello_read = refl;
          receive_min = receive;
          send_min = send;
          negotiated =
              IsNegotiated-established config h _ (negotiate-IsNegotiated config h s.connection);
        })
]

accept_hello-AckOutcome :
    (config : Config) (h : Hello) (r : Reader) (s : HelloState)
    → s.ack_length ≤ length s.ack
    → AckOutcome config (ok h r) s (accept_hello config h s)
unfolding accept_hello
accept_hello-AckOutcome config h r s fits =
    elim (Bool-cases (at_least 4096 h.endpoint_url.length)) [
      | inl e ↦ rw e (omega arith, refl, refl)
      | inr e ↦
          rw e
            (elim (Bool-cases
              (ltb h.receive_buffer_size min_chunk_size || ltb h.send_buffer_size min_chunk_size)) [
                | inl f ↦ rw f (omega arith, refl, refl)
                | inr f ↦
                    rw f (write_ack-AckOutcome config h r s fits (ground arith) (ground arith))
              ])
    ]

after_hello-AckOutcome :
    (config : Config) (r : Reader) (o : Outcome Reader Hello) (s : HelloState)
    → s.ack_length ≤ length s.ack
    → SafeOutcome r o
    → AckOutcome config o s (after_hello config o s)
unfolding after_hello
after_hello-AckOutcome config r (ok h t) s fits safe = accept_hello-AckOutcome config h t s fits
after_hello-AckOutcome config r (err e t) s fits safe = (safe.1, refl, refl)
after_hello-AckOutcome config r fault s fits safe = safe

abbrev pub hello_reader : List ℕ → ℕ → Reader
hello_reader message n = record (reader_init (some message) n) { position = 4 }

-- On every message of at least `n` bytes, and with a buffer for the answer of at least `*ack_length`
-- bytes, mu_tcp_process_hello stays in bounds. Where it succeeds, the connection is established, the answer
-- is the 28 bytes of the ACK with the negotiated values and `*ack_length` is 28, its body was read and named
-- buffers of at least 8192 bytes, and the values are within the limits of the message and the configuration. Where
-- it fails, the status is not MU_STATUS_GOOD, and the state of the connection and the answer are as before.
pub process_hello-AckOutcome :
    (config : Config) (message : List ℕ) (n : ℕ) (s : HelloState)
    → n ≤ length message
    → s.ack_length ≤ length s.ack
    → AckOutcome config (read_hello n (hello_reader message n)) s (process_hello config message n s)
unfolding process_hello read_and_accept
process_hello-AckOutcome config message n s fits room =
    guard-AckOutcome config (read_hello n (hello_reader message n)) s (not (ltb n 8)) _ _
      (omega arith)
      λ h.
        let (t0, e0) = load_ok {S = HelloState} message 0 (ground arith) in
        let (t1, e1) = load_ok {S = HelloState} message 1 (ground arith) in
        let (t2, e2) = load_ok {S = HelloState} message 2 (ground arith) in
        let (c, e3) = load_ok {S = HelloState} message 3 (ground arith) in
        rw (e0 s, e1 s, e2 s, e3 s)
          (guard-AckOutcome config (read_hello n (hello_reader message n)) s _
            bad_tcpmessagetypeinvalid (read_and_accept config message n) (omega arith)
            λ k.
              after_hello-AckOutcome config (hello_reader message n) _ s room
                ((read_hello-Safe n).run (hello_reader message n) fits))
