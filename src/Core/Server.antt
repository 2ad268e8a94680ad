-- ===== src/Core/Server.antt =====
-- src/core/server.c and server_internal.h, with MUC_OPCUA_MULTIPLE_CONNECTIONS and MUC_OPCUA_SECURITY: the part
-- of the server's state that the publishing of notifications reads and changes, and mu_server_emit_message.
pub mod Emitted
use micro_opcua.Base.{
  ℕ, zero, suc, ◌+◌, ◌-◌, ◌%◌, ◌^◌, Bool, true, false, not, ◌&&◌, ◌||◌, Option, none, some, List,
  [], ◌∷◌, length, take, set, get_elem?, ltb, ◌==◌, if◌then◌else◌,
}
use micro_opcua.Base.Status.{
  good, bad_securechannelidinvalid, bad_securitychecksfailed, bad_responsetoolarge,
}
use micro_opcua.Base.Outcome.{Outcome, ok, err, fault, Prog, ◌>>◌}
use micro_opcua.Base.Memory.{store}
use micro_opcua.Core.Uasc.{finalize_symmetric}
use micro_opcua.Core.MessageChunk.{uasc_symmetric_header_size}
use micro_opcua.Services.SecureChannel.{Channel, mode_none}
use micro_opcua.Services.Session.{Session}
use micro_opcua.Services.Subscription.{Engine}

-- mu_connection_t; `none` for a client_handle of NULL.
pub record Connection : Type 0 where
  pub client_handle : Option ℕ
  pub secure_channel : Channel

-- The calls of tcp_adapter.write and tcp_adapter.close_connection.
pub data Event : Type 0 where
  wrote : Option ℕ → List ℕ → Event
  closed : Option ℕ → Event

-- mu_server_t; `wire` has the calls of the TCP adapter, the last one first, and `send_buffer` is
-- config.send_buffer, of config.send_buffer_size bytes.
pub record Server : Type 0 where
  pub conns : List Connection
  pub active_conn : Option ℕ
  pub active_session : Option ℕ
  pub sessions : List Session
  pub send_buffer : List ℕ
  pub wire : List Event
  pub subs : Engine

-- tcp_adapter.write, by the calls before it: its status and the number of bytes written. `has_crypto` is whether
-- there is a crypto adapter, and `wrap` is mu_sym_chunk_wrap with the channel, the request id, the body and the
-- send buffer.
pub record Adapters : Type 0 where
  pub tcp_write : List Event → Option ℕ → List ℕ → ℕ × ℕ
  pub has_crypto : Bool
  pub wrap : Channel → ℕ → List ℕ → Prog (List ℕ) ℕ

abbrev pub after_write : ℕ → Connection → List ℕ → ℕ → ℕ × ℕ → Server → Server
after_write i conn bytes total (status, written) server =
    if status == good && written == total
    then record server { wire = Event.wrote conn.client_handle bytes ∷ server.wire }
    else record server {
      wire = Event.closed conn.client_handle ∷ Event.wrote conn.client_handle bytes ∷ server.wire;
      conns = set server.conns i (record conn { client_handle = none });
    }

-- send_buffer_chunk on connection `i`
abbrev pub send_buffer_chunk : Adapters → ℕ → Connection → ℕ → Server → Server
send_buffer_chunk adapters i conn total server =
    let bytes = take total server.send_buffer in
    after_write i conn bytes total (adapters.tcp_write server.wire conn.client_handle bytes) server

-- ++server_secure_channel.out_sequence_number
abbrev pub next_out : Connection → Connection
next_out conn = record conn {
  secure_channel = record conn.secure_channel {
    out_sequence_number = (conn.secure_channel.out_sequence_number + 1) % 2 ^ 32;
  };
}

-- A chunk that was put into the send buffer, or not, after the sequence number was taken.
abbrev pub send_chunk :
    Adapters → ℕ → Connection → Server → Outcome (List ℕ) ℕ → Outcome Server (Unit {0})
send_chunk adapters i conn server (ok total buffer) = ok tt (
    send_buffer_chunk adapters i conn total
      (record server { send_buffer = buffer; conns = set server.conns i conn }))
send_chunk adapters i conn server (err e buffer) =
    err e (record server { send_buffer = buffer; conns = set server.conns i conn })
send_chunk adapters i conn server fault = fault

abbrev pub exceeds : ℕ → ℕ → Bool
exceeds body_len size =
    ltb size body_len
    || (ltb size uasc_symmetric_header_size || ltb (size - uasc_symmetric_header_size) body_len)

-- memcpy(server->config.send_buffer + MU_UASC_SYMMETRIC_HEADER_SIZE, body, body_len) and
-- mu_uasc_finalize_symmetric
abbrev pub plain_chunk : ℕ → Channel → ℕ → List ℕ → Prog (List ℕ) ℕ
plain_chunk size channel request_id body =
    store uasc_symmetric_header_size body
    >> finalize_symmetric size channel.channel_id channel.token_id channel.out_sequence_number
        request_id (length body)

abbrev pub emit_plain : Adapters → ℕ → Connection → ℕ → List ℕ → Prog Server (Unit {0})
emit_plain adapters i conn request_id body server =
    if exceeds (length body) (length server.send_buffer)
    then err bad_responsetoolarge server
    else send_chunk adapters i (next_out conn) server (
        plain_chunk (length server.send_buffer) (next_out conn).secure_channel request_id body
          server.send_buffer)

abbrev pub emit_secured : Adapters → ℕ → Connection → ℕ → List ℕ → Prog Server (Unit {0})
emit_secured adapters i conn request_id body server =
    if not adapters.has_crypto || not conn.secure_channel.keys_valid
    then err bad_securitychecksfailed server
    else send_chunk adapters i (next_out conn) server
        (adapters.wrap (next_out conn).secure_channel request_id body server.send_buffer)

abbrev pub is_connected : Option ℕ → Bool
is_connected none = false
is_connected (some h) = true

-- The first connection with a client and the channel, from index `i` on.
unfoldable pub connection_from : ℕ → ℕ → List Connection → Option ℕ
connection_from channel i [] = none
connection_from channel i (conn ∷ conns) =
    let rest = connection_from channel (suc i) conns in
    if is_connected conn.client_handle && conn.secure_channel.channel_id == channel
    then some i
    else rest

abbrev pub of_session : List Connection → Option Session → Option ℕ
of_session conns none = none
of_session conns (some session) = connection_from session.secure_channel_id 0 conns

abbrev session_at : List Session → Option ℕ → Option Session
session_at sessions none = none
session_at sessions (some i) = get_elem? sessions i

-- The active connection, or else that of the active session.
abbrev pub emission_connection : Server → Option ℕ
emission_connection server = resolve server.active_conn
  where
    resolve : Option ℕ → Option ℕ
    resolve none = of_session server.conns (session_at server.sessions server.active_session)
    resolve (some i) = some i

abbrev pub emit_on : Adapters → ℕ → Option Connection → ℕ → List ℕ → Prog Server (Unit {0})
emit_on adapters i none request_id body server = fault
emit_on adapters i (some conn) request_id body server =
    if conn.secure_channel.mode == mode_none
    then emit_plain adapters i conn request_id body server
    else emit_secured adapters i conn request_id body server

abbrev pub emit_from : Adapters → Option ℕ → ℕ → List ℕ → Prog Server (Unit {0})
emit_from adapters none request_id body server = err bad_securechannelidinvalid server
emit_from adapters (some i) request_id body server =
    emit_on adapters i (get_elem? server.conns i) request_id body
      (record server { active_conn = some i })

-- mu_server_emit_message
unfoldable pub emit_message : Adapters → ℕ → List ℕ → Prog Server (Unit {0})
unfolding connection_from
emit_message adapters request_id body server =
    emit_from adapters (emission_connection server) request_id body server
