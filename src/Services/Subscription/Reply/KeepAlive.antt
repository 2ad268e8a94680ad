-- ===== src/Services/Subscription/Reply/KeepAlive.antt =====
-- The answer to a parked request where there is nothing to report.
use micro_opcua.Base.{
  ℕ, ◌≤◌, ◌≡◌, refl, inl, inr, false, Option, some, List, ◌++◌, length, take-append, drop,
  get_elem?, arith,
}
use micro_opcua.Base.Int.{ℤ}
use micro_opcua.Base.Outcome.{Outcome, ok}
use micro_opcua.Core.Server.{Connection, Server}
use micro_opcua.Core.Server.Emitted.{sent_state, Emitted, emit_message-Emitted}
use micro_opcua.Services.Subscription.Response.KeepAlive.{
  start_bytes, message_bytes, keep_alive_bytes, length-keep_alive_bytes,
  build_publish_response-keep_alive,
}
use micro_opcua.Services.SecureChannel.{mode_none}
use micro_opcua.Services.Subscription.{Subscription, PublishRequest}
use micro_opcua.Services.Subscription.Reply.{
  Surroundings, sent, body_buffer, message_of, publish_time_now, reply,
}

-- The message that is kept from a keep-alive.
abbrev pub message_kept : Subscription → PublishRequest → ℤ → Option (List ℕ)
message_kept sub request time =
    let start = start_bytes request.request_handle sub.subscription_id in
    message_of (length start) (length (start ++ message_bytes sub.sequence_number time))
      (keep_alive_bytes sub request time)

-- What answers the request, in a state where the connection is the active one.
pub reply-keep_alive :
    (around : Surroundings) (c : ℕ) (conn : Connection) (sub : Subscription)
    (request : PublishRequest) (server : Server)
    → server.active_conn ≡ some c
    → get_elem? server.conns c ≡ some conn
    → conn.secure_channel.mode ≡ mode_none
    → 117 ≤ length server.send_buffer
    → reply around sub request false 0 server
      ≡ ok (sent (message_kept sub request (publish_time_now around server))) (
          sent_state around.adapters c conn request.request_id
            (keep_alive_bytes sub request (publish_time_now around server))
            server)
unfolding reply
reply-keep_alive around c conn sub request server active connected plain room =
    let time : ℤ = publish_time_now around server in
    let bytes : List ℕ = keep_alive_bytes sub request time in
    rw
      (
        build_publish_response-keep_alive server.subs.monitored_items sub request time body_buffer
            (omega arith),
        take-append bytes (drop (length bytes) body_buffer),
        emitted_whole (
            emit_message-Emitted around.adapters request.request_id bytes server c conn
              (rw active refl) connected plain),
      )
      refl
  where
    emitted_whole :
        {r : Outcome Server (Unit {0})}
        → Emitted around.adapters c conn request.request_id
            (keep_alive_bytes sub request (publish_time_now around server))
            server
            r
        → r
          ≡ ok tt (
              sent_state around.adapters c conn request.request_id
                (keep_alive_bytes sub request (publish_time_now around server))
                server)
    emitted_whole (inl (fits, e)) = e
    emitted_whole (inr (short, e)) = absurd (
        omega (
          arith,
          short,
          room,
          length-keep_alive_bytes sub request (publish_time_now around server),
        ))
