-- ===== src/Core/Server/Emitted.antt =====
-- What mu_server_emit_message sends on a connection without security.
use micro_opcua.Base.{
  ◌&&◌, ◌∷◌, ◌==◌, ℕ, ◌+◌, ◌≤◌, ◌<◌, ◌≡◌, refl, sym, ap, ◌∙◌, ◌⊎◌, inl, inr, Option, some, List, [],
  ◌++◌, append_assoc, length, length-append, length-take, length-drop, take, drop, take-append-drop,
  drop-append, take-append, drop-drop, get_elem?, set, arith, le→ltb_false, ==_iff, Bool-cases,
}
use micro_opcua.Base.Status.{good, bad_responsetoolarge}
use micro_opcua.Base.Outcome.{Outcome, ok, err}
use micro_opcua.Base.Memory.{store, store-append}
use micro_opcua.Core.Uasc.{symmetric_header_bytes, finalize_symmetric}
use micro_opcua.Core.Server.{
  Event, Connection, Server, Adapters, after_write, next_out, exceeds, plain_chunk, emit_plain,
  emit_on, emission_connection, emit_message,
}
use micro_opcua.Services.SecureChannel.{Channel, mode_none}

-- The header and the body.
abbrev pub chunk_bytes : Channel → ℕ → List ℕ → List ℕ
chunk_bytes channel request_id body =
    symmetric_header_bytes (24 + length body) channel.channel_id channel.token_id
      channel.out_sequence_number request_id
    ++ body

pub plain_chunk-written :
    (channel : Channel) (request_id : ℕ) (body m : List ℕ)
    → 24 + length body ≤ length m
    → plain_chunk (length m) channel request_id body m
      ≡ ok (24 + length body) (chunk_bytes channel request_id body ++ drop (24 + length body) m)
unfolding finalize_symmetric symmetric_header_bytes
plain_chunk-written channel request_id body m h =
    let before : length (take 24 m) ≡ 24 = length-take 24 m ∙ omega (arith, h) in
    let rest : List ℕ = drop 24 m in
    let stored : store 24 body m ≡ ok tt (take 24 m ++ (body ++ drop (length body) rest)) =
      ap (store 24 body) (sym (take-append-drop 24 m))
      ∙ store-append body (take 24 m) rest 24 (sym before) (omega (arith, length-drop 24 m, h)) in
    let behind : drop 24 (take 24 m ++ (body ++ drop (length body) rest))
        ≡ body ++ drop (24 + length body) m =
      ap (λ n. drop n (take 24 m ++ (body ++ drop (length body) rest))) (sym before)
      ∙ drop-append (take 24 m) (body ++ drop (length body) rest)
      ∙ ap (λ r. body ++ r) (drop-drop (length body) 24 m) in
    let header : List ℕ =
      symmetric_header_bytes (24 + length body) channel.channel_id channel.token_id
        channel.out_sequence_number request_id in
    rw (
      stored,
      le→ltb_false (length m) (24 + length body) h,
      store-append header [] (take 24 m ++ (body ++ drop (length body) rest)) 0 refl
          (omega (arith, before, length-append (take 24 m) (body ++ drop (length body) rest))),
      behind,
      append_assoc header body (drop (24 + length body) m),
    )

-- The server before the chunk is handed to the TCP adapter.
abbrev pub loaded_state : ℕ → Connection → ℕ → List ℕ → Server → Server
loaded_state i conn request_id body server = record server {
  active_conn = some i;
  send_buffer =
      chunk_bytes (next_out conn).secure_channel request_id body
      ++ drop (24 + length body) server.send_buffer;
  conns = set server.conns i (next_out conn);
}

-- The server once the chunk was handed to the TCP adapter, whose answer decides whether the connection stays.
abbrev pub sent_state : Adapters → ℕ → Connection → ℕ → List ℕ → Server → Server
sent_state adapters i conn request_id body server =
    let chunk = chunk_bytes (next_out conn).secure_channel request_id body in
    after_write i (next_out conn) chunk (24 + length body)
      (adapters.tcp_write server.wire conn.client_handle chunk)
      (loaded_state i conn request_id body server)

abbrev pub Emitted :
    Adapters → ℕ → Connection → ℕ → List ℕ → Server → Outcome Server (Unit {0}) → Type 0
Emitted adapters i conn request_id body server r =
    ((24 + length body ≤ length server.send_buffer)
      × (r ≡ ok tt (sent_state adapters i conn request_id body server)))
    ⊎ ((length server.send_buffer < 24 + length body)
        × (r ≡ err bad_responsetoolarge (record server { active_conn = some i })))

length-chunk_bytes :
    (channel : Channel) (request_id : ℕ) (body : List ℕ)
    → length (chunk_bytes channel request_id body) ≡ 24 + length body
unfolding symmetric_header_bytes
length-chunk_bytes channel request_id body = omega arith

chunk_taken :
    (channel : Channel) (request_id : ℕ) (body rest : List ℕ)
    → take (24 + length body) (chunk_bytes channel request_id body ++ rest)
      ≡ chunk_bytes channel request_id body
chunk_taken channel request_id body rest =
    ap (λ n. take n (chunk_bytes channel request_id body ++ rest))
      (sym (length-chunk_bytes channel request_id body))
    ∙ take-append (chunk_bytes channel request_id body) rest

-- Sending a chunk logs it, and leaves the subscriptions.
pub sent_state-wire :
    (adapters : Adapters) (c : ℕ) (conn : Connection) (request_id : ℕ) (body : List ℕ)
    (server : Server)
    → ((sent_state adapters c conn request_id body server).subs ≡ server.subs)
      × ((closing : List Event) × ((sent_state adapters c conn request_id body server).wire
            ≡ closing
              ++ Event.wrote conn.client_handle
                  (chunk_bytes (next_out conn).secure_channel request_id body)
                ∷ server.wire))
sent_state-wire adapters c conn request_id body server = by_answer (
    adapters.tcp_write server.wire conn.client_handle
      (chunk_bytes (next_out conn).secure_channel request_id body))
  where
    by_answer :
        (a : ℕ × ℕ)
        → ((after_write c
              (next_out conn)
              (chunk_bytes (next_out conn).secure_channel request_id body)
              (24 + length body)
              a
              (loaded_state c conn request_id body server)).subs
            ≡ server.subs)
          × ((closing : List Event) × ((after_write c
                  (next_out conn)
                  (chunk_bytes (next_out conn).secure_channel request_id body)
                  (24 + length body)
                  a
                  (loaded_state c conn request_id body server)).wire
                ≡ closing
                  ++ Event.wrote conn.client_handle
                      (chunk_bytes (next_out conn).secure_channel request_id body)
                    ∷ server.wire))
    by_answer (status, written) =
        elim (Bool-cases (status == good && written == 24 + length body)) [
          | inl e ↦ rw e (refl, ([], refl))
          | inr e ↦ rw e (refl, (Event.closed conn.client_handle ∷ [], refl))
        ]

emit_plain-Emitted :
    (adapters : Adapters) (request_id : ℕ) (body : List ℕ) (server : Server) (i : ℕ)
    (conn : Connection)
    → Emitted adapters i conn request_id body server
        (emit_plain adapters i conn request_id body (record server { active_conn = some i }))
emit_plain-Emitted adapters request_id body server i conn =
    elim (Bool-cases (exceeds (length body) (length server.send_buffer))) [
      | inl e ↦ rw e (inr (ground (arith, e), refl))
      | inr e ↦
          let fits : 24 + length body ≤ length server.send_buffer = ground (arith, e) in
          rw
            (
              e,
              plain_chunk-written (next_out conn).secure_channel request_id body server.send_buffer
                  fits,
              chunk_taken (next_out conn).secure_channel request_id body
                  (drop (24 + length body) server.send_buffer),
            )
            (inl (fits, refl))
    ]

emit_on-Emitted :
    (adapters : Adapters) (request_id : ℕ) (body : List ℕ) (server : Server) (i : ℕ)
    (conn : Connection) (o : Option Connection)
    → o ≡ some conn
    → conn.secure_channel.mode ≡ mode_none
    → Emitted adapters i conn request_id body server
        (emit_on adapters i o request_id body (record server { active_conn = some i }))
emit_on-Emitted adapters request_id body server i conn o got plain =
    rw (got, (==_iff conn.secure_channel.mode mode_none).1 plain)
      (emit_plain-Emitted adapters request_id body server i conn)

pub emit_message-Emitted :
    (adapters : Adapters) (request_id : ℕ) (body : List ℕ) (server : Server) (i : ℕ)
    (conn : Connection)
    → emission_connection server ≡ some i
    → get_elem? server.conns i ≡ some conn
    → conn.secure_channel.mode ≡ mode_none
    → Emitted adapters i conn request_id body server (emit_message adapters request_id body server)
unfolding emit_message
emit_message-Emitted adapters request_id body server i conn chosen got plain =
    rw chosen
      (emit_on-Emitted adapters request_id body server i conn (get_elem? server.conns i) got plain)
