-- ===== src/Services/Subscription/Publish/KeepAlive.antt =====
-- Keep-alives: a subscription that does not publish answers a parked request once its counter is full.
use micro_opcua.Base.{
  ℕ, zero, suc, ◌+◌, ◌^◌, ◌≤◌, ◌<◌, ◌≡◌, refl, ap, ◌∙◌, subst, true, false, Option, none, some,
  List, ◌∷◌, ◌++◌, length, get_elem?, get_elem?-set, le→ltb_false, lt→ltb, arith,
}
use micro_opcua.Base.Outcome.{Outcome, ok, err, fault, Prog, ◌>>◌, done}
use micro_opcua.Core.Server.{Event, Connection, Server, next_out, of_session}
use micro_opcua.Core.Server.Emitted.{chunk_bytes, sent_state, sent_state-wire}
use micro_opcua.Services.Subscription.Response.KeepAlive.{keep_alive_bytes}
use micro_opcua.Services.SecureChannel.{mode_none}
use micro_opcua.Services.Subscription.{Subscription, PublishRequest, Engine}
use micro_opcua.Services.Subscription.Requests.{request_dequeue}
use micro_opcua.Services.Subscription.Response.{with_sequence_number}
use micro_opcua.Services.Subscription.Timers.{at_least_one, advance_publish_timer}
use micro_opcua.Services.Subscription.Timers.Ticks.{Ticks, advance_publish_timer-Ticks}
use micro_opcua.Services.Subscription.Reply.{
  Surroundings, time_of, publish_time_now, sub_at, with_sub, with_queue,
}
use micro_opcua.Services.Subscription.Reply.KeepAlive.{reply-keep_alive}
use micro_opcua.Services.Subscription.Publish.{
  counted, session_of, publish_keep_alive, finish_publishing, publish_at,
}

-- What a keep-alive waits for: the subscription is in use and does not publish, and the connection of its session
-- has no security and a send buffer that holds a keep-alive behind its headers.
pub record Waiting (around : Surroundings) (i c : ℕ) (conn : Connection) (sub : Subscription)
    (server : Server) : Type 0 where
  pub got : sub_at server i ≡ some sub
  pub used : sub.in_use ≡ true
  pub silent : sub.publishing_enabled ≡ false
  pub reached : of_session server.conns (session_of around sub.session_id server.sessions) ≡ some c
  pub connected : get_elem? server.conns c ≡ some conn
  pub plain : conn.secure_channel.mode ≡ mode_none
  pub room : 117 ≤ length server.send_buffer
  pub interval : sub.publishing_interval_ms < 2 ^ 32
  pub time : sub.next_publish_ms < 2 ^ 64

-- The publishing timer of the subscription fires.
pub fire : Surroundings → ℕ → Prog Server (Unit {0})
fire around i server = at (sub_at server i)
  where
    at : Option Subscription → Outcome Server (Unit {0})
    at none = ok tt server
    at (some sub) = publish_at around i sub.next_publish_ms server

pub firings : Surroundings → ℕ → ℕ → Prog Server (Unit {0})
firings around i zero = done tt
firings around i (suc n) = fire around i >> firings around i n

module _ (around : Surroundings) (i c : ℕ) (conn : Connection) where
  later_sub : Subscription → ℕ → Subscription
  later_sub sub next = record (counted around sub) { next_publish_ms = next }

  abbrev timer_moved : ℕ → Subscription → Server → Server
  timer_moved next sub server = with_sub i (record sub { next_publish_ms = next }) server

  advanced :
      (next interval : ℕ)
      → interval < 2 ^ 32
      → next < 2 ^ 64
      → (t : ℕ) × (advance_publish_timer next interval next ≡ ok t tt) × (t < 2 ^ 64)
  advanced next interval b n =
      from (advance_publish_timer next interval next)
        (advance_publish_timer-Ticks next interval next b n)
    where
      from :
          (r : Outcome (Unit {0}) ℕ)
          → Ticks next (at_least_one interval) next r
          → (t : ℕ) × (r ≡ ok t tt) × (t < 2 ^ 64)
      from (ok t u) (k, first, after, e) = (t, refl, omega (arith, e))
      from (err e u) h = absurd h
      from fault h = absurd h

  -- The end of publish_at on the state that the publishing of the subscription leaves.
  finished :
      (server : Server) (sub : Subscription) (now : ℕ)
      → sub_at server i ≡ some sub
      → sub.publishing_interval_ms < 2 ^ 32
      → sub.next_publish_ms ≡ now
      → now < 2 ^ 64
      → (t : ℕ) × (finish_publishing around i now (ok tt server)
          ≡ ok tt (timer_moved t sub (record server { active_conn = none })))
        × (t < 2 ^ 64)
  finished server sub now got interval e b =
      let (t, moved, small) = advanced now sub.publishing_interval_ms interval b in
      (t, rw (got, e, moved) refl, small)

  -- Until the counter is full, a firing counts.
  counts :
      (sub : Subscription) (server : Server)
      → (counted around sub).keep_alive_counter < sub.max_keep_alive_count
      → publish_keep_alive around i sub server ≡ ok tt (with_sub i (counted around sub) server)
  unfolding publish_keep_alive
  counts sub server h = rw (lt→ltb _ _ h) refl

  with_counted : Subscription → Server → Server
  with_counted sub server = with_sub i (counted around sub) (record server { active_conn = some c })

  fire-step :
      (sub : Subscription) (server : Server)
      → Waiting around i c conn sub server
      → fire around i server
        ≡ finish_publishing around i sub.next_publish_ms
            (publish_keep_alive around i sub (record server { active_conn = some c }))
  unfolding fire publish_at
  fire-step sub server w =
      rw
        (
          w.got,
          w.got,
          w.used,
          le→ltb_false sub.next_publish_ms sub.next_publish_ms (omega arith),
          w.reached,
          w.silent,
        )
        refl

  abbrev Counted : Subscription → Server → Outcome Server (Unit {0}) → Type 0
  Counted sub server r =
      (t : ℕ) × (s : Server) × (r ≡ ok tt s)
      × Waiting around i c conn (later_sub sub t) s
      × (s.wire ≡ server.wire)
      × (s.subs.publish_queue ≡ server.subs.publish_queue)

  fire-Counted :
      (sub : Subscription) (server : Server)
      → Waiting around i c conn sub server
      → (counted around sub).keep_alive_counter < sub.max_keep_alive_count
      → Counted sub server (fire around i server)
  unfolding later_sub with_counted
  fire-Counted sub server w h =
      let next : Server = with_counted sub server in
      let stored : sub_at next i ≡ some (counted around sub) =
        get_elem?-set server.subs.subscriptions i sub (counted around sub) w.got in
      let (t, ended, small) =
        finished next (counted around sub) sub.next_publish_ms stored w.interval refl w.time in
      (
        t,
        timer_moved t (counted around sub) (record next { active_conn = none }),
        fire-step sub server w
            ∙ ap (finish_publishing around i sub.next_publish_ms) (counts sub _ h)
            ∙ ended,
        record {
          got = get_elem?-set next.subs.subscriptions i (counted around sub) _ stored;
          used = w.used;
          silent = w.silent;
          reached = w.reached;
          connected = w.connected;
          plain = w.plain;
          room = w.room;
          interval = w.interval;
          time = small;
        },
        refl,
        refl,
      )

  abbrev pub LogAfter :
      List Event → List Event → Subscription → PublishRequest → List Event → Type 0
  LogAfter wire closing sub request before =
      wire
      ≡ closing
        ++ Event.wrote conn.client_handle (
            chunk_bytes (next_out conn).secure_channel request.request_id (
              keep_alive_bytes (with_sequence_number sub) request (time_of around.get_time before)))
          ∷ before

  -- The chunk with the keep-alive for the request was handed to the TCP adapter.
  abbrev pub HasAnswered : Subscription → PublishRequest → Server → Server → Type 0
  HasAnswered sub request before s =
      (closing : List Event) × LogAfter s.wire closing sub request before.wire

  fire-Answered :
      (sub : Subscription) (server : Server) (request : PublishRequest) (rest : List PublishRequest)
      → Waiting around i c conn sub server
      → sub.max_keep_alive_count ≤ (counted around sub).keep_alive_counter
      → request_dequeue sub.session_id server.subs.publish_queue ≡ some (request, rest)
      → (s : Server) × (fire around i server ≡ ok tt s) × HasAnswered sub request server s
  unfolding publish_keep_alive
  fire-Answered sub server request rest w h taken =
      let active : Server = with_queue rest (record server { active_conn = some c }) in
      let numbered : Subscription = with_sequence_number (counted around sub) in
      let bytes : List ℕ = keep_alive_bytes numbered request (publish_time_now around active) in
      let after : Server = sent_state around.adapters c conn request.request_id bytes active in
      let (kept, (closing, logged)) =
        sent_state-wire around.adapters c conn request.request_id bytes active in
      let last : Subscription = record numbered { keep_alive_counter = 0 } in
      let stored : sub_at (with_sub i last after) i ≡ some last =
        get_elem?-set after.subs.subscriptions i sub last
          (ap (λ (e : Engine). get_elem? e.subscriptions i) kept ∙ w.got) in
      let (t, ended, small) =
        finished (with_sub i last after) last sub.next_publish_ms stored w.interval refl w.time in
      let answered : publish_keep_alive around i sub (record server { active_conn = some c })
          ≡ ok tt (with_sub i last after) =
        rw
          (
            le→ltb_false _ _ h,
            taken,
            reply-keep_alive around c conn numbered request active refl w.connected w.plain w.room,
          )
          refl in
      (
        timer_moved t last (record (with_sub i last after) { active_conn = none }),
        fire-step sub server w
            ∙ ap (finish_publishing around i sub.next_publish_ms) answered
            ∙ ended,
        (closing, logged),
      )

  -- A keep-alive is sent: a subscription that is in use and does not publish, whose session has a connection without
  -- security and with a send buffer of at least 117 bytes, and for whose session a request is parked, gives to the
  -- TCP adapter, when its publishing timer has fired as often as its keep-alive counter is below
  -- max_keep_alive_count (below 2 ^ 32), the publish response without notifications for the request that the queue gives up, in a
  -- chunk of that connection.
  pub firings-Answered :
      (n : ℕ) (sub : Subscription) (server : Server) (request : PublishRequest)
      (rest : List PublishRequest)
      → Waiting around i c conn sub server
      → sub.max_keep_alive_count ≡ sub.keep_alive_counter + suc n
      → sub.max_keep_alive_count < 2 ^ 32
      → request_dequeue sub.session_id server.subs.publish_queue ≡ some (request, rest)
      → (s : Server) × (firings around i (suc n) server ≡ ok tt s)
        × HasAnswered sub request server s
  unfolding firings later_sub
  firings-Answered zero sub server request rest w full small taken =
      let (s, fired, answered) = fire-Answered sub server request rest w (omega arith) taken in
      (s, rw fired refl, answered)
  firings-Answered (suc n) sub server request rest w full small taken =
      let (t, next, fired, waits, wire, queue) = fire-Counted sub server w (omega arith) in
      let (s, rest_fired, answered) =
        firings-Answered n (later_sub sub t) next request rest waits (omega arith) small
          (ap (request_dequeue sub.session_id) queue ∙ taken) in
      let (closing, logged) = answered in
      (s, rw fired rest_fired, (closing, subst (LogAfter s.wire closing sub request) wire logged))
