-- ===== src/Services/Subscription/Publish.antt =====
-- src/services/subscription.c: publish_due and mu_subscriptions_tick.
pub mod KeepAlive
use micro_opcua.Base.{
  ℕ, zero, suc, ◌+◌, ◌-◌, ◌%◌, ◌^◌, Bool, true, false, not, ◌&&◌, ◌||◌, Option, none, some, List,
  [], ◌∷◌, length, take, drop, set, get_elem?, ltb, leb, ◌==◌, if◌then◌else◌,
}
use micro_opcua.Base.Int.{ℤ, pos}
use micro_opcua.Base.Status.{good, bad_responsetoolarge}
use micro_opcua.Base.Outcome.{Outcome, ok, err, fault, Prog, ◌>>=◌, ◌>>◌, done}
use micro_opcua.Encoding.Writer.{Writer, writer_init}
use micro_opcua.Encoding.Variant.{Scalar, Variant, scalar}
use micro_opcua.AddressSpace.ValueSource.{Reading, ValueSource}
use micro_opcua.Core.Server.{Event, Server, Adapters, of_session, emit_message}
use micro_opcua.Services.Session.{Session, is_open}
use micro_opcua.Services.ServiceHeader.{written, write_service_fault}
use micro_opcua.Services.Subscription.{
  MonitoredItem, Subscription, PublishRequest, Engine, zero_retransmit, replicate,
}
use micro_opcua.Services.Subscription.Table.{in_subscription}
use micro_opcua.Services.Subscription.Timers.{advance_publish_timer}
use micro_opcua.Services.Subscription.Requests.{request_dequeue}
use micro_opcua.Services.Subscription.Notification.{
  is_reporting, count_reportable_items, clear_reported_items,
}
use micro_opcua.Services.Subscription.Sampling.{
  Doubles, is_disabled, prepare_pending_queue, enqueue_report, with_sample,
  read_monitored_item_value, tick_items,
}
use micro_opcua.Services.Subscription.Response.{
  build_publish_response, with_sequence_number, advance_sequence_number, store_retransmit,
  publish_response_oversize_status,
}
use micro_opcua.Services.Subscription.Reply.{
  Surroundings, Reply, sent, unsent, sub_at, with_sub, with_items, with_queue, time_of,
  publish_time_now, prepared_items, retransmit_bytes, reply,
}

module _ (around : Surroundings) where
  abbrev pub keep_message : ℕ → ℤ → Option (List ℕ) → Subscription → Subscription
  keep_message number time none sub = record sub {
    retransmit = record sub.retransmit { valid = false; message = [] };
  }
  keep_message number time (some message) sub =
      store_retransmit retransmit_bytes number time message sub

  -- What follows a response with data.
  abbrev pub data_sent : ℕ → Subscription → ℕ → ℤ → Outcome Server Reply → Outcome Server (Unit {0})
  data_sent i sub report_count time (ok (sent message) server) = ok tt (
      with_sub i
        (advance_sequence_number
          (keep_message sub.sequence_number time message (record sub { keep_alive_counter = 0 })))
        (with_items
          (clear_reported_items server.subs.monitored_items sub.subscription_id report_count)
          server))
  data_sent i sub report_count time (ok unsent server) = ok tt (with_sub i sub server)
  data_sent i sub report_count time (err e server) = ok tt (with_sub i sub server)
  data_sent i sub report_count time fault = fault

  abbrev pub publish_data :
      ℕ
      → Subscription
      → ℕ
      → Server
      → Option (PublishRequest × List PublishRequest)
      → Outcome Server (Unit {0})
  publish_data i sub report_count server none = ok tt (with_sub i sub server)
  publish_data i sub report_count server (some (request, queue)) =
      let numbered = with_sequence_number sub in
      data_sent i numbered report_count (publish_time_now around server)
        (reply around numbered request true report_count (with_queue queue server))

  -- What follows a keep-alive.
  abbrev pub keep_alive_sent : ℕ → Subscription → Outcome Server Reply → Outcome Server (Unit {0})
  keep_alive_sent i sub (ok (sent message) server) =
      ok tt (with_sub i (record sub { keep_alive_counter = 0 }) server)
  keep_alive_sent i sub (ok unsent server) = ok tt (with_sub i sub server)
  keep_alive_sent i sub (err e server) = ok tt (with_sub i sub server)
  keep_alive_sent i sub fault = fault

  abbrev pub keep_alive_due :
      ℕ
      → Subscription
      → Server
      → Option (PublishRequest × List PublishRequest)
      → Outcome Server (Unit {0})
  keep_alive_due i sub server none = ok tt (with_sub i sub server)
  keep_alive_due i sub server (some (request, queue)) =
      let numbered = with_sequence_number sub in
      keep_alive_sent i numbered (reply around numbered request false 0 (with_queue queue server))

  -- ++sub->keep_alive_counter
  abbrev pub counted : Subscription → Subscription
  counted sub = record sub { keep_alive_counter = (sub.keep_alive_counter + 1) % 2 ^ 32 }

  unfoldable pub publish_keep_alive : ℕ → Subscription → Server → Outcome Server (Unit {0})
  unfolding reply request_dequeue
  publish_keep_alive i sub server =
      if ltb (counted sub).keep_alive_counter sub.max_keep_alive_count
      then ok tt (with_sub i (counted sub) server)
      else keep_alive_due i (counted sub) server
          (request_dequeue sub.session_id server.subs.publish_queue)

  abbrev pub publish_enabled :
      ℕ → Subscription → List MonitoredItem → Server → Outcome Server (Unit {0})
  publish_enabled i sub items server =
      let (more, report_count) =
        count_reportable_items items sub.subscription_id sub.max_notifications_per_publish in
      let ready = record sub { resend_data_pending = false; more_notifications = more } in
      if ltb 0 report_count
      then publish_data i ready report_count (with_items items server)
          (request_dequeue sub.session_id server.subs.publish_queue)
      else publish_keep_alive i ready (with_items items server)

  abbrev pub finish_timer :
      ℕ → Subscription → Server → Outcome (Unit {0}) ℕ → Outcome Server (Unit {0})
  finish_timer i sub server (ok next u) =
      ok tt (with_sub i (record sub { next_publish_ms = next }) server)
  finish_timer i sub server (err e u) = err e server
  finish_timer i sub server fault = fault

  abbrev pub advance_at : ℕ → ℕ → Server → Option Subscription → Outcome Server (Unit {0})
  advance_at i now server none = fault
  advance_at i now server (some sub) =
      finish_timer i sub server
        (advance_publish_timer sub.next_publish_ms sub.publishing_interval_ms now)

  -- advance_publish_timer, and server->active_conn = NULL
  abbrev pub finish_publishing : ℕ → ℕ → Outcome Server (Unit {0}) → Outcome Server (Unit {0})
  finish_publishing i now (ok u server) =
      advance_at i now (record server { active_conn = none }) (sub_at server i)
  finish_publishing i now (err e server) = err e server
  finish_publishing i now fault = fault

  abbrev pub publish_on : ℕ → Subscription → ℕ → Option ℕ → Server → Outcome Server (Unit {0})
  publish_on i sub now none server = ok tt server
  publish_on i sub now (some c) server =
      let active = record server { active_conn = some c } in
      finish_publishing i now (
        if sub.publishing_enabled
        then publish_enabled i sub (prepared_items around sub server.subs.monitored_items) active
        else publish_keep_alive i sub active)

  -- The first session that is not closed and has the id.
  abbrev pub session_of : ℕ → List Session → Option Session
  session_of id [] = none
  session_of id (session ∷ sessions) =
      let rest = session_of id sessions in
      if is_open session.state && session.session_id == id then some session else rest

  abbrev pub publish_sub : ℕ → ℕ → Server → Option Subscription → Outcome Server (Unit {0})
  publish_sub i now server none = ok tt server
  publish_sub i now server (some sub) =
      if not sub.in_use || ltb now sub.next_publish_ms
      then ok tt server
      else publish_on i sub now
          (of_session server.conns (session_of sub.session_id server.sessions)) server

  -- publish_due for the subscription at index `i`
  unfoldable pub publish_at : ℕ → ℕ → Prog Server (Unit {0})
  unfolding reply request_dequeue publish_keep_alive
  publish_at i now server = publish_sub i now server (sub_at server i)

  -- The loop of publish_due over `n` subscriptions from index `i` on.
  abbrev pub publish_from : ℕ → ℕ → ℕ → Prog Server (Unit {0})
  publish_from i zero now = done tt
  publish_from i (suc n) now = publish_at i now >> publish_from (suc i) n now

  unfoldable pub publish_due : ℕ → Prog Server (Unit {0})
  unfolding publish_at
  publish_due now server = publish_from 0 (length server.subs.subscriptions) now server

  unfoldable pub subscriptions_tick : ℕ → Prog Server (Unit {0})
  unfolding publish_due
  subscriptions_tick now server = publish_due now (
      with_items
        (tick_items around.doubles around.max_value_size around.source now
          server.subs.active_monitored_items_count server.subs.monitored_items)
        server)
