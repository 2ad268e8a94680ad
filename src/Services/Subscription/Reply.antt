-- ===== src/Services/Subscription/Reply.antt =====
-- src/services/subscription.c: the steps of publish_due up to the answer to a publish request.
pub mod KeepAlive
use micro_opcua.Base.{
  ℕ, zero, suc, ◌+◌, ◌-◌, ◌%◌, ◌^◌, Bool, true, false, not, ◌&&◌, ◌||◌, Option, none, some, List,
  [], ◌∷◌, length, take, drop, set, get_elem?, ltb, leb, ◌==◌, if◌then◌else◌,
}
use micro_opcua.Base.Int.{ℤ, pos}
use micro_opcua.Base.Status.{good, bad_responsetoolarge}
use micro_opcua.Base.Outcome.{Outcome, ok, err, fault, Prog, ◌>>=◌, ◌>>◌, done}
use micro_opcua.Encoding.Writer.{Writer, writer_init}
use micro_opcua.Encoding.Variant.{Scalar, Variant, scalar}
use micro_opcua.AddressSpace.ValueSource.{Reading, ValueSource}
use micro_opcua.Core.Server.{Event, Server, Adapters, of_session, emit_message}
use micro_opcua.Services.Session.{Session, is_open}
use micro_opcua.Services.ServiceHeader.{written, write_service_fault}
use micro_opcua.Services.Subscription.{
  MonitoredItem, Subscription, PublishRequest, Engine, zero_retransmit, replicate,
}
use micro_opcua.Services.Subscription.Table.{in_subscription}
use micro_opcua.Services.Subscription.Timers.{advance_publish_timer}
use micro_opcua.Services.Subscription.Requests.{request_dequeue}
use micro_opcua.Services.Subscription.Notification.{
  is_reporting, count_reportable_items, clear_reported_items,
}
use micro_opcua.Services.Subscription.Sampling.{
  Doubles, is_disabled, prepare_pending_queue, enqueue_report, with_sample,
  read_monitored_item_value, tick_items,
}
use micro_opcua.Services.Subscription.Response.{
  build_publish_response, with_sequence_number, advance_sequence_number, store_retransmit,
  publish_response_oversize_status,
}

-- What the server calls and reads: the adapters, the arithmetic of doubles, the value sources of the nodes with
-- the bound on their structures, and the time adapter's get_time by the calls of the TCP
-- adapter before it, `none` where it is NULL.
pub record Surroundings : Type 0 where
  pub adapters : Adapters
  pub doubles : Doubles
  pub max_value_size : ℕ
  pub source : ℕ → Option ValueSource
  pub get_time : Option (List Event → ℤ)

-- MU_PUBLISH_BODY_BYTES
abbrev pub publish_body_bytes : ℕ
publish_body_bytes = 512

-- MU_RETRANSMIT_BYTES
abbrev pub retransmit_bytes : ℕ
retransmit_bytes = 256

abbrev pub body_buffer : List ℕ
body_buffer = replicate publish_body_bytes 0

abbrev pub map_items : (MonitoredItem → MonitoredItem) → List MonitoredItem → List MonitoredItem
map_items f [] = []
map_items f (item ∷ items) = f item ∷ map_items f items

-- How a publish request was answered: the notification message where the response was sent whole.
pub data Reply : Type 0 where
  sent : Option (List ℕ) → Reply
  unsent : Reply

abbrev pub sub_at : Server → ℕ → Option Subscription
sub_at server i = get_elem? server.subs.subscriptions i

abbrev pub with_sub : ℕ → Subscription → Server → Server
with_sub i sub server = record server {
  subs = record server.subs { subscriptions = set server.subs.subscriptions i sub };
}

abbrev pub with_items : List MonitoredItem → Server → Server
with_items items server = record server { subs = record server.subs { monitored_items = items } }

abbrev pub with_queue : List PublishRequest → Server → Server
with_queue queue server = record server { subs = record server.subs { publish_queue = queue } }

abbrev pub is_message : ℕ → ℕ → ℕ → Bool
is_message start end body_length = leb start end && leb end body_length

abbrev pub message_of : ℕ → ℕ → List ℕ → Option (List ℕ)
message_of start end body =
    if is_message start end (length body) then some (take (end - start) (drop start body)) else none

abbrev pub time_of : Option (List Event → ℤ) → List Event → ℤ
time_of none wire = pos 0
time_of (some get) wire = get wire

module _ (around : Surroundings) where
  abbrev pub publish_time_now : Server → ℤ
  publish_time_now server = time_of around.get_time server.wire

  -- prepare_reportable_queues
  abbrev pub prepare_reportable : ℕ → MonitoredItem → MonitoredItem
  prepare_reportable sub item =
      if in_subscription sub item && not (is_disabled around.doubles item.monitoring_mode)
      then prepare_pending_queue around.doubles item
      else item

  abbrev pub resend_read : MonitoredItem → Reading → MonitoredItem
  resend_read item (status, cur) =
      if status == good
      then enqueue_report around.doubles (with_sample around.doubles item cur status) cur status
      else if item.has_value
      then enqueue_report around.doubles (record item { last_status = status }) item.last_value
          status
      else enqueue_report around.doubles
          (with_sample around.doubles item (scalar Scalar.null) status) (scalar Scalar.null) status

  abbrev pub resend_item : ℕ → MonitoredItem → MonitoredItem
  resend_item sub item =
      if in_subscription sub item && is_reporting item.monitoring_mode
      then resend_read item (
          read_monitored_item_value around.doubles around.max_value_size around.source item
            (scalar Scalar.null))
      else item

  -- enqueue_resend_data on the items
  abbrev pub resend_items : Subscription → List MonitoredItem → List MonitoredItem
  resend_items sub items =
      if sub.resend_data_pending then map_items (resend_item sub.subscription_id) items else items

  -- prepare_reportable_queues and enqueue_resend_data
  abbrev pub prepared_items : Subscription → List MonitoredItem → List MonitoredItem
  prepared_items sub items =
      resend_items sub (map_items (prepare_reportable sub.subscription_id) items)

  abbrev pub too_large : Outcome Server (Unit {0}) → Outcome Server Reply
  too_large (ok u server) = ok unsent server
  too_large (err e server) = ok unsent server
  too_large fault = fault

  abbrev pub emit_written :
      PublishRequest → Server → Outcome (Unit {0}) (List ℕ) → Outcome Server (Unit {0})
  emit_written request server (ok bytes u) =
      emit_message around.adapters request.request_id bytes server
  emit_written request server (err e u) = err e server
  emit_written request server fault = fault

  -- emit_publish_response_too_large_fault where the status asks for it; the request is not answered whole.
  abbrev pub unless_oversize : PublishRequest → ℕ → Server → Outcome Server Reply
  unless_oversize request status server =
      if publish_response_oversize_status status
      then too_large (
          emit_written request server (
            write_service_fault body_buffer publish_body_bytes request.request_handle
              bad_responsetoolarge))
      else ok unsent server

  abbrev pub emitted :
      PublishRequest → Option (List ℕ) → Outcome Server (Unit {0}) → Outcome Server Reply
  emitted request message (ok u server) = ok (sent message) server
  emitted request message (err e server) = unless_oversize request e server
  emitted request message fault = fault

  abbrev pub emit_built : PublishRequest → Server → Outcome Writer (ℕ × ℕ) → Outcome Server Reply
  emit_built request server (ok (start, end) w) =
      let body = written w.buffer w.position in
      emitted request (message_of start end body)
        (emit_message around.adapters request.request_id body server)
  emit_built request server (err e w) = unless_oversize request e server
  emit_built request server fault = fault

  -- build_publish_response and mu_server_emit_message, or the fault.
  unfoldable pub reply : Subscription → PublishRequest → Bool → ℕ → Prog Server Reply
  unfolding build_publish_response emit_message write_service_fault
  reply sub request include_data report_count server = emit_built request server (
      build_publish_response server.subs.monitored_items sub request sub.sequence_number
        include_data report_count (publish_time_now server)
        (writer_init (some body_buffer) publish_body_bytes))
