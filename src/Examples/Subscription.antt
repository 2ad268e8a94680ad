-- ===== src/Examples/Subscription.antt =====
-- Concrete inputs of the subscription engine and of its connection.
use micro_opcua.Base.{
  ℕ, ◌+◌, ◌-◌, ◌≤◌, ◌<◌, ◌≡◌, refl, ◌⊎◌, inr, ◌&&◌, not, true, false, some, List, [], ◌∷◌, length,
  take, drop, ltb, ◌==◌, if◌then◌else◌, arith,
}
use Prim.Native.Nat.{min}
use micro_opcua.Base.Int.{ℤ, pos}
use micro_opcua.Base.Outcome.{bind_outcome}
use micro_opcua.Encoding.Variant.{Scalar, scalar}
use micro_opcua.Encoding.Writer.{Writer, writer_init}
use micro_opcua.Services.Subscription.{
  Entry, Ring, MonitoringMode, DataChangeTrigger, MonitoredItem, PublishRequest, Engine, replicate,
  zero_item,
}
use micro_opcua.Services.Subscription.Queue.{enqueue}
use micro_opcua.Services.Subscription.Queue.Bounds.{IsRing}
use micro_opcua.Services.Subscription.Queue.Refine.{contents, push, enqueue-push}
use micro_opcua.Services.Subscription.Timers.{
  at_least_one, advance_publish_timer, advance_sample_timer,
}
use micro_opcua.Services.Subscription.Timers.Ticks.{
  IsTick, Ticks, advance_publish_timer-Ticks, advance_sample_timer-Ticks,
}
use micro_opcua.Services.Subscription.Table.{
  Parameters, create, delete, acknowledge, item_alloc, subscriptions_init,
}
use micro_opcua.Services.Subscription.Table.Keep.{IsEngine, left}
use micro_opcua.Services.Subscription.Table.Reach.{Step, Reach, Reach-IsEngine}
use micro_opcua.Services.Subscription.Table.Effects.{
  AckOutcome, DeleteOutcome, acknowledge-AckOutcome, delete-DeleteOutcome,
}
use micro_opcua.Services.Subscription.Requests.{request_dequeue}
use micro_opcua.Services.Subscription.Requests.Order.{Dequeued, request_dequeue-Dequeued}
use micro_opcua.Services.Subscription.Notification.{
  reportable, reports_by_trigger, count_reportable_items, write_pass, clear_reported_items,
}
use micro_opcua.Services.Subscription.Notification.Backlog.{due, Queued, count_reportable_items-due}
use micro_opcua.Services.Subscription.Notification.Written.{write_all, then_left, write_pass-due}
use micro_opcua.Services.Subscription.Notification.Cleared.{still_due, clear_reported_items-due}
use micro_opcua.Services.Subscription.Sampling.{Doubles}

abbrev report : ℕ → Entry
report n = record { value = scalar (Scalar.uint32 n); status = 0 }

-- Two reports in a queue of two that starts at its second place.
abbrev full_ring : Ring
full_ring = record {
  entries = report 6 ∷ report 5 ∷ [];
  queue_size = 2;
  queue_head = 1;
  queue_tail = 1;
  queue_count = 2;
  discard_oldest = true;
  queue_overflow = false;
}

full_ring-IsRing : IsRing full_ring
full_ring-IsRing = record {
  sized = omega arith;
  fits = omega arith;
  small = omega arith;
  head_in = omega arith;
  count_in = omega arith;
  tail_at = (inr refl, omega arith);
}

enqueue-push_example :
    (contents (enqueue full_ring (report 7)) ≡ push 2 true (contents full_ring) (report 7))
    × IsRing (enqueue full_ring (report 7))
enqueue-push_example = enqueue-push full_ring (report 7) full_ring-IsRing

advance_publish_timer-Ticks_example :
    Ticks 1000 (at_least_one 100) 1250 (advance_publish_timer 1000 100 1250)
advance_publish_timer-Ticks_example =
    advance_publish_timer-Ticks 1000 100 1250 (omega arith) (omega arith)

advance_sample_timer-Ticks_example :
    ((1000 ≤ 1250) × IsTick 1000 (at_least_one 100) 1250 (advance_sample_timer 1000 100 1250))
    ⊎ ((1250 < 1000) × (advance_sample_timer 1000 100 1250 ≡ 1000))
advance_sample_timer-Ticks_example =
    advance_sample_timer-Ticks 1000 100 1250 (omega arith) (omega arith)

abbrev parameters : Parameters
parameters = record {
  session_id = 3;
  publishing_interval_ms = 100;
  lifetime_count = 30;
  max_keep_alive_count = 2;
  max_notifications_per_publish = 1;
  priority = 0;
  publishing_enabled = true;
}

abbrev initial : Engine
initial = subscriptions_init 2 3 2 2

-- A subscription with an item.
abbrev engine : Engine
engine =
    left (item_alloc 1 (left (create parameters 1000 initial) initial))
      (left (create parameters 1000 initial) initial)

engine_reached : Reach initial engine
engine_reached =
    Reach.next (Reach.next Reach.here (Step.created parameters 1000)) (Step.allocated 1)

engine-IsEngine : IsEngine engine
engine-IsEngine = Reach-IsEngine 2 3 2 2 engine (omega arith) (omega arith) engine_reached

Reach-IsEngine_example : IsEngine engine
Reach-IsEngine_example = Reach-IsEngine 2 3 2 2 engine (omega arith) (omega arith) engine_reached

acknowledge-AckOutcome_example : AckOutcome 3 1 7 engine (acknowledge 3 1 7 engine)
acknowledge-AckOutcome_example = acknowledge-AckOutcome 3 1 7 engine

delete-DeleteOutcome_example : DeleteOutcome 3 1 engine (delete 3 1 engine)
delete-DeleteOutcome_example = delete-DeleteOutcome 3 1 engine engine-IsEngine

abbrev pub request : PublishRequest
request = record {
  in_use = true;
  session_id = 3;
  request_handle = 40;
  request_id = 50;
  enqueued_ms = 900;
  ack_results = 0 ∷ [];
}

abbrev queue : List PublishRequest
queue = record request { enqueued_ms = 950; request_id = 51 } ∷ request ∷ []

request_dequeue-Dequeued_example : Dequeued 3 queue (request_dequeue 3 queue)
request_dequeue-Dequeued_example = request_dequeue-Dequeued 3 queue

-- A reporting item with two reports, which triggers a sampling one.
abbrev item : MonitoredItem
item = record (zero_item 2) {
  ring = full_ring;
  in_use = true;
  subscription_id = 1;
  monitored_item_id = 1;
  client_handle = 21;
  monitoring_mode = MonitoringMode.reporting;
  trigger = DataChangeTrigger.status_value;
  triggered_items = 2 ∷ [];
  has_value = true;
  has_reported = true;
  last_value = scalar (Scalar.uint32 6);
}

abbrev items : List MonitoredItem
items =
    record item {
      monitored_item_id = 2;
      client_handle = 22;
      monitoring_mode = MonitoringMode.sampling;
    }
    ∷ item
    ∷ []

items-Queued : Queued items
items-Queued = (full_ring-IsRing, (full_ring-IsRing, tt))

count_reportable_items-due_example :
    ((count_reportable_items items 1 3).1
      ≡ (if 3 == 0 then length (due items 1) else min 3 (length (due items 1))))
    × ((count_reportable_items items 1 3).0 ≡ (not (3 == 0) && ltb 3 (length (due items 1))))
count_reportable_items-due_example = count_reportable_items-due items 1 3

abbrev buffer : Writer
buffer = writer_init (some (replicate 64 0)) 64

write_pass-due_example :
    bind_outcome
      (write_pass (reportable 1) items 3 buffer)
      (λ left. write_pass (reports_by_trigger items 1) items left)
    ≡ then_left (write_all (take 3 (due items 1)) buffer) (3 - length (due items 1))
write_pass-due_example = write_pass-due items 1 3 buffer items-Queued

clear_reported_items-due_example :
    (still_due items 1 (clear_reported_items items 1 3) ≡ drop 3 (due items 1))
    × Queued (clear_reported_items items 1 3)
clear_reported_items-due_example = clear_reported_items-due items 1 3 items-Queued

-- Doubles that are whole numbers, by the numbers themselves.
abbrev magnitude : ℤ → ℕ
magnitude (pos n) = n
magnitude _ = 0

abbrev pub whole : Doubles
whole = record {
  of_integer = magnitude;
  of_float = λ f. f;
  far = λ a b d. not (ltb (a - b + (b - a)) d);
}
