-- ===== src/Services/Subscription.antt =====
-- src/services/subscription.h, with MUC_OPCUA_SUBSCRIPTIONS_STANDARD and without MUC_OPCUA_EVENTS: the state
-- of the subscription engine. The arrays are lists of a fixed length; a pointer into one is an index.
pub mod Queue
pub mod Timers
pub mod Table
pub mod Requests
pub mod Links
pub mod Notification
pub mod Sampling
pub mod Response
pub mod Reply
pub mod Publish
use micro_opcua.Base.{ℕ, zero, suc, Bool, true, false, Option, none, some, List, [], ◌∷◌}
use micro_opcua.Base.Int.{ℤ, pos}
use micro_opcua.Encoding.NodeId.{NodeId, numeric_nodeid}
use micro_opcua.Encoding.Variant.{Scalar, Variant, scalar}

-- An element of `queue`.
pub record Entry : Type 0 where
  pub value : Variant
  pub status : ℕ

-- The members of mu_monitored_item_t that make up its queue of reports; the length of `entries` is
-- MU_MONITORED_QUEUE_DEPTH.
pub record Ring : Type 0 where
  pub entries : List Entry
  pub queue_size : ℕ
  pub queue_head : ℕ
  pub queue_tail : ℕ
  pub queue_count : ℕ
  pub discard_oldest : Bool
  pub queue_overflow : Bool

-- mu_monitoring_mode_t
pub data MonitoringMode : Type 0 where
  disabled sampling reporting : MonitoringMode

-- mu_datachange_trigger_t
pub data DataChangeTrigger : Type 0 where
  status status_value status_value_timestamp : DataChangeTrigger

-- mu_monitored_item_t, without the aggregates; `node` is the position of `resolved_node`, `none` for NULL, and
-- `deadband_value` and `last_reported_numeric` are doubles by their bits.
pub record MonitoredItem : Type 0 where
  pub next_sample_ms : ℕ
  pub deadband_value : ℕ
  pub last_reported_numeric : ℕ
  pub resolved_node : Option ℕ
  pub last_value : Variant
  pub node_id : NodeId
  pub monitored_item_id : ℕ
  pub subscription_id : ℕ
  pub client_handle : ℕ
  pub sampling_interval_ms : ℕ
  pub last_status : ℕ
  pub ring : Ring
  pub triggered_items : List ℕ
  pub monitoring_mode : MonitoringMode
  pub trigger : DataChangeTrigger
  pub in_use : Bool
  pub has_value : Bool
  pub pending : Bool
  pub deadband_type : ℕ
  pub has_reported : Bool

-- mu_retransmit_slot_t
pub record Retransmit : Type 0 where
  pub valid : Bool
  pub sequence_number : ℕ
  pub publish_time : ℤ
  pub message : List ℕ

-- mu_subscription_t
pub record Subscription : Type 0 where
  pub next_publish_ms : ℕ
  pub retransmit : Retransmit
  pub subscription_id : ℕ
  pub session_id : ℕ
  pub publishing_interval_ms : ℕ
  pub max_keep_alive_count : ℕ
  pub lifetime_count : ℕ
  pub max_notifications_per_publish : ℕ
  pub sequence_number : ℕ
  pub keep_alive_counter : ℕ
  pub lifetime_counter : ℕ
  pub priority : ℕ
  pub in_use : Bool
  pub publishing_enabled : Bool
  pub more_notifications : Bool
  pub resend_data_pending : Bool

-- mu_publish_request_t
pub record PublishRequest : Type 0 where
  pub in_use : Bool
  pub session_id : ℕ
  pub request_handle : ℕ
  pub request_id : ℕ
  pub enqueued_ms : ℕ
  pub ack_results : List ℕ

-- mu_subscriptions_t
pub record Engine : Type 0 where
  pub subscriptions : List Subscription
  pub monitored_items : List MonitoredItem
  pub publish_queue : List PublishRequest
  pub next_subscription_id : ℕ
  pub next_monitored_item_id : ℕ
  pub active_monitored_items_count : ℕ

-- The zeros of memset.
abbrev pub zero_entry : Entry
zero_entry = record { value = scalar Scalar.null; status = 0 }

abbrev pub replicate {ℓ} : {A : Type ℓ} → ℕ → A → List A
replicate zero a = []
replicate (suc n) a = a ∷ replicate n a

abbrev pub zero_ring : ℕ → Ring
zero_ring depth = record {
  entries = replicate depth zero_entry;
  queue_size = 0;
  queue_head = 0;
  queue_tail = 0;
  queue_count = 0;
  discard_oldest = false;
  queue_overflow = false;
}

abbrev pub zero_retransmit : Retransmit
zero_retransmit = record { valid = false; sequence_number = 0; publish_time = pos 0; message = [] }

abbrev pub zero_item : ℕ → MonitoredItem
zero_item depth = record {
  next_sample_ms = 0;
  deadband_value = 0;
  last_reported_numeric = 0;
  resolved_node = none;
  last_value = scalar Scalar.null;
  node_id = numeric_nodeid 0 0;
  monitored_item_id = 0;
  subscription_id = 0;
  client_handle = 0;
  sampling_interval_ms = 0;
  last_status = 0;
  ring = zero_ring depth;
  triggered_items = [];
  monitoring_mode = MonitoringMode.disabled;
  trigger = DataChangeTrigger.status;
  in_use = false;
  has_value = false;
  pending = false;
  deadband_type = 0;
  has_reported = false;
}

abbrev pub zero_subscription : Subscription
zero_subscription = record {
  next_publish_ms = 0;
  retransmit = zero_retransmit;
  subscription_id = 0;
  session_id = 0;
  publishing_interval_ms = 0;
  max_keep_alive_count = 0;
  lifetime_count = 0;
  max_notifications_per_publish = 0;
  sequence_number = 0;
  keep_alive_counter = 0;
  lifetime_counter = 0;
  priority = 0;
  in_use = false;
  publishing_enabled = false;
  more_notifications = false;
  resend_data_pending = false;
}

abbrev pub zero_request : PublishRequest
zero_request = record {
  in_use = false;
  session_id = 0;
  request_handle = 0;
  request_id = 0;
  enqueued_ms = 0;
  ack_results = [];
}
