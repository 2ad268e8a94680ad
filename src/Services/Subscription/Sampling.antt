-- ===== src/Services/Subscription/Sampling.antt =====
-- src/services/subscription.c: the sampling of a monitored item that is not aggregated.
pub mod Samples
use micro_opcua.Base.{
  ℕ, zero, suc, ◌+◌, ◌-◌, Bool, true, false, not, ◌&&◌, ◌||◌, Option, none, some, List, [], ◌∷◌,
  ltb, ◌==◌, if◌then◌else◌,
}
use micro_opcua.Base.Int.{ℤ, pos, eq_ℤ}
use micro_opcua.Base.Status.{bad_nodeidunknown}
use micro_opcua.Encoding.Variant.{Scalar, Variant, scalar, array}
use micro_opcua.AddressSpace.ValueSource.{Reading, ValueSource, value_source_read}
use micro_opcua.Services.Subscription.{Entry, MonitoredItem, MonitoringMode, DataChangeTrigger}
use micro_opcua.Services.Subscription.Queue.{enqueue}
use micro_opcua.Services.Subscription.Timers.{advance_sample_timer}

-- The arithmetic of doubles: conversions to a double, and `far a b d`, which is fabs(a - b) >= d.
pub record Doubles : Type 0 where
  pub of_integer : ℤ → ℕ
  pub of_float : ℕ → ℕ
  pub far : ℕ → ℕ → ℕ → Bool

abbrev pub equal_bool : Bool → Bool → Bool
equal_bool true b = b
equal_bool false b = not b

-- variant_scalar_equal on scalars; floats and doubles are compared by their bits.
abbrev pub scalar_equal : Scalar → Scalar → Bool
scalar_equal (Scalar.boolean a) (Scalar.boolean b) = equal_bool a b
scalar_equal (Scalar.sbyte a) (Scalar.sbyte b) = eq_ℤ a b
scalar_equal (Scalar.byte a) (Scalar.byte b) = a == b
scalar_equal (Scalar.int16 a) (Scalar.int16 b) = eq_ℤ a b
scalar_equal (Scalar.uint16 a) (Scalar.uint16 b) = a == b
scalar_equal (Scalar.int32 a) (Scalar.int32 b) = eq_ℤ a b
scalar_equal (Scalar.uint32 a) (Scalar.uint32 b) = a == b
scalar_equal (Scalar.int64 a) (Scalar.int64 b) = eq_ℤ a b
scalar_equal (Scalar.uint64 a) (Scalar.uint64 b) = a == b
scalar_equal (Scalar.float a) (Scalar.float b) = a == b
scalar_equal (Scalar.double a) (Scalar.double b) = a == b
scalar_equal (Scalar.datetime a) (Scalar.datetime b) = eq_ℤ a b
scalar_equal _ _ = false

pub variant_scalar_equal : Variant → Variant → Bool
variant_scalar_equal (scalar a) (scalar b) = scalar_equal a b
variant_scalar_equal _ _ = false

module _ (fp : Doubles) where
  abbrev pub scalar_to_double : Scalar → Option ℕ
  scalar_to_double (Scalar.sbyte z) = some (fp.of_integer z)
  scalar_to_double (Scalar.byte n) = some (fp.of_integer (pos n))
  scalar_to_double (Scalar.int16 z) = some (fp.of_integer z)
  scalar_to_double (Scalar.uint16 n) = some (fp.of_integer (pos n))
  scalar_to_double (Scalar.int32 z) = some (fp.of_integer z)
  scalar_to_double (Scalar.uint32 n) = some (fp.of_integer (pos n))
  scalar_to_double (Scalar.int64 z) = some (fp.of_integer z)
  scalar_to_double (Scalar.uint64 n) = some (fp.of_integer (pos n))
  scalar_to_double (Scalar.float f) = some (fp.of_float f)
  scalar_to_double (Scalar.double d) = some d
  scalar_to_double _ = none

  -- variant_numeric_to_double
  abbrev pub numeric_to_double : Variant → Option ℕ
  numeric_to_double (scalar s) = scalar_to_double s
  numeric_to_double (array t n es) = none

  -- Both values are numbers and the change is below the deadband.
  abbrev pub within_deadband : MonitoredItem → Option ℕ → Option ℕ → Bool
  within_deadband item (some numeric) (some reported) =
      not (fp.far numeric item.last_reported_numeric item.deadband_value)
  within_deadband item _ _ = false

  -- monitored_item_change_reportable; the deadband type 1 is absolute.
  abbrev pub change_reportable : MonitoredItem → Variant → ℕ → Bool
  change_reportable item cur status =
      if not item.has_reported || not (status == item.last_status)
      then true
      else if not (item.deadband_type == 1)
      then true
      else not (within_deadband item (numeric_to_double cur) (numeric_to_double item.last_value))

  abbrev pub unless_none : Option ℕ → ℕ → ℕ
  unless_none none old = old
  unless_none (some n) old = n

  -- monitored_item_record_reported
  abbrev pub record_reported : MonitoredItem → Variant → MonitoredItem
  record_reported item cur = record item {
    last_reported_numeric = unless_none (numeric_to_double cur) item.last_reported_numeric;
    has_reported = true;
  }

  abbrev pub with_ring : MonitoredItem → Entry → MonitoredItem
  with_ring item e = record item { ring = enqueue item.ring e }

  -- monitored_item_enqueue_report
  abbrev pub enqueue_report : MonitoredItem → Variant → ℕ → MonitoredItem
  enqueue_report item cur status =
      let after = record_reported (with_ring item (record { value = cur; status = status })) cur in
      record after { pending = ltb 0 after.ring.queue_count }

  -- monitored_item_prepare_pending_queue
  abbrev pub prepare_pending_queue : MonitoredItem → MonitoredItem
  prepare_pending_queue item =
      if item.pending && (item.ring.queue_count == 0 && item.has_value)
      then enqueue_report item item.last_value item.last_status
      else if item.has_value && not item.has_reported
      then record_reported item item.last_value
      else item

  -- monitored_item_sample_changed
  abbrev pub sample_changed : MonitoredItem → Variant → ℕ → Bool
  sample_changed item cur status = changed item.trigger
    where
      changed : DataChangeTrigger → Bool
      changed DataChangeTrigger.status = not (status == item.last_status)
      changed _ = not (status == item.last_status) || not (variant_scalar_equal cur item.last_value)

  abbrev pub with_sample : MonitoredItem → Variant → ℕ → MonitoredItem
  with_sample item cur status = record item {
    last_value = cur;
    last_status = status;
    has_value = true;
  }

  -- The item after the queue is prepared, with a sample that was read.
  abbrev pub accept_prepared : MonitoredItem → Variant → ℕ → MonitoredItem
  accept_prepared item cur status =
      if not item.has_value
      then enqueue_report (with_sample item cur status) cur status
      else if sample_changed item cur status && change_reportable item cur status
      then enqueue_report (record item { last_value = cur; last_status = status }) cur status
      else item

  abbrev pub needs_preparation : MonitoredItem → Bool
  needs_preparation item =
      item.has_value && (not item.has_reported || (item.pending && item.ring.queue_count == 0))

  unfoldable pub accept_sample : MonitoredItem → Variant → ℕ → MonitoredItem
  accept_sample item cur status =
      accept_prepared (if needs_preparation item then prepare_pending_queue item else item) cur
        status

  abbrev pub is_disabled : MonitoringMode → Bool
  is_disabled MonitoringMode.disabled = true
  is_disabled _ = false

  -- read_monitored_item_value: `source` is node->value by the position of the node.
  abbrev pub read_monitored_item_value :
      ℕ → (ℕ → Option ValueSource) → MonitoredItem → Variant → Reading
  read_monitored_item_value max source item before = from item.resolved_node
    where
      present : Option ValueSource → Reading
      present none = (bad_nodeidunknown, before)
      present (some s) = value_source_read max (some s) item.node_id before

      from : Option ℕ → Reading
      from none = (bad_nodeidunknown, before)
      from (some i) = present (source i)

  -- The body of the loop of mu_subscriptions_tick for an item in use.
  unfoldable pub tick_item : ℕ → (ℕ → Option ValueSource) → ℕ → MonitoredItem → MonitoredItem
  unfolding accept_sample
  tick_item max source now item =
      if is_disabled item.monitoring_mode || ltb now item.next_sample_ms
      then item
      else let (status, cur) = read_monitored_item_value max source item (scalar Scalar.null) in
        let sampled = accept_sample item cur status in
        record sampled {
          next_sample_ms =
              advance_sample_timer sampled.next_sample_ms sampled.sampling_interval_ms now;
        }

  -- The loop of mu_subscriptions_tick, with the number of active items that are not yet checked.
  pub tick_items : ℕ → (ℕ → Option ValueSource) → ℕ → ℕ → List MonitoredItem → List MonitoredItem
  unfolding tick_item
  tick_items max source now active [] = []
  tick_items max source now zero (item ∷ items) = item ∷ items
  tick_items max source now (suc active) (item ∷ items) =
      (if item.in_use then tick_item max source now item else item)
      ∷ tick_items max source now (if item.in_use then active else suc active) items
