-- ===== src/Services/Subscription/Notification.antt =====
-- src/services/subscription.c: which reports a publish response takes, how they are written, and how they are
-- cleared. The items are those of the server, and a subscription is given by its id.
pub mod Backlog
pub mod Written
pub mod Cleared
use micro_opcua.Base.{
  ℕ, zero, suc, ◌+◌, ◌-◌, ◌*◌, ◌/◌, ◌%◌, ◌^◌, Bool, true, false, not, ◌&&◌, ◌||◌, Option, none,
  some, List, [], ◌∷◌, ◌++◌, length, get_elem?, set, ltb, leb, ◌==◌, if◌then◌else◌,
}
use micro_opcua.Base.Int.{ℤ, pos}
use micro_opcua.Base.Status.{good, bad_responsetoolarge}
use micro_opcua.Base.Outcome.{Outcome, ok, err, fault, Prog, ◌>>=◌, ◌>>◌, done, fails}
use micro_opcua.Encoding.Le.{le_u32}
use micro_opcua.Encoding.Writer.{Writer, write_byte, write_uint32, write_int32}
use micro_opcua.Encoding.NodeId.{numeric_nodeid, write_nodeid}
use micro_opcua.Encoding.DataValue.{DataValue, write_datavalue}
use micro_opcua.Services.Subscription.{Entry, Ring, MonitoredItem, MonitoringMode}
use micro_opcua.Services.Subscription.Queue.{clamp_size, queue_next, drain}
use micro_opcua.Services.Subscription.Table.{any, in_subscription}
use micro_opcua.Services.Subscription.Links.{member}

abbrev pub is_reporting : MonitoringMode → Bool
is_reporting MonitoringMode.reporting = true
is_reporting _ = false

abbrev pub is_sampling : MonitoringMode → Bool
is_sampling MonitoringMode.sampling = true
is_sampling _ = false

-- monitored_item_reportable
abbrev pub reportable : ℕ → MonitoredItem → Bool
reportable sub item =
    in_subscription sub item
    && ((item.pending || ltb 0 item.ring.queue_count) && is_reporting item.monitoring_mode)

abbrev pub triggers : ℕ → ℕ → MonitoredItem → Bool
triggers sub linked item = reportable sub item && member linked item.triggered_items

-- monitored_item_reports_by_trigger
abbrev pub reports_by_trigger : List MonitoredItem → ℕ → MonitoredItem → Bool
reports_by_trigger items sub linked =
    (in_subscription sub linked
      && (is_sampling linked.monitoring_mode && not (linked.ring.queue_count == 0)))
    && any (triggers sub linked.monitored_item_id) items

-- The count, after `false` where there was no room for the next report.
abbrev pub count_queue_entries : ℕ → ℕ → ℕ → Bool × ℕ
count_queue_entries max zero count = (true, count)
count_queue_entries max (suc queued) count =
    let rest = count_queue_entries max queued (count + 1) in
    if not (max == 0) && leb max count then (false, count) else rest

-- One of the two loops of count_reportable_items, over the items that pass the test.
abbrev pub count_pass : (MonitoredItem → Bool) → ℕ → List MonitoredItem → ℕ → Bool × ℕ
count_pass test max [] count = (true, count)
count_pass test max (item ∷ items) count =
    let (room, next) =
      count_queue_entries max (if test item then item.ring.queue_count else 0) count in
    let rest = count_pass test max items next in if room then rest else (false, next)

-- count_reportable_items: sub->more_notifications, and the count.
pub count_reportable_items : List MonitoredItem → ℕ → ℕ → Bool × ℕ
count_reportable_items items sub max =
    let (room, count) = count_pass (reportable sub) max items 0 in
    let (more_room, total) = count_pass (reports_by_trigger items sub) max items count in
    if room then (not more_room, total) else (true, count)

abbrev status_of : ℕ → Option ℕ
status_of status = if status == good then none else some status

abbrev pub report_value : Entry → DataValue
report_value e = record {
  value = some e.value;
  status = status_of e.status;
  source_timestamp = none;
  server_timestamp = none;
}

-- The client handle and the value of a report.
pub write_report : ℕ → Entry → Prog Writer (Unit {0})
write_report client_handle e = do
  write_uint32 client_handle
  write_datavalue (some (report_value e))

-- item->queue[i]
abbrev pub load_entry : Option Entry → Prog Writer Entry
load_entry none w = fault
load_entry (some e) w = ok e w

-- for (queued = 0; queued < item->queue_count && report_count > 0; ++queued); the result is report_count.
pub write_queue : ℕ → List Entry → ℕ → ℕ → ℕ → ℕ → Prog Writer ℕ
write_queue client_handle entries size zero index report_count = done report_count
write_queue client_handle entries size (suc queued) index zero = done 0
write_queue client_handle entries size (suc queued) index (suc report_count) = do
  e ← load_entry (get_elem? entries index)
  write_report client_handle e
  write_queue client_handle entries size queued (queue_next index size) report_count

abbrev pub write_item : MonitoredItem → ℕ → Prog Writer ℕ
write_item item report_count =
    let r = item.ring in
    write_queue item.client_handle r.entries (clamp_size (length r.entries) r.queue_size)
      r.queue_count r.queue_head report_count

-- One of the two loops of write_data_change_notification, over the items that pass the test. That the second
-- loop ends where report_count is 0 makes no difference to what is written.
pub write_pass : (MonitoredItem → Bool) → List MonitoredItem → ℕ → Prog Writer ℕ
unfolding write_queue
write_pass test [] report_count = done report_count
write_pass test (item ∷ items) report_count = do
  left ← (if test item then write_item item report_count else done report_count)
  write_pass test items left

abbrev position : Prog Writer ℕ
position w = ok w.position w

abbrev bytes_set : ℕ → List ℕ → List ℕ → Prog Writer (List ℕ)
bytes_set i [] bytes w = ok bytes w
bytes_set i (b ∷ bs) bytes w =
    if ltb i (length bytes) then bytes_set (i + 1) bs (set bytes i b) w else fault

-- backpatch_int32, of a value that is not negative
abbrev backpatch_int32 : ℕ → ℕ → Prog Writer (Unit {0})
backpatch_int32 at value w = into w.buffer w
  where
    into : Option (List ℕ) → Prog Writer (Unit {0})
    into none w = fault
    into (some bytes) w =
        (do
          bytes ← bytes_set at (le_u32 value) bytes
          λ w. ok tt (record w { buffer = some bytes }))
          w

abbrev finish_body : ℕ → ℕ → Prog Writer (Unit {0})
finish_body at body_length =
    if ltb 0x7fffffff body_length
    then fails bad_responsetoolarge
    else backpatch_int32 at body_length

-- MU_ID_DATACHANGENOTIFICATION_ENCODING_DEFAULTBINARY
abbrev data_change_notification_id : ℕ
data_change_notification_id = 811

pub write_data_change_notification : List MonitoredItem → ℕ → ℕ → Prog Writer (Unit {0})
unfolding write_pass
write_data_change_notification items sub report_count = do
  write_nodeid (some (numeric_nodeid 0 data_change_notification_id))
  write_byte 1
  length_pos ← position
  write_int32 (pos 0)
  body_start ← position
  write_int32 (pos report_count)
  left ← write_pass (reportable sub) items report_count
  rest ← write_pass (reports_by_trigger items sub) items left
  write_int32 (pos 0)
  body_end ← position
  finish_body length_pos (body_end - body_start)

-- monitored_item_drain_reported_entries; the second component is `*remaining`.
abbrev pub drain_item : MonitoredItem → ℕ → MonitoredItem × ℕ
drain_item item remaining =
    let (ring, left) = drain item.ring remaining in
    (record item { ring = ring; pending = not (ring.queue_count == 0) }, left)

-- The first loop of clear_reported_items.
pub drain_pass : (MonitoredItem → Bool) → List MonitoredItem → ℕ → List MonitoredItem × ℕ
drain_pass test [] remaining = ([], remaining)
drain_pass test (item ∷ items) zero = (item ∷ items, 0)
drain_pass test (item ∷ items) (suc remaining) =
    let (drained, left) =
      if test item then drain_item item (suc remaining) else (item, suc remaining) in
    let (rest, last) = drain_pass test items left in (drained ∷ rest, last)

-- triggered_items
abbrev pub flags : (MonitoredItem → Bool) → List MonitoredItem → List Bool
flags test [] = []
flags test (item ∷ items) = test item ∷ flags test items

-- The second loop of clear_reported_items.
pub drain_flagged : List Bool → List MonitoredItem → ℕ → List MonitoredItem × ℕ
drain_flagged [] items remaining = (items, remaining)
drain_flagged (b ∷ bs) [] remaining = ([], remaining)
drain_flagged (b ∷ bs) (item ∷ items) zero = (item ∷ items, 0)
drain_flagged (b ∷ bs) (item ∷ items) (suc remaining) =
    let (drained, left) = if b then drain_item item (suc remaining) else (item, suc remaining) in
    let (rest, last) = drain_flagged bs items left in (drained ∷ rest, last)

pub clear_reported_items : List MonitoredItem → ℕ → ℕ → List MonitoredItem
unfolding drain_pass drain_flagged
clear_reported_items items sub report_count =
    let (drained, left) = drain_pass (reportable sub) items report_count in
    (drain_flagged (flags (reports_by_trigger items sub) items) drained left).0
