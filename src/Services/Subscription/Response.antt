-- ===== src/Services/Subscription/Response.antt =====
-- src/services/subscription.c: the publish response, and the state that it changes.
pub mod KeepAlive
use micro_opcua.Base.{
  ℕ, zero, suc, ◌+◌, ◌-◌, ◌%◌, ◌^◌, Bool, true, false, not, ◌&&◌, ◌||◌, Option, none, some, List,
  [], ◌∷◌, length, take, drop, ltb, leb, ◌==◌, if◌then◌else◌,
}
use micro_opcua.Base.Int.{ℤ, pos}
use micro_opcua.Base.Status.{bad_encodingerror, bad_outofmemory, bad_responsetoolarge}
use micro_opcua.Base.Outcome.{Outcome, ok, err, fault, Prog, ◌>>=◌, ◌>>◌, done}
use micro_opcua.Encoding.Writer.{
  Writer, write_boolean, write_uint32, write_int32, write_int64, write_statuscode,
}
use micro_opcua.Services.ServiceHeader.{write_prefix}
use micro_opcua.Services.Subscription.{MonitoredItem, Subscription, PublishRequest, Retransmit}
use micro_opcua.Services.Subscription.Notification.{write_data_change_notification}

-- MU_ID_PUBLISHRESPONSE
abbrev pub publishresponse_id : ℕ
publishresponse_id = 829

-- MU_MAX_PUBLISH_ACKS
abbrev pub max_publish_acks : ℕ
max_publish_acks = 4

-- Up to the notification message: the prefix, the subscription, no available sequence numbers, and whether there
-- are more notifications.
pub write_response_start : ℕ → ℕ → Bool → Prog Writer (Unit {0})
write_response_start request_handle sub more = do
  write_prefix publishresponse_id request_handle 0
  write_uint32 sub
  write_int32 (pos 0)
  write_boolean more

pub write_message_start : ℕ → ℤ → ℕ → Prog Writer (Unit {0})
write_message_start sequence_number publish_time notification_count = do
  write_uint32 sequence_number
  write_int64 publish_time
  write_int32 (pos notification_count)

pub write_results : List ℕ → Prog Writer (Unit {0})
write_results [] = done tt
write_results (r ∷ results) = write_statuscode r >> write_results results

-- After the notification message: the results of the acknowledgements, and no diagnostics.
pub write_response_end : List ℕ → Prog Writer (Unit {0})
unfolding write_results
write_response_end results = do
  write_int32 (pos (length (take max_publish_acks results)))
  write_results (take max_publish_acks results)
  write_int32 (pos 0)

abbrev pub position : Prog Writer ℕ
position w = ok w.position w

abbrev pub write_notifications : Bool → List MonitoredItem → ℕ → ℕ → Prog Writer (Unit {0})
write_notifications include_data items sub report_count =
    if include_data && ltb 0 report_count
    then write_data_change_notification items sub report_count
    else done tt

-- build_publish_response: where the notification message starts and ends.
unfoldable pub build_publish_response :
    List MonitoredItem → Subscription → PublishRequest → ℕ → Bool → ℕ → ℤ → Prog Writer (ℕ × ℕ)
unfolding write_response_start write_message_start write_response_end
build_publish_response items sub request sequence_number include_data report_count publish_time = do
  write_response_start request.request_handle sub.subscription_id
      (include_data && sub.more_notifications)
  message_start ← position
  write_message_start sequence_number publish_time
      (if include_data && ltb 0 report_count then 1 else 0)
  write_notifications include_data items sub.subscription_id report_count
  message_end ← position
  write_response_end request.ack_results
  done (message_start, message_end)

abbrev pub nonzero_number : ℕ → ℕ
nonzero_number n = if n == 0 then 1 else n

-- current_sequence_number, which also keeps the number.
abbrev pub with_sequence_number : Subscription → Subscription
with_sequence_number sub = record sub { sequence_number = nonzero_number sub.sequence_number }

abbrev pub advance_sequence_number : Subscription → Subscription
advance_sequence_number sub = record sub {
  sequence_number = nonzero_number ((sub.sequence_number + 1) % 2 ^ 32);
}

-- store_retransmit, with MU_RETRANSMIT_BYTES
abbrev pub store_retransmit : ℕ → ℕ → ℤ → List ℕ → Subscription → Subscription
store_retransmit max sequence_number publish_time body sub =
    if ltb max (length body)
    then record sub { retransmit = record sub.retransmit { valid = false; message = [] } }
    else record sub {
      retransmit = record {
        valid = true;
        sequence_number = sequence_number;
        publish_time = publish_time;
        message = body;
      };
    }

abbrev pub publish_response_oversize_status : ℕ → Bool
publish_response_oversize_status status =
    status == bad_encodingerror || (status == bad_outofmemory || status == bad_responsetoolarge)
