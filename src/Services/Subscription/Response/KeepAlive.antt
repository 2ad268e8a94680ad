-- ===== src/Services/Subscription/Response/KeepAlive.antt =====
-- A publish response without notifications: its bytes, and that they fit into the buffer.
use micro_opcua.Base.{
  ℕ, ◌*◌, ◌^◌, ◌≤◌, ◌≡◌, refl, false, List, [], ◌∷◌, ◌++◌, length, length-append, length-take,
  length-drop, take, drop, drop-drop, arith,
}
use micro_opcua.Base.Int.{ℤ, pos, unsigned}
use micro_opcua.Base.Outcome.{ok}
use micro_opcua.Encoding.Le.{le_u32, le_u64}
use micro_opcua.Encoding.Writer.Emits.{writer_at, Emits, >>-Emits, done-Emits}
use micro_opcua.Encoding.Writer.Primitives.{
  write_boolean-Emits, write_uint32-Emits, write_int32-Emits, write_int64-Emits,
  write_statuscode-Emits,
}
use micro_opcua.Services.ServiceHeader.Bytes.{prefix_bytes, length-prefix_bytes, write_prefix-Emits}
use micro_opcua.Services.Subscription.{MonitoredItem, Subscription, PublishRequest}
use micro_opcua.Services.Subscription.Response.{
  publishresponse_id, max_publish_acks, write_response_start, write_message_start, write_results,
  write_response_end, build_publish_response,
}

abbrev pub start_bytes : ℕ → ℕ → List ℕ
start_bytes request_handle sub =
    prefix_bytes publishresponse_id request_handle 0 ++ (le_u32 sub ++ (le_u32 0 ++ (0 ∷ [])))

abbrev pub message_bytes : ℕ → ℤ → List ℕ
message_bytes sequence_number publish_time =
    le_u32 sequence_number ++ (le_u64 (unsigned (2 ^ 63) publish_time) ++ le_u32 0)

abbrev pub results_bytes : List ℕ → List ℕ
results_bytes [] = []
results_bytes (r ∷ results) = le_u32 r ++ results_bytes results

abbrev pub end_bytes : List ℕ → List ℕ
end_bytes results =
    le_u32 (unsigned (2 ^ 31) (pos (length (take max_publish_acks results))))
    ++ (results_bytes (take max_publish_acks results) ++ le_u32 0)

-- The keep-alive that answers a request.
abbrev pub keep_alive_bytes : Subscription → PublishRequest → ℤ → List ℕ
keep_alive_bytes sub request publish_time =
    (start_bytes request.request_handle sub.subscription_id
      ++ message_bytes sub.sequence_number publish_time)
    ++ end_bytes request.ack_results

write_response_start-Emits :
    (request_handle sub : ℕ)
    → Emits (write_response_start request_handle sub false) (start_bytes request_handle sub)
unfolding write_response_start
write_response_start-Emits request_handle sub =
    >>-Emits _ _ _ _ (write_prefix-Emits publishresponse_id request_handle 0 (omega arith)) (
      >>-Emits _ _ _ _ (write_uint32-Emits sub)
        (>>-Emits _ _ _ _ (write_int32-Emits (pos 0)) (write_boolean-Emits false)))

write_message_start-Emits :
    (sequence_number : ℕ) (publish_time : ℤ)
    → Emits
        (write_message_start sequence_number publish_time 0)
        (message_bytes sequence_number publish_time)
unfolding write_message_start
write_message_start-Emits sequence_number publish_time =
    >>-Emits _ _ _ _ (write_uint32-Emits sequence_number)
      (>>-Emits _ _ _ _ (write_int64-Emits publish_time) (write_int32-Emits (pos 0)))

write_results-Emits : (results : List ℕ) → Emits (write_results results) (results_bytes results)
unfolding write_results
write_results-Emits [] = done-Emits
write_results-Emits (r ∷ results) =
    >>-Emits _ _ _ _ (write_statuscode-Emits r) (write_results-Emits results)

write_response_end-Emits :
    (results : List ℕ) → Emits (write_response_end results) (end_bytes results)
unfolding write_response_end
write_response_end-Emits results =
    >>-Emits _ _ _ _ (write_int32-Emits (pos (length (take max_publish_acks results)))) (
      >>-Emits _ _ _ _ (write_results-Emits (take max_publish_acks results))
        (write_int32-Emits (pos 0)))

length-results_bytes : (results : List ℕ) → length (results_bytes results) ≡ 4 * length results
length-results_bytes [] = refl
length-results_bytes (r ∷ results) = omega (arith, length-results_bytes results)

-- At most 4 acknowledgements are answered, so that a keep-alive has at most 93 bytes.
pub length-keep_alive_bytes :
    (sub : Subscription) (request : PublishRequest) (publish_time : ℤ)
    → length (keep_alive_bytes sub request publish_time) ≤ 93
length-keep_alive_bytes sub request publish_time =
    let results : List ℕ = take max_publish_acks request.ack_results in
    omega (
      arith,
      length-append
          (start_bytes request.request_handle sub.subscription_id
            ++ message_bytes sub.sequence_number publish_time)
          (end_bytes request.ack_results),
      length-append (start_bytes request.request_handle sub.subscription_id)
          (message_bytes sub.sequence_number publish_time),
      length-append (prefix_bytes publishresponse_id request.request_handle 0)
          (le_u32 sub.subscription_id ++ (le_u32 0 ++ (0 ∷ []))),
      length-append (results_bytes results) (le_u32 0),
      length-results_bytes results,
      length-take max_publish_acks request.ack_results,
      length-prefix_bytes publishresponse_id request.request_handle 0,
    )

-- Without notifications the response is the keep-alive, whose message stands between its two ends.
pub build_publish_response-keep_alive :
    (items : List MonitoredItem) (sub : Subscription) (request : PublishRequest) (publish_time : ℤ)
    (room : List ℕ)
    → 93 ≤ length room
    → build_publish_response items sub request sub.sequence_number false 0 publish_time
        (writer_at [] room)
      ≡ ok
          (
            length (start_bytes request.request_handle sub.subscription_id),
            length (
                start_bytes request.request_handle sub.subscription_id
                ++ message_bytes sub.sequence_number publish_time),
          )
          (writer_at
            (keep_alive_bytes sub request publish_time)
            (drop (length (keep_alive_bytes sub request publish_time)) room))
unfolding build_publish_response
build_publish_response-keep_alive items sub request publish_time room h =
    let start : List ℕ = start_bytes request.request_handle sub.subscription_id in
    let message : List ℕ = message_bytes sub.sequence_number publish_time in
    let end : List ℕ = end_bytes request.ack_results in
    let bound = length-keep_alive_bytes sub request publish_time in
    let all = length-append (start ++ message) end in
    let front = length-append start message in
    rw (
      (write_response_start-Emits request.request_handle sub.subscription_id).fits [] room
          (omega (arith, h, bound, all, front)),
      (write_message_start-Emits sub.sequence_number publish_time).fits start
          (drop (length start) room)
          (omega (arith, h, bound, all, front, length-drop (length start) room)),
      drop-drop (length message) (length start) room,
      ← front,
      (write_response_end-Emits request.ack_results).fits (start ++ message)
          (drop (length (start ++ message)) room)
          (omega (arith, h, bound, all, front, length-drop (length (start ++ message)) room)),
      drop-drop (length end) (length (start ++ message)) room,
      ← all,
    )
