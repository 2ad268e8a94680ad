-- ===== src/Services/Subscription/Requests.antt =====
-- src/services/subscription.c: the queue of parked publish requests.
pub mod Order
use micro_opcua.Base.{
  ℕ, zero, suc, ◌+◌, ◌-◌, Bool, true, false, not, ◌&&◌, ◌||◌, Option, none, some, List, [], ◌∷◌,
  set, ltb, ◌==◌, if◌then◌else◌,
}
use micro_opcua.Base.Status.{bad_toomanypublishrequests}
use micro_opcua.Base.Outcome.{Outcome, ok, err, Prog}
use micro_opcua.Services.Subscription.{PublishRequest, Engine, zero_request}
use micro_opcua.Services.Subscription.Table.{find_from}

abbrev pub unused_request : PublishRequest → Bool
unused_request request = not request.in_use

abbrev pub parked : ℕ → ℕ → ℕ → ℕ → PublishRequest
parked session request_id request_handle now = record {
  in_use = true;
  session_id = session;
  request_handle = request_handle;
  request_id = request_id;
  enqueued_ms = now;
  ack_results = [];
}

-- mu_publish_request_enqueue on the queue; the result is the slot.
unfoldable pub request_enqueue : ℕ → ℕ → ℕ → ℕ → Prog (List PublishRequest) ℕ
unfolding find_from
request_enqueue session request_id request_handle now queue =
    in_slot (find_from unused_request 0 queue)
  where
    in_slot : Option (ℕ × PublishRequest) → Outcome (List PublishRequest) ℕ
    in_slot none = err bad_toomanypublishrequests queue
    in_slot (some (i, slot)) = ok i (set queue i (parked session request_id request_handle now))

abbrev pub is_of : ℕ → PublishRequest → Bool
is_of session request = request.in_use && request.session_id == session

-- !found || req->enqueued_ms < best_enqueued
abbrev pub better : PublishRequest → Option (ℕ × PublishRequest) → Bool
better request none = true
better request (some (i, best)) = ltb request.enqueued_ms best.enqueued_ms

-- The loop of publish_request_dequeue from index `i` on: the best request up to now, and its slot.
unfoldable pub best_from :
    ℕ → ℕ → List PublishRequest → Option (ℕ × PublishRequest) → Option (ℕ × PublishRequest)
best_from session i [] best = best
best_from session i (request ∷ queue) best =
    best_from session (suc i) queue
      (if is_of session request && better request best then some (i, request) else best)

abbrev pub taken :
    List PublishRequest
    → Option (ℕ × PublishRequest)
    → Option (PublishRequest × List PublishRequest)
taken queue none = none
taken queue (some (i, request)) = some (request, set queue i zero_request)

-- The request that is taken out, and the queue afterwards.
unfoldable pub request_dequeue :
    ℕ → List PublishRequest → Option (PublishRequest × List PublishRequest)
unfolding best_from
request_dequeue session queue = taken queue (best_from session 0 queue none)
