-- ===== src/Examples/Publishing.antt =====
-- Concrete inputs of the emission of messages and of keep-alives.
use micro_opcua.Base.{◌≡◌, refl, true, false, none, some, [], ◌∷◌, length, arith}
use micro_opcua.Base.Outcome.{ok, err}
use micro_opcua.Core.Sequence.{validator_init}
use micro_opcua.Core.Server.{Connection, Server, Adapters, connection_from}
use micro_opcua.Core.Server.Emitted.{Emitted}
use micro_opcua.Security.Policy.{none_id}
use micro_opcua.Services.SecureChannel.{mode_none}
use micro_opcua.Services.Session.{Session, State}
use micro_opcua.Services.Subscription.{Subscription, replicate, zero_subscription, zero_request}
use micro_opcua.Services.Subscription.Requests.{best_from, request_dequeue}
use micro_opcua.Services.Subscription.Reply.{Surroundings}
use micro_opcua.Services.Subscription.Publish.KeepAlive.{
  Waiting, firings, HasAnswered, firings-Answered,
}
use micro_opcua.Examples.Subscription.{request, whole}

-- A TCP adapter that writes everything, and no security.
abbrev adapters : Adapters
adapters = record {
  tcp_write = λ log client bytes. (0, length bytes);
  has_crypto = false;
  wrap = λ channel request_id body m. err 0 m;
}

abbrev connection : Connection
connection = record {
  client_handle = some 7;
  secure_channel = record {
    channel_id = 9;
    token_id = 1;
    created_at = 0;
    revised_lifetime = 3600000;
    sequence = validator_init;
    out_sequence_number = 4;
    is_open = true;
    policy = none_id;
    mode = mode_none;
    keys_valid = false;
  };
}

abbrev session : Session
session = record {
  state = State.activated;
  session_id = 3;
  auth_token = 77;
  revised_session_timeout_ms = 60000;
  server_nonce = replicate 32 0;
  secure_channel_id = 9;
}

-- It does not publish, and its timer fires twice before a keep-alive.
abbrev silent_sub : Subscription
silent_sub = record zero_subscription {
  in_use = true;
  subscription_id = 1;
  session_id = 3;
  publishing_interval_ms = 100;
  max_keep_alive_count = 2;
  next_publish_ms = 1000;
  sequence_number = 1;
}

abbrev server : Server
server = record {
  conns = connection ∷ [];
  active_conn = none;
  active_session = some 0;
  sessions = session ∷ [];
  send_buffer = replicate 117 0;
  wire = [];
  subs = record {
    subscriptions = silent_sub ∷ [];
    monitored_items = [];
    publish_queue = request ∷ [];
    next_subscription_id = 2;
    next_monitored_item_id = 1;
    active_monitored_items_count = 0;
  };
}

abbrev surroundings : Surroundings
surroundings = record {
  adapters = adapters;
  doubles = whole;
  max_value_size = 64;
  source = λ node. none;
  get_time = none;
}

silent_sub-Waiting : Waiting surroundings 0 0 connection silent_sub server
unfolding connection_from
silent_sub-Waiting = record {
  got = refl;
  used = refl;
  silent = refl;
  reached = refl;
  connected = refl;
  plain = refl;
  room = omega arith;
  interval = omega arith;
  time = omega arith;
}

request_taken : request_dequeue 3 (request ∷ []) ≡ some (request, zero_request ∷ [])
unfolding request_dequeue best_from
request_taken = refl

firings-Answered_example :
    (s : Server) × (firings surroundings 0 2 server ≡ ok tt s)
    × HasAnswered surroundings 0 0 connection silent_sub request server s
firings-Answered_example =
    firings-Answered surroundings 0 0 connection 1 silent_sub server request (zero_request ∷ [])
      silent_sub-Waiting refl (omega arith) request_taken
