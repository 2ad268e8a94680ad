-- ===== src/Examples/Services.antt =====
-- Concrete inputs of the sessions, of the secure channel and of the table of SecurityPolicies.
use micro_opcua.Base.{
  ℕ, ◌^◌, ◌<◌, ◌≤◌, ◌≡◌, ◌≢◌, refl, false, Option, none, some, List, [], ◌∷◌, get_elem?, set, arith,
}
use Prim.Native.Nat.{min, max}
use micro_opcua.Base.Outcome.{ok}
use micro_opcua.Security.Policy.{invalid_id, policy_from_uri, none_uri}
use micro_opcua.Services.SecureChannel.{
  secure_channel_init, requested_policy_id, secure_channel_open,
}
use micro_opcua.Services.SecureChannel.Negotiation.{OpenOutcome, secure_channel_open-OpenOutcome}
use micro_opcua.Services.Session.{
  Session, session_init, timeout_min_bits, timeout_max_bits, clamp_timeout_bits, find_by_token,
  find_free, session_id_active, authentication_token_active, session_id_candidate,
  generate_session_id, create_with_identifiers,
}
use micro_opcua.Services.Session.Timeout.{Converts, revised_timeout-Converts}
use micro_opcua.Services.Session.Lookup.{find_by_token-create}
use micro_opcua.Services.Session.Identifiers.{Drawn, word_of, generate_session_id-Drawn}
use micro_opcua.Services.Session.Protocol.{
  Call, create_call, activate_call, close_call, statuses, absent, protocol_statuses,
  statuses-protocol_statuses, IsWell, fresh, after, after-IsWell,
}

-- A session is created, activated with a wrong and with its own token, and closed.
abbrev calls : List Call
calls =
    create_call 0x40ed4c0000000000 5 77 1
    ∷ activate_call 78 321
    ∷ activate_call 77 321
    ∷ close_call 77
    ∷ []

statuses-protocol_statuses_example : statuses session_init calls ≡ protocol_statuses absent calls
statuses-protocol_statuses_example = statuses-protocol_statuses calls

after-IsWell_example : IsWell (after session_init calls)
after-IsWell_example = after-IsWell calls session_init fresh

-- One minute.
revised_timeout-Converts_example :
    Converts (clamp_timeout_bits 0x40ed4c0000000000)
    × (0x40ed4c0000000000 < 2 ^ 63
        → clamp_timeout_bits 0x40ed4c0000000000
          ≡ max timeout_min_bits (min 0x40ed4c0000000000 timeout_max_bits))
    × (2 ^ 63 ≤ 0x40ed4c0000000000 → clamp_timeout_bits 0x40ed4c0000000000 ≡ timeout_min_bits)
revised_timeout-Converts_example = revised_timeout-Converts 0x40ed4c0000000000 (omega arith)

abbrev two_free : List Session
two_free = session_init ∷ session_init ∷ []

two_free-first : find_free two_free ≡ some 0
unfolding find_free session_init
two_free-first = refl

two_free-unused : authentication_token_active two_free 77 ≡ false
unfolding authentication_token_active session_init
two_free-unused = refl

find_by_token-create_example :
    (s t : Session) × (get_elem? two_free 0 ≡ some s)
    × (create_with_identifiers 0 5 77 1 s ≡ ok (clamp_timeout_bits 0, 5, 77) t)
    × (find_by_token (set two_free 0 t) 77 ≡ some 0)
    × ((other : ℕ)
        → other ≢ 77
        → find_by_token (set two_free 0 t) other ≡ find_by_token two_free other)
find_by_token-create_example =
    find_by_token-create two_free 0 0 5 77 1 two_free-first two_free-unused

-- An adapter that always yields the same four bytes.
abbrev constant_random : ℕ → Option (List ℕ)
constant_random n = some (1 ∷ 2 ∷ 3 ∷ 4 ∷ [])

generate_session_id-Drawn_example :
    Drawn
      (session_id_candidate (word_of 1 2 3 4))
      (session_id_active two_free)
      0
      3
      (generate_session_id two_free (some constant_random) tt)
generate_session_id-Drawn_example = generate_session_id-Drawn two_free constant_random 1 2 3 4 refl

secure_channel_open-OpenOutcome_example :
    OpenOutcome
      (requested_policy_id none)
      1
      5000
      secure_channel_init
      (secure_channel_open none 1 5000 secure_channel_init)
secure_channel_open-OpenOutcome_example =
    secure_channel_open-OpenOutcome none 1 5000 secure_channel_init

none_uri-valid : policy_from_uri (some none_uri) 47 ≢ invalid_id
unfolding policy_from_uri
none_uri-valid e = absurd (ground arith)
