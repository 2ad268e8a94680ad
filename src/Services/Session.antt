-- ===== src/Services/Session.antt =====
-- src/services/session.c and session.h, with MUC_OPCUA_MULTIPLE_CONNECTIONS: the table of sessions. A NULL
-- table, which holds no session, is the empty one; a pointer into the table is an index.
pub mod Timeout
pub mod Lookup
pub mod Identifiers
pub mod Protocol
use micro_opcua.Base.{
  ℕ, zero, suc, ◌+◌, ◌-◌, ◌*◌, ◌/◌, ◌%◌, ◌^◌, Bool, true, false, not, ◌&&◌, ◌||◌, Option, none,
  some, List, [], ◌∷◌, length, ltb, leb, ◌==◌, if◌then◌else◌,
}
use Prim.Native.Nat.{bit_xor}
use micro_opcua.Base.Status.{
  good, bad_internalerror, bad_securitychecksfailed, bad_securechannelidinvalid,
  bad_sessionidinvalid, bad_identitytokeninvalid,
}
use micro_opcua.Base.Outcome.{Outcome, ok, err, Prog, ◌>>=◌, ◌>>◌, done, fails, guard}
use micro_opcua.Base.Memory.{load_u32}

-- mu_session_state_t
pub data State : Type 0 where
  closed created activated : State

-- mu_session_t
pub record Session : Type 0 where
  pub state : State
  pub session_id : ℕ
  pub auth_token : ℕ
  pub revised_session_timeout_ms : ℕ
  pub server_nonce : List ℕ
  pub secure_channel_id : ℕ

abbrev pub timeout_min_bits : ℕ
timeout_min_bits = 0x40c3880000000000

abbrev pub timeout_max_bits : ℕ
timeout_max_bits = 0x414b774000000000

-- bits & MU_DOUBLE_SIGN_BIT
abbrev has_sign : ℕ → Bool
has_sign bits = bits / 2 ^ 63 % 2 == 1

pub clamp_timeout_bits : ℕ → ℕ
clamp_timeout_bits bits =
    if has_sign bits
    then timeout_min_bits
    else if ltb bits timeout_min_bits
    then timeout_min_bits
    else if ltb timeout_max_bits bits
    then timeout_max_bits
    else bits

-- From the fields of the double; `mantissa << k` is modulo 2 ^ 64, and the cast keeps 32 bits.
shift_mantissa : ℕ → ℕ → ℕ
shift_mantissa mantissa unbiased =
    if leb 52 unbiased
    then mantissa * 2 ^ (unbiased - 52) % 2 ^ 64 % 2 ^ 32
    else mantissa / 2 ^ (52 - unbiased) % 2 ^ 32

pub duration_bits_to_ms : ℕ → ℕ
unfolding shift_mantissa
duration_bits_to_ms bits =
    shift_mantissa (2 ^ 52 + bits % 2 ^ 52) ((bits / 2 ^ 52 % 2 ^ 11 + 2 ^ 32 - 1023) % 2 ^ 32)

abbrev zeros : ℕ → List ℕ
zeros zero = []
zeros (suc n) = 0 ∷ zeros n

unfoldable pub session_init : Session
session_init = record {
  state = closed;
  session_id = 0;
  auth_token = 0;
  revised_session_timeout_ms = 0;
  server_nonce = zeros 32;
  secure_channel_id = 0;
}

abbrev pub is_open : State → Bool
is_open closed = false
is_open created = true
is_open activated = true

-- The first session that passes the test, from index `i` on.
unfoldable find_from : (Session → Bool) → ℕ → List Session → Option ℕ
find_from test i [] = none
find_from test i (s ∷ sessions) =
    let rest = find_from test (suc i) sessions in if test s then some i else rest

abbrev pub has_token : ℕ → Session → Bool
has_token token s = is_open s.state && s.auth_token == token

abbrev pub has_id : ℕ → Session → Bool
has_id id s = is_open s.state && s.session_id == id

abbrev pub is_free : Session → Bool
is_free s = not (is_open s.state)

pub find_by_token : List Session → ℕ → Option ℕ
unfolding find_from
find_by_token sessions token = find_from (has_token token) 0 sessions

unfoldable pub find_free : List Session → Option ℕ
unfolding find_from
find_free sessions = find_from is_free 0 sessions

abbrev any : (Session → Bool) → List Session → Bool
any test [] = false
any test (s ∷ sessions) = test s || any test sessions

pub session_id_active : List Session → ℕ → Bool
session_id_active sessions id = any (has_id id) sessions

unfoldable pub authentication_token_active : List Session → ℕ → Bool
authentication_token_active sessions token = any (has_token token) sessions

-- mu_entropy_adapter_t: `none` where it or its function is NULL; the function yields the bytes it wrote,
-- or `none` for a bad status.
abbrev pub Entropy : Type 0
Entropy = Option (ℕ → Option (List ℕ))

abbrev random_of : Option (List ℕ) → Prog (Unit {0}) (List ℕ)
random_of none = fails bad_securitychecksfailed
random_of (some bytes) = done bytes

abbrev generate_random : Entropy → ℕ → Prog (Unit {0}) (List ℕ)
generate_random none n = fails bad_securitychecksfailed
generate_random (some random) n = random_of (random n)

abbrev unless_zero : ℕ → ℕ → ℕ
unless_zero n other = if n == 0 then other else n

pub session_id_candidate : ℕ → ℕ → ℕ
session_id_candidate base salt =
    unless_zero (bit_xor base (0x9E3779B9 * salt % 2 ^ 32)) (bit_xor 0x85EBCA6B (salt % 2 ^ 32))

pub authentication_token_candidate : ℕ → ℕ → ℕ
authentication_token_candidate base salt =
    unless_zero ((bit_xor base 0xA5A5A5A5 + 0x9E3779B9 * salt % 2 ^ 32) % 2 ^ 32)
      (bit_xor 0xC2B2AE35 (salt % 2 ^ 32))

-- The first candidate that is not active, of `n` from `salt` on.
first_unused : (ℕ → ℕ) → (ℕ → Bool) → ℕ → ℕ → Prog (Unit {0}) ℕ
first_unused candidate active salt zero = fails bad_securitychecksfailed
first_unused candidate active salt (suc n) =
    let rest = first_unused candidate active (suc salt) n in
    if not (active (candidate salt)) then done (candidate salt) else rest

pub generate_session_id : List Session → Entropy → Prog (Unit {0}) ℕ
unfolding first_unused
generate_session_id sessions entropy = do
  random ← generate_random entropy 4
  base ← load_u32 random 0
  first_unused (session_id_candidate base) (session_id_active sessions) 0 (suc (length sessions))

pub generate_authentication_token : List Session → Entropy → Prog (Unit {0}) ℕ
unfolding first_unused
generate_authentication_token sessions entropy = do
  random ← generate_random entropy 4
  base ← load_u32 random 0
  first_unused (authentication_token_candidate base) (authentication_token_active sessions) 0
      (suc (length sessions))

-- The result is what is written to `server_nonce`, which is never NULL.
pub generate_server_nonce : Entropy → ℕ → Prog (Unit {0}) (List ℕ)
generate_server_nonce entropy n = do
  guard (not (n == 0)) bad_securitychecksfailed
  generate_random entropy n

-- The result is the revised timeout, the SessionId and the token.
pub create_with_identifiers : ℕ → ℕ → ℕ → ℕ → Prog Session (ℕ × ℕ × ℕ)
create_with_identifiers bits id token channel s =
    if is_open s.state
    then err bad_internalerror s
    else ok (clamp_timeout_bits bits, id, token)
        (record s {
          session_id = id;
          auth_token = token;
          secure_channel_id = channel;
          revised_session_timeout_ms = duration_bits_to_ms (clamp_timeout_bits bits);
          state = created;
        })

pub create : ℕ → Prog Session (ℕ × ℕ × ℕ)
create bits = create_with_identifiers bits 1 12345 0

pub validate_secure_channel : ℕ → Prog Session (Unit {0})
validate_secure_channel channel s =
    if not (s.secure_channel_id == channel) then err bad_securechannelidinvalid s else ok tt s

-- 321, 324 and 327: anonymous, user name and certificate.
abbrev pub is_identity_token : ℕ → Bool
is_identity_token encoding = encoding == 321 || encoding == 324 || encoding == 327

pub activate : ℕ → ℕ → Prog Session (Unit {0})
activate token encoding s =
    if not (is_open s.state)
    then err bad_sessionidinvalid s
    else if not (s.auth_token == token)
    then err bad_sessionidinvalid s
    else if not (is_identity_token encoding)
    then err bad_identitytokeninvalid s
    else ok tt (record s { state = activated })

pub close : ℕ → Prog Session (Unit {0})
unfolding session_init
close token s =
    if not (is_open s.state)
    then err bad_sessionidinvalid s
    else if not (s.auth_token == token)
    then err bad_sessionidinvalid s
    else ok tt session_init
