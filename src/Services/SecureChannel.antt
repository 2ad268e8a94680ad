-- ===== src/Services/SecureChannel.antt =====
-- src/services/secure_channel.c and secure_channel.h, with MUC_OPCUA_SECURITY. The bytes of the symmetric
-- keys are not modelled, only whether they are valid.
pub mod Negotiation
use micro_opcua.Base.{
  ℕ, zero, suc, ◌+◌, ◌%◌, ◌^◌, Bool, true, false, not, ◌&&◌, ◌||◌, Option, none, some, List, ltb,
  ◌==◌, if◌then◌else◌,
}
use micro_opcua.Base.Int.{ℤ, pos, negsuc}
use micro_opcua.Base.Status.{
  good, bad_securitypolicyrejected, bad_securitymoderejected, bad_tcpsecurechannelunknown,
}
use micro_opcua.Base.Outcome.{Outcome, ok, err, Prog}
use micro_opcua.Encoding.Text.{Str}
use micro_opcua.Core.Sequence.{Validator, validator_init}
use micro_opcua.Security.Policy.{
  PolicyId, invalid_id, none_id, basic256sha256_id, aes128_sha256_rsaoaep_id,
  aes256_sha256_rsapss_id, same_policy, policy_from_uri,
}

-- mu_secure_channel_t
pub record Channel : Type 0 where
  pub channel_id : ℕ
  pub token_id : ℕ
  pub created_at : ℕ
  pub revised_lifetime : ℕ
  pub sequence : Validator
  pub out_sequence_number : ℕ
  pub is_open : Bool
  pub policy : PolicyId
  pub mode : ℕ
  pub keys_valid : Bool

-- mu_message_security_mode_t
abbrev pub mode_none : ℕ
mode_none = 1

abbrev pub mode_sign : ℕ
mode_sign = 2

abbrev pub mode_sign_and_encrypt : ℕ
mode_sign_and_encrypt = 3

abbrev policy_of_uri : ℤ → Option (List ℕ) → PolicyId
policy_of_uri (negsuc k) bytes = none_id
policy_of_uri (pos zero) bytes = none_id
policy_of_uri (pos (suc n)) none = invalid_id
policy_of_uri (pos (suc n)) (some bytes) = policy_from_uri (some bytes) (suc n)

-- `none` for a NULL pointer to the string.
pub requested_policy_id : Option Str → PolicyId
requested_policy_id none = none_id
requested_policy_id (some uri) = policy_of_uri uri.length uri.bytes

abbrev pub is_valid_security_mode : ℕ → Bool
is_valid_security_mode mode =
    mode == mode_none || mode == mode_sign || mode == mode_sign_and_encrypt

pub secure_channel_init : Channel
secure_channel_init = record {
  channel_id = 0;
  token_id = 0;
  created_at = 0;
  revised_lifetime = 0;
  sequence = validator_init;
  out_sequence_number = 0;
  is_open = false;
  policy = none_id;
  mode = mode_none;
  keys_valid = false;
}

abbrev pub bounded_lifetime : ℕ → ℕ
bounded_lifetime n =
    let low = if ltb n 10000 then 10000 else n in if ltb 3600000 low then 3600000 else low

-- Open, or renew with the next token.
abbrev pub opened : Channel → Channel
opened c =
    if not c.is_open
    then (record c { channel_id = 1; token_id = 1; is_open = true })
    else (record c { token_id = (c.token_id + 1) % 2 ^ 32 })

abbrev pub finish_open : ℕ → ℕ → Prog Channel ℕ
finish_open mode lifetime c =
    ok (bounded_lifetime lifetime)
      (record (opened c) { revised_lifetime = bounded_lifetime lifetime; mode = mode })

-- What the policy of the channel asks of a request: `none` to go on.
abbrev pub is_secured : PolicyId → Bool
is_secured p =
    same_policy p basic256sha256_id
    || same_policy p aes128_sha256_rsaoaep_id
    || same_policy p aes256_sha256_rsapss_id

abbrev pub check_policy : PolicyId → PolicyId → ℕ → ℕ
check_policy policy requested mode =
    if same_policy policy none_id
    then (if not (same_policy requested none_id)
        then bad_securitypolicyrejected
        else if not (mode == mode_none)
        then bad_securitymoderejected
        else good)
    else if is_secured policy
    then (if not (same_policy requested policy)
        then bad_securitypolicyrejected
        else if mode == mode_none
        then bad_securitymoderejected
        else good)
    else bad_securitypolicyrejected

open_requested : PolicyId → ℕ → ℕ → Prog Channel ℕ
open_requested requested mode lifetime c =
    if same_policy requested invalid_id
    then err bad_securitypolicyrejected c
    else if not (is_valid_security_mode mode)
    then err bad_securitymoderejected c
    else if not (check_policy c.policy requested mode == good)
    then err (check_policy c.policy requested mode) c
    else finish_open mode lifetime c

pub secure_channel_open : Option Str → ℕ → ℕ → Prog Channel ℕ
unfolding open_requested
secure_channel_open security_policy mode lifetime =
    open_requested (requested_policy_id security_policy) mode lifetime

pub secure_channel_close : Prog Channel (Unit {0})
secure_channel_close c =
    if not c.is_open then err bad_tcpsecurechannelunknown c else ok tt secure_channel_init
