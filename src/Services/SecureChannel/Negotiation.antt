-- ===== src/Services/SecureChannel/Negotiation.antt =====
-- Which requests to open or renew a channel secure_channel.c grants, and what they make of the channel.
use micro_opcua.Base.{
  ℕ, ◌+◌, ◌%◌, ◌^◌, ◌≤◌, ◌≡◌, ◌≢◌, refl, inl, inr, ◌⊎◌, true, false, Option, ==_iff, ap, sym, ◌∙◌,
  ◌==◌, if◌then◌else◌, Bool-cases, arith,
}
use micro_opcua.Base.Status.{good, bad_securitypolicyrejected, bad_securitymoderejected}
use micro_opcua.Base.Outcome.{Outcome, ok, err, fault}
use micro_opcua.Encoding.Text.{Str}
use micro_opcua.Security.Policy.{
  PolicyId, invalid_id, none_id, basic256sha256_id, aes128_sha256_rsaoaep_id,
  aes256_sha256_rsapss_id, same_policy, policy_code,
}
use micro_opcua.Services.SecureChannel.{
  Channel, mode_none, mode_sign, mode_sign_and_encrypt, requested_policy_id, is_valid_security_mode,
  bounded_lifetime, opened, check_policy, open_requested, secure_channel_open,
}

-- The requests that OPC 10000-4 5.6.2 lets a channel grant: None with None only, and a secured policy with
-- the policy of the channel and a mode that signs.
pub data Grants : PolicyId → PolicyId → ℕ → Type 0 where
  unsecured : Grants none_id none_id mode_none
  secured :
      (p : PolicyId) (mode : ℕ)
      → p ≢ none_id
      → p ≢ invalid_id
      → (mode ≡ mode_sign) ⊎ (mode ≡ mode_sign_and_encrypt)
      → Grants p p mode

-- The channel that a granted request leaves behind.
pub record IsGranted (mode lifetime : ℕ) (c d : Channel) : Type 0 where
  pub live : d.is_open ≡ true
  pub mode_kept : d.mode ≡ mode
  pub policy_kept : d.policy ≡ c.policy
  pub min_lifetime : 10000 ≤ d.revised_lifetime
  pub max_lifetime : d.revised_lifetime ≤ 3600000
  pub lifetime_kept : 10000 ≤ lifetime → lifetime ≤ 3600000 → d.revised_lifetime ≡ lifetime
  pub first_token : c.is_open ≡ false → (d.channel_id ≡ 1) × (d.token_id ≡ 1)
  pub next_token :
      c.is_open ≡ true → (d.channel_id ≡ c.channel_id) × (d.token_id ≡ (c.token_id + 1) % 2 ^ 32)
  pub sequence_kept : d.sequence ≡ c.sequence

abbrev pub OpenOutcome : PolicyId → ℕ → ℕ → Channel → Outcome Channel ℕ → Type 0
OpenOutcome requested mode lifetime c (ok revised d) =
    Grants c.policy requested mode × (revised ≡ d.revised_lifetime) × IsGranted mode lifetime c d
OpenOutcome requested mode lifetime c (err e d) =
    (Grants c.policy requested mode → ⊥)
    × (d ≡ c)
    × ((e ≡ bad_securitypolicyrejected) ⊎ (e ≡ bad_securitymoderejected))
OpenOutcome requested mode lifetime c fault = ⊥

module _ (mode lifetime : ℕ) (c : Channel) where
  abbrev granted : Channel
  granted = record (opened c) { revised_lifetime = bounded_lifetime lifetime; mode = mode }

  granted-IsGranted : IsGranted mode lifetime c granted
  granted-IsGranted = elim (Bool-cases c.is_open) [
    | inl e ↦ record {
      live = ground arith;
      mode_kept = ground arith;
      policy_kept = ground arith;
      min_lifetime = ground arith;
      max_lifetime = ground arith;
      lifetime_kept = λ h k. ground arith;
      first_token = λ f. absurd (ground arith);
      next_token = λ f. ground arith;
      sequence_kept = ground arith;
    }
    | inr e ↦ record {
      live = ground arith;
      mode_kept = ground arith;
      policy_kept = ground arith;
      min_lifetime = ground arith;
      max_lifetime = ground arith;
      lifetime_kept = λ h k. ground arith;
      first_token = λ f. ground arith;
      next_token = λ f. absurd (ground arith);
      sequence_kept = ground arith;
    }
  ]

policy_of_code : ℕ → PolicyId
policy_of_code n =
    if n == 0
    then invalid_id
    else if n == 1
    then none_id
    else if n == 2
    then basic256sha256_id
    else if n == 3
    then aes128_sha256_rsaoaep_id
    else aes256_sha256_rsapss_id

policy_of_code-policy_code : (p : PolicyId) → policy_of_code (policy_code p) ≡ p
unfolding policy_of_code
policy_of_code-policy_code invalid_id = refl
policy_of_code-policy_code none_id = refl
policy_of_code-policy_code basic256sha256_id = refl
policy_of_code-policy_code aes128_sha256_rsaoaep_id = refl
policy_of_code-policy_code aes256_sha256_rsapss_id = refl

same_policy-eq : (p q : PolicyId) → same_policy p q ≡ true → p ≡ q
same_policy-eq p q h =
    sym (policy_of_code-policy_code p)
    ∙ ap policy_of_code ((==_iff (policy_code p) (policy_code q)).0 h)
    ∙ policy_of_code-policy_code q

none-check :
    (requested : PolicyId) (mode : ℕ)
    → check_policy none_id requested mode ≡ good
    → (same_policy requested none_id ≡ true) × (mode ≡ mode_none)
none-check requested mode e = ground arith

secured-check :
    (p requested : PolicyId) (mode : ℕ)
    → same_policy p none_id ≡ false
    → same_policy p invalid_id ≡ false
    → is_valid_security_mode mode ≡ true
    → check_policy p requested mode ≡ good
    → (same_policy requested p ≡ true) × ((mode ≡ mode_sign) ⊎ (mode ≡ mode_sign_and_encrypt))
secured-check p requested mode h k v e = ground arith

Grants-secured :
    (p requested : PolicyId) (mode : ℕ)
    → same_policy p none_id ≡ false
    → same_policy p invalid_id ≡ false
    → is_valid_security_mode mode ≡ true
    → check_policy p requested mode ≡ good
    → Grants p requested mode
Grants-secured p requested mode h k v e =
    let (same, signs) = secured-check p requested mode h k v e in
    rw (same_policy-eq requested p same)
      (secured p mode (λ q. ground (arith, rw q at h)) (λ q. ground (arith, rw q at k)) signs)

Grants-of_check :
    (policy requested : PolicyId) (mode : ℕ)
    → same_policy requested invalid_id ≡ false
    → is_valid_security_mode mode ≡ true
    → check_policy policy requested mode ≡ good
    → Grants policy requested mode
Grants-of_check invalid_id requested mode h v e = absurd (ground arith)
Grants-of_check none_id requested mode h v e =
    let (same, plain) = none-check requested mode e in
    rw (same_policy-eq requested none_id same, plain) unsecured
Grants-of_check basic256sha256_id requested mode h v e =
    Grants-secured basic256sha256_id requested mode refl refl v e
Grants-of_check aes128_sha256_rsaoaep_id requested mode h v e =
    Grants-secured aes128_sha256_rsaoaep_id requested mode refl refl v e
Grants-of_check aes256_sha256_rsapss_id requested mode h v e =
    Grants-secured aes256_sha256_rsapss_id requested mode refl refl v e

abbrev Tests : PolicyId → PolicyId → ℕ → Type 0
Tests policy requested mode =
    (same_policy requested invalid_id ≡ false)
    × (is_valid_security_mode mode ≡ true)
    × (check_policy policy requested mode ≡ good)

secured-Tests :
    (p : PolicyId) (mode : ℕ)
    → p ≢ none_id
    → p ≢ invalid_id
    → (mode ≡ mode_sign) ⊎ (mode ≡ mode_sign_and_encrypt)
    → Tests p p mode
secured-Tests invalid_id mode h k m = absurd (k refl)
secured-Tests none_id mode h k m = absurd (h refl)
secured-Tests basic256sha256_id mode h k m = (refl, ground arith, ground arith)
secured-Tests aes128_sha256_rsaoaep_id mode h k m = (refl, ground arith, ground arith)
secured-Tests aes256_sha256_rsapss_id mode h k m = (refl, ground arith, ground arith)

Grants-Tests :
    (policy requested : PolicyId) (mode : ℕ)
    → Grants policy requested mode
    → Tests policy requested mode
Grants-Tests policy requested mode unsecured = (refl, refl, refl)
Grants-Tests policy requested mode (secured p m h k s) = secured-Tests p m h k s

check_policy-status :
    (policy requested : PolicyId) (mode : ℕ)
    → (check_policy policy requested mode == good) ≡ false
    → (check_policy policy requested mode ≡ bad_securitypolicyrejected)
      ⊎ (check_policy policy requested mode ≡ bad_securitymoderejected)
check_policy-status policy requested mode h = ground arith

open_requested-OpenOutcome :
    (requested : PolicyId) (mode lifetime : ℕ) (c : Channel)
    → OpenOutcome requested mode lifetime c (open_requested requested mode lifetime c)
unfolding open_requested
open_requested-OpenOutcome requested mode lifetime c =
    elim (Bool-cases (same_policy requested invalid_id)) [
      | inl a ↦ rw a (λ g. ground (arith, Grants-Tests c.policy requested mode g), refl, inl refl)
      | inr a ↦ rw a (elim (Bool-cases (is_valid_security_mode mode)) [
        | inr b ↦ rw b (λ g. ground (arith, Grants-Tests c.policy requested mode g), refl, inr refl)
        | inl b ↦ rw b (elim (Bool-cases (check_policy c.policy requested mode == good)) [
          | inr d ↦ rw d (
            λ g. ground (arith, Grants-Tests c.policy requested mode g),
            refl,
            check_policy-status c.policy requested mode d,
          )
          | inl d ↦ rw d (
            Grants-of_check c.policy requested mode a b
                ((==_iff (check_policy c.policy requested mode) good).0 d),
            refl,
            granted-IsGranted mode lifetime c,
          )
        ])
      ])
    ]

-- A request to open or renew a channel is granted exactly if it asks for SecurityPolicy None and mode None
-- on a channel without security, or for the policy of the channel and Sign or SignAndEncrypt on a secured
-- one. A granted request leaves an open channel with the mode that was asked for and a lifetime between
-- 10000 and 3600000, which is the one asked for where that is in range; the first one gives channel 1 and
-- token 1, a renewal keeps the channel and takes the next token, and the state of the SequenceNumbers is
-- kept. A request that is not granted leaves the channel as it was, with Bad_SecurityPolicyRejected or
-- Bad_SecurityModeRejected.
pub secure_channel_open-OpenOutcome :
    (security_policy : Option Str) (mode lifetime : ℕ) (c : Channel)
    → OpenOutcome
        (requested_policy_id security_policy)
        mode
        lifetime
        c
        (secure_channel_open security_policy mode lifetime c)
unfolding secure_channel_open
secure_channel_open-OpenOutcome security_policy mode lifetime c =
    open_requested-OpenOutcome (requested_policy_id security_policy) mode lifetime c
