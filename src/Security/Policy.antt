-- ===== src/Security/Policy.antt =====
-- src/security/security_policy.c and security_policy.h, with MUC_OPCUA_SECURITY: the table of SecurityPolicies.
pub mod Table
use micro_opcua.Base.{
  ℕ, zero, suc, Bool, true, false, ◌&&◌, Option, none, some, List, [], ◌∷◌, ◌++◌, length, take,
  ◌==◌, if◌then◌else◌,
}

-- mu_security_policy_id_t
pub data PolicyId : Type 0 where
  invalid_id none_id basic256sha256_id aes128_sha256_rsaoaep_id aes256_sha256_rsapss_id : PolicyId

abbrev pub policy_code : PolicyId → ℕ
policy_code invalid_id = 0
policy_code none_id = 1
policy_code basic256sha256_id = 2
policy_code aes128_sha256_rsaoaep_id = 3
policy_code aes256_sha256_rsapss_id = 4

abbrev pub same_policy : PolicyId → PolicyId → Bool
same_policy p q = policy_code p == policy_code q

-- The characters that the four URIs share.
abbrev uri_prefix : List ℕ
uri_prefix =
    b'h' ∷ b't' ∷ b't' ∷ b'p' ∷ b':' ∷ b'/' ∷ b'/' ∷ b'o' ∷ b'p' ∷ b'c' ∷ b'f' ∷ b'o' ∷ b'u' ∷ b'n'
    ∷ b'd' ∷ b'a' ∷ b't' ∷ b'i' ∷ b'o' ∷ b'n' ∷ b'.' ∷ b'o' ∷ b'r' ∷ b'g' ∷ b'/' ∷ b'U' ∷ b'A'
    ∷ b'/' ∷ b'S' ∷ b'e' ∷ b'c' ∷ b'u' ∷ b'r' ∷ b'i' ∷ b't' ∷ b'y' ∷ b'P' ∷ b'o' ∷ b'l' ∷ b'i'
    ∷ b'c' ∷ b'y' ∷ b'#' ∷ []

abbrev pub none_uri : List ℕ
none_uri = uri_prefix ++ (b'N' ∷ b'o' ∷ b'n' ∷ b'e' ∷ [])

abbrev pub basic256sha256_uri : List ℕ
basic256sha256_uri =
    uri_prefix
    ++ (b'B' ∷ b'a' ∷ b's' ∷ b'i' ∷ b'c' ∷ b'2' ∷ b'5' ∷ b'6' ∷ b'S' ∷ b'h' ∷ b'a' ∷ b'2' ∷ b'5'
        ∷ b'6' ∷ [])

abbrev pub aes128_sha256_rsaoaep_uri : List ℕ
aes128_sha256_rsaoaep_uri =
    uri_prefix
    ++ (b'A' ∷ b'e' ∷ b's' ∷ b'1' ∷ b'2' ∷ b'8' ∷ b'_' ∷ b'S' ∷ b'h' ∷ b'a' ∷ b'2' ∷ b'5' ∷ b'6'
        ∷ b'_' ∷ b'R' ∷ b's' ∷ b'a' ∷ b'O' ∷ b'a' ∷ b'e' ∷ b'p' ∷ [])

abbrev pub aes256_sha256_rsapss_uri : List ℕ
aes256_sha256_rsapss_uri =
    uri_prefix
    ++ (b'A' ∷ b'e' ∷ b's' ∷ b'2' ∷ b'5' ∷ b'6' ∷ b'_' ∷ b'S' ∷ b'h' ∷ b'a' ∷ b'2' ∷ b'5' ∷ b'6'
        ∷ b'_' ∷ b'R' ∷ b's' ∷ b'a' ∷ b'P' ∷ b's' ∷ b's' ∷ [])

-- mu_security_policy_params_t
pub record Params : Type 0 where
  pub id : PolicyId
  pub uri : List ℕ
  pub sig_key_len : ℕ
  pub enc_key_len : ℕ
  pub block_size : ℕ
  pub sig_len : ℕ
  pub nonce_len : ℕ
  pub allows_username : ℕ

abbrev row : PolicyId → List ℕ → ℕ → ℕ → ℕ → ℕ → ℕ → ℕ → Params
row id uri sig_key_len enc_key_len block_size sig_len nonce_len allows_username = record {
  id = id;
  uri = uri;
  sig_key_len = sig_key_len;
  enc_key_len = enc_key_len;
  block_size = block_size;
  sig_len = sig_len;
  nonce_len = nonce_len;
  allows_username = allows_username;
}

-- POLICY_TABLE
abbrev pub policy_table : List Params
policy_table =
    row none_id none_uri 0 0 0 0 0 0
    ∷ row basic256sha256_id basic256sha256_uri 32 32 16 32 32 1
    ∷ row aes128_sha256_rsaoaep_id aes128_sha256_rsaoaep_uri 32 16 16 32 32 1
    ∷ row aes256_sha256_rsapss_id aes256_sha256_rsapss_uri 32 32 16 32 32 1
    ∷ []

find_row : PolicyId → List Params → Option Params
find_row id [] = none
find_row id (p ∷ rows) = let rest = find_row id rows in if same_policy p.id id then some p else rest

pub policy_row : PolicyId → Option Params
unfolding find_row
policy_row id = find_row id policy_table

-- memcmp(a, b, n) == 0 of two strings of `n` bytes
abbrev same_bytes : List ℕ → List ℕ → Bool
same_bytes [] [] = true
same_bytes (a ∷ xs) (b ∷ ys) = a == b && same_bytes xs ys
same_bytes _ _ = false

-- `uri` holds at least `n` bytes.
abbrev pub uri_equals : List ℕ → ℕ → List ℕ → Bool
uri_equals uri n expected = n == length expected && same_bytes (take n uri) expected

unfoldable find_uri : List ℕ → ℕ → List Params → PolicyId
find_uri uri n [] = invalid_id
find_uri uri n (p ∷ rows) =
    let rest = find_uri uri n rows in if uri_equals uri n p.uri then p.id else rest

unfoldable pub policy_from_uri : Option (List ℕ) → ℕ → PolicyId
unfolding find_uri
policy_from_uri none n = none_id
policy_from_uri (some uri) n = if n == 0 then none_id else find_uri uri n policy_table

abbrev field : (Params → ℕ) → Option Params → ℕ
field f none = 0
field f (some p) = f p

pub policy_uri : PolicyId → Option (List ℕ)
unfolding policy_row
policy_uri id = elim (policy_row id) [ none ↦ none | some p ↦ some p.uri ]

pub signature_key_length : PolicyId → ℕ
signature_key_length id = field (λ p. p.sig_key_len) (policy_row id)

pub allows_username_password_tokens : PolicyId → ℕ
allows_username_password_tokens id = field (λ p. p.allows_username) (policy_row id)

pub encryption_key_length : PolicyId → ℕ
encryption_key_length id = field (λ p. p.enc_key_len) (policy_row id)

pub encryption_block_size : PolicyId → ℕ
encryption_block_size id = field (λ p. p.block_size) (policy_row id)

pub signature_length : PolicyId → ℕ
signature_length id = field (λ p. p.sig_len) (policy_row id)

pub nonce_length : PolicyId → ℕ
nonce_length id = field (λ p. p.nonce_len) (policy_row id)

pub uses_pss : PolicyId → Bool
uses_pss id = same_policy id aes256_sha256_rsapss_id

abbrev rsa_sha256_uri : List ℕ
rsa_sha256_uri =
    b'h' ∷ b't' ∷ b't' ∷ b'p' ∷ b':' ∷ b'/' ∷ b'/' ∷ b'w' ∷ b'w' ∷ b'w' ∷ b'.' ∷ b'w' ∷ b'3' ∷ b'.'
    ∷ b'o' ∷ b'r' ∷ b'g' ∷ b'/' ∷ b'2' ∷ b'0' ∷ b'0' ∷ b'1' ∷ b'/' ∷ b'0' ∷ b'4' ∷ b'/' ∷ b'x'
    ∷ b'm' ∷ b'l' ∷ b'd' ∷ b's' ∷ b'i' ∷ b'g' ∷ b'-' ∷ b'm' ∷ b'o' ∷ b'r' ∷ b'e' ∷ b'#' ∷ b'r'
    ∷ b's' ∷ b'a' ∷ b'-' ∷ b's' ∷ b'h' ∷ b'a' ∷ b'2' ∷ b'5' ∷ b'6' ∷ []

abbrev rsa_pss_sha256_uri : List ℕ
rsa_pss_sha256_uri =
    b'h' ∷ b't' ∷ b't' ∷ b'p' ∷ b':' ∷ b'/' ∷ b'/' ∷ b'o' ∷ b'p' ∷ b'c' ∷ b'f' ∷ b'o' ∷ b'u' ∷ b'n'
    ∷ b'd' ∷ b'a' ∷ b't' ∷ b'i' ∷ b'o' ∷ b'n' ∷ b'.' ∷ b'o' ∷ b'r' ∷ b'g' ∷ b'/' ∷ b'U' ∷ b'A'
    ∷ b'/' ∷ b's' ∷ b'e' ∷ b'c' ∷ b'u' ∷ b'r' ∷ b'i' ∷ b't' ∷ b'y' ∷ b'/' ∷ b'r' ∷ b's' ∷ b'a'
    ∷ b'-' ∷ b'p' ∷ b's' ∷ b's' ∷ b'-' ∷ b's' ∷ b'h' ∷ b'a' ∷ b'2' ∷ b'-' ∷ b'2' ∷ b'5' ∷ b'6' ∷ []

pub asym_signature_uri : PolicyId → Option (List ℕ)
asym_signature_uri basic256sha256_id = some rsa_sha256_uri
asym_signature_uri aes128_sha256_rsaoaep_id = some rsa_sha256_uri
asym_signature_uri aes256_sha256_rsapss_id = some rsa_pss_sha256_uri
asym_signature_uri _ = none
