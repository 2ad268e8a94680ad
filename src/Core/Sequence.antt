-- ===== src/Core/Sequence.antt =====
-- src/core/sequence.c: the validator of inbound SequenceNumbers (OPC 10000-6 6.7.2.4).
pub mod Accepts
use micro_opcua.Base.{ℕ, ◌+◌, ◌%◌, ◌^◌, Bool, true, false, not, ◌&&◌, ltb, ◌==◌, if◌then◌else◌}
use micro_opcua.Base.Status.{good, bad_securitychecksfailed}

-- mu_sequence_validator_t
pub record Validator : Type 0 where
  pub last_sequence_number : ℕ
  pub is_initialized : Bool

unfoldable pub validator_init : Validator
validator_init = record { last_sequence_number = 0; is_initialized = false }

-- UInt32.MaxValue - 1024
abbrev pub wrap_limit : ℕ
wrap_limit = 4294966271

abbrev accept : Validator → ℕ → Validator × ℕ
accept v sequence_number = (record v { last_sequence_number = sequence_number }, good)

unfoldable pub validate : Validator → ℕ → Validator × ℕ
validate v sequence_number =
    if not v.is_initialized
    then (record { last_sequence_number = sequence_number; is_initialized = true }, good)
    else if sequence_number == (v.last_sequence_number + 1) % 2 ^ 32
    then accept v sequence_number
    else if ltb wrap_limit v.last_sequence_number && ltb sequence_number 1024
    then accept v sequence_number
    else (v, bad_securitychecksfailed)
