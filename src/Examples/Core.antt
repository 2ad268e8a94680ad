-- ===== src/Examples/Core.antt =====
-- Concrete inputs of the headers and of the sequence validator of src/core.
use micro_opcua.Base.{ℕ, ◌≡◌, ◌≢◌, ◌↔◌, refl, true, some, List, [], ◌∷◌, ◌++◌, drop, arith}
use micro_opcua.Base.Status.{good}
use micro_opcua.Base.Outcome.{ok}
use micro_opcua.Core.MessageChunk.{
  MessageHeader, SequenceHeader, is_message_type, parse_message_header, write_message_header,
  message_header_bytes,
}
use micro_opcua.Core.MessageChunk.Bounds.{ParseOutcome, parse_message_header-ParseOutcome}
use micro_opcua.Core.MessageChunk.RoundTrip.{IsFinal, parse-write_message_header}
use micro_opcua.Core.Sequence.{Validator, validator_init, validate}
use micro_opcua.Core.Sequence.Accepts.{Run, validate_all, validate_all_iff}

-- A MSG chunk of sixteen bytes on channel 7.
abbrev header : MessageHeader
header = record {
  type0 = b'M';
  type1 = b'S';
  type2 = b'G';
  chunk_type = b'F';
  message_size = 16;
  secure_channel_id = 7;
}

abbrev buffer : List ℕ
buffer = 0 ∷ 0 ∷ 0 ∷ 0 ∷ 0 ∷ 0 ∷ 0 ∷ 0 ∷ 0 ∷ 0 ∷ 0 ∷ 0 ∷ 0 ∷ 0 ∷ 0 ∷ 0 ∷ []

header-IsFinal : IsFinal 16 header
unfolding is_message_type
header-IsFinal = record {
  known = refl;
  final = refl;
  min_size = omega arith;
  max_size = omega arith;
  size_fits = omega arith;
  id_fits = omega arith;
  connection = λ e. absurd (ground arith);
}

parse_message_header-ParseOutcome_example : ParseOutcome 16 (parse_message_header (some buffer) 16)
parse_message_header-ParseOutcome_example =
    parse_message_header-ParseOutcome buffer 16 (omega arith)

parse-write_message_header_example :
    (write_message_header 16 header buffer ≡ ok tt (message_header_bytes header ++ drop 12 buffer))
    × (parse_message_header (some (message_header_bytes header ++ drop 12 buffer)) 16
        ≡ ok header tt)
parse-write_message_header_example =
    parse-write_message_header buffer 16 header (omega arith) header-IsFinal

abbrev sequence : SequenceHeader
sequence = record { sequence_number = 51; request_id = 3 }

validate_all_iff_example :
    (validate_all validator_init (4294967295 ∷ 0 ∷ 1 ∷ []) ≡ true) ↔ Run 4294967295 (0 ∷ 1 ∷ [])
validate_all_iff_example = validate_all_iff 4294967295 (0 ∷ 1 ∷ [])

abbrev after_five : Validator
after_five = record { last_sequence_number = 5; is_initialized = true }

seven_refused : (validate after_five 7).1 ≢ good
unfolding validate
seven_refused = omega arith
