-- ===== src/Encoding/DataValue/Safety.antt =====
-- Memory safety of the DataValue decoder of binary_datavalue.c.
use micro_opcua.Base.{ℕ, Bool, true, false}
use micro_opcua.Base.Outcome.{Prog}
use micro_opcua.Encoding.Reader.{Reader}
use micro_opcua.Encoding.Reader.Safety.{Safe, >>=-Safe, >>-Safe, done-Safe}
use micro_opcua.Encoding.Reader.Safety.Primitives.{
  read_byte-Safe, read_uint16-Safe, read_int64-Safe, read_statuscode-Safe,
}
use micro_opcua.Encoding.NodeId.{bit}
use micro_opcua.Encoding.Variant.Safety.{read_variant-Safe}
use micro_opcua.Encoding.DataValue.{read_option, skip_pico, read_fields, read_datavalue}

read_option-Safe : {A : Type 0} (b : Bool) (m : Prog Reader A) → Safe m → Safe (read_option b m)
unfolding read_option
read_option-Safe true m h = >>=-Safe _ _ h λ a. done-Safe _
read_option-Safe false m h = done-Safe _

skip_pico-Safe : (b : Bool) → Safe (skip_pico b)
skip_pico-Safe true = >>=-Safe _ _ read_uint16-Safe λ pico. done-Safe tt
skip_pico-Safe false = done-Safe tt

read_fields-Safe : (mask : ℕ) → Safe (read_fields mask)
unfolding read_fields
read_fields-Safe mask = >>=-Safe _ _ (read_option-Safe (bit 0 mask) _ read_variant-Safe) λ value.
    >>=-Safe _ _ (read_option-Safe (bit 1 mask) _ read_statuscode-Safe) λ status.
      >>=-Safe _ _ (read_option-Safe (bit 2 mask) _ read_int64-Safe) λ source.
        >>-Safe _ _ (skip_pico-Safe (bit 4 mask)) (
          >>=-Safe _ _ (read_option-Safe (bit 3 mask) _ read_int64-Safe)
            λ server. >>-Safe _ _ (skip_pico-Safe (bit 5 mask)) (done-Safe _))

-- On every buffer that holds as many bytes as the reader is told, whatever they are, mu_binary_read_datavalue
-- reads no byte out of bounds, keeps the buffer and its length, moves the position forward and within the
-- length only, and every status that it fails with is different from MU_STATUS_GOOD.
pub read_datavalue-Safe : Safe read_datavalue
unfolding read_datavalue
read_datavalue-Safe = >>=-Safe _ _ read_byte-Safe read_fields-Safe
