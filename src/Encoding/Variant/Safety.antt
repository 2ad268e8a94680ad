-- ===== src/Encoding/Variant/Safety.antt =====
-- Memory safety of the Variant decoder of binary_variant.c.
use micro_opcua.Base.{ℕ, ◌%◌, ◌||◌, arith}
use micro_opcua.Encoding.Reader.Safety.{Safe, >>=-Safe, done-Safe, fails-Safe}
use micro_opcua.Encoding.Reader.Safety.Primitives.{
  read_byte-Safe, read_boolean-Safe, read_sbyte-Safe, read_uint16-Safe, read_int16-Safe,
  read_uint32-Safe, read_int32-Safe, read_uint64-Safe, read_int64-Safe, read_float-Safe,
  read_double-Safe, read_statuscode-Safe,
}
use micro_opcua.Encoding.Text.Safety.{read_string-Safe, read_bytestring-Safe}
use micro_opcua.Encoding.NodeId.{bit}
use micro_opcua.Encoding.NodeId.Safety.{
  read_nodeid-Safe, read_qualified_name-Safe, if-Safe, read_if-Safe,
}
use micro_opcua.Encoding.Variant.{
  Builtin, null, boolean, sbyte, byte, int16, uint16, int32, uint32, int64, uint64, float, double,
  string, datetime, bytestring, nodeid, statuscode, qualified_name, localized_text, unsupported,
  builtin_of, read_localized_text, read_value, read_variant_of, read_variant,
}

read_localized_text-Safe : Safe read_localized_text
unfolding read_localized_text
read_localized_text-Safe = >>=-Safe _ _ read_byte-Safe λ mask.
    >>=-Safe _ _ (read_if-Safe (bit 0 mask) _ _ read_string-Safe)
      λ locale. >>=-Safe _ _ (read_if-Safe (bit 1 mask) _ _ read_string-Safe) λ text. done-Safe _

read_value-Safe : (type : Builtin) → Safe (read_value type)
unfolding read_value
read_value-Safe null = done-Safe _
read_value-Safe boolean = >>=-Safe _ _ read_boolean-Safe λ v. done-Safe _
read_value-Safe sbyte = >>=-Safe _ _ read_sbyte-Safe λ v. done-Safe _
read_value-Safe byte = >>=-Safe _ _ read_byte-Safe λ v. done-Safe _
read_value-Safe int16 = >>=-Safe _ _ read_int16-Safe λ v. done-Safe _
read_value-Safe uint16 = >>=-Safe _ _ read_uint16-Safe λ v. done-Safe _
read_value-Safe int32 = >>=-Safe _ _ read_int32-Safe λ v. done-Safe _
read_value-Safe uint32 = >>=-Safe _ _ read_uint32-Safe λ v. done-Safe _
read_value-Safe int64 = >>=-Safe _ _ read_int64-Safe λ v. done-Safe _
read_value-Safe uint64 = >>=-Safe _ _ read_uint64-Safe λ v. done-Safe _
read_value-Safe float = >>=-Safe _ _ read_float-Safe λ v. done-Safe _
read_value-Safe double = >>=-Safe _ _ read_double-Safe λ v. done-Safe _
read_value-Safe string = >>=-Safe _ _ read_string-Safe λ v. done-Safe _
read_value-Safe datetime = >>=-Safe _ _ read_int64-Safe λ v. done-Safe _
read_value-Safe bytestring = >>=-Safe _ _ read_bytestring-Safe λ v. done-Safe _
read_value-Safe nodeid = >>=-Safe _ _ read_nodeid-Safe λ v. done-Safe _
read_value-Safe statuscode = >>=-Safe _ _ read_statuscode-Safe λ v. done-Safe _
read_value-Safe qualified_name = >>=-Safe _ _ read_qualified_name-Safe λ v. done-Safe _
read_value-Safe localized_text = read_localized_text-Safe
read_value-Safe (unsupported c) = fails-Safe _ (omega arith)

read_variant_of-Safe : (mask : ℕ) → Safe (read_variant_of mask)
unfolding read_variant_of
read_variant_of-Safe mask =
    if-Safe (bit 7 mask || bit 6 mask) _ _ (fails-Safe _ (omega arith))
      (>>=-Safe _ _ (read_value-Safe (builtin_of (mask % 64))) λ v. done-Safe _)

-- On every buffer that holds as many bytes as the reader is told, whatever they are, mu_binary_read_variant
-- reads no byte out of bounds, keeps the buffer and its length, moves the position forward and within the
-- length only, and every status that it fails with is different from MU_STATUS_GOOD.
pub read_variant-Safe : Safe read_variant
unfolding read_variant
read_variant-Safe = >>=-Safe _ _ read_byte-Safe read_variant_of-Safe
