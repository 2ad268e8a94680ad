-- ===== src/Encoding.antt =====
-- src/encoding and include/muc_opcua/encoding.h: the OPC UA binary codecs.
pub mod Le
pub mod Reader
pub mod Writer
pub mod Text
pub mod NodeId
pub mod ExtensionObject
pub mod Variant
pub mod DataValue
pub mod Codec
