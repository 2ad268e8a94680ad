-- ===== src/Examples/Encoding.antt =====
-- Concrete inputs of the codecs of src/encoding.
use micro_opcua.Base.{◌≡◌, refl, none, some, List, [], ◌∷◌, ◌++◌, arith}
use micro_opcua.Base.Int.{pos}
use micro_opcua.Base.Status.{bad_decodingerror}
use micro_opcua.Base.Outcome.{err}
use micro_opcua.Encoding.Reader.Decodes.{reader_at, Decodes}
use micro_opcua.Encoding.Reader.Safety.{Safe}
use micro_opcua.Encoding.Text.{Str, read_string, write_string}
use micro_opcua.Encoding.Text.RoundTrip.{str_of, IsStr, str_bytes}
use micro_opcua.Encoding.NodeId.{NodeId, QualifiedName, numeric_nodeid, read_nodeid, write_nodeid}
use micro_opcua.Encoding.NodeId.RoundTrip.{IsNodeId, nodeid_bytes}
use micro_opcua.Encoding.ExtensionObject.{skip_extension_object, read_extension_object_body}
use micro_opcua.Encoding.ExtensionObject.Safety.{read_extension_object_body-Safe}
use micro_opcua.Encoding.ExtensionObject.RoundTrip.{
  extension_object_header_bytes, skip_extension_object-Decodes,
}
use micro_opcua.Encoding.Variant.{Scalar, scalar, read_variant}
use micro_opcua.Encoding.Variant.Arrays.{read_variant_refuses_arrays}
use micro_opcua.Encoding.Variant.Safety.{read_variant-Safe}
use micro_opcua.Encoding.DataValue.{DataValue}
use micro_opcua.Encoding.Codec.{Codec, nodeid-Codec, string-Codec}

abbrev hello : Str
hello = str_of (b'h' ∷ b'i' ∷ [])

hello-IsStr : IsStr hello
hello-IsStr = IsStr.text _ (omega arith)

-- A node of namespace 1.
abbrev node : NodeId
node = numeric_nodeid 1 1000

node-IsNodeId : IsNodeId node
node-IsNodeId = IsNodeId.numeric_id 1 1000 (omega arith) (omega arith)

abbrev browse_name : QualifiedName
browse_name = record { namespace_index = 1; name = hello }

-- A temperature with its time.
abbrev reading : DataValue
reading = record {
  value = some (scalar (Scalar.int32 (pos 21)));
  status = none;
  source_timestamp = some (pos 1000);
  server_timestamp = none;
}

nodeid-Codec_example : Codec (write_nodeid (some node)) read_nodeid (nodeid_bytes node) node
nodeid-Codec_example = nodeid-Codec node node-IsNodeId

string-Codec_example : Codec (write_string (some hello)) read_string (str_bytes hello) hello
string-Codec_example = string-Codec hello hello-IsStr

skip_extension_object-Decodes_example :
    Decodes skip_extension_object (extension_object_header_bytes node 2 ++ 7 ∷ 8 ∷ []) tt
skip_extension_object-Decodes_example =
    skip_extension_object-Decodes node (7 ∷ 8 ∷ []) node-IsNodeId (omega arith)

read_extension_object_body-Safe_example : Safe (read_extension_object_body 4 read_variant)
read_extension_object_body-Safe_example =
    read_extension_object_body-Safe 4 read_variant read_variant-Safe

abbrev bytes_of_array : List Scalar
bytes_of_array = Scalar.byte 5 ∷ Scalar.byte 6 ∷ []

read_variant_refuses_arrays_example :
    read_variant (reader_at [] (131 ∷ 2 ∷ []))
    ≡ err bad_decodingerror (reader_at (131 ∷ []) (2 ∷ []))
read_variant_refuses_arrays_example = read_variant_refuses_arrays 131 [] (2 ∷ []) refl
