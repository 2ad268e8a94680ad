-- ===== src/Examples/Connection.antt =====
-- Concrete inputs of the connection, of the headers of responses and of the service prefix.
use micro_opcua.Base.{ℕ, ◌≤◌, List, [], ◌∷◌, ◌++◌, length, arith}
use micro_opcua.Encoding.NodeId.{NodeId, numeric_nodeid}
use micro_opcua.Encoding.NodeId.RoundTrip.{IsNodeId, nodeid_bytes}
use micro_opcua.Core.TcpConnection.{
  tcp_connection_init, Config, HelloState, read_hello, process_hello,
}
use micro_opcua.Core.TcpConnection.Ack.{AckOutcome, hello_reader, process_hello-AckOutcome}
use micro_opcua.Core.Uasc.{symmetric_header_bytes, finalize_symmetric}
use micro_opcua.Core.Uasc.Headers.{msg_header, sequence_header, IsChunk, finalize_symmetric-IsChunk}
use micro_opcua.Core.ServiceMessage.{parse_service_prefix}
use micro_opcua.Core.ServiceMessage.Prefix.{PrefixOutcome, parse_service_prefix-PrefixOutcome}

abbrev zeros32 : List ℕ
zeros32 =
    0 ∷ 0 ∷ 0 ∷ 0 ∷ 0 ∷ 0 ∷ 0 ∷ 0 ∷ 0 ∷ 0 ∷ 0 ∷ 0 ∷ 0 ∷ 0 ∷ 0 ∷ 0 ∷ 0 ∷ 0 ∷ 0 ∷ 0 ∷ 0 ∷ 0 ∷ 0 ∷ 0
    ∷ 0 ∷ 0 ∷ 0 ∷ 0 ∷ 0 ∷ 0 ∷ 0 ∷ 0 ∷ []

abbrev zeros96 : List ℕ
zeros96 = zeros32 ++ (zeros32 ++ zeros32)

abbrev config : Config
config = record {
  receive_buffer_size = 8192;
  send_buffer_size = 8192;
  max_message_size = 8192;
  max_chunk_count = 1;
}

abbrev start : HelloState
start = record { connection = tcp_connection_init; ack = zeros32; ack_length = 32 }

-- A HEL of 32 bytes: version 0, buffers of 65536 bytes, no limits, and no EndpointUrl.
abbrev hel : List ℕ
hel =
    b'H' ∷ b'E' ∷ b'L' ∷ b'F' ∷ 32 ∷ 0 ∷ 0 ∷ 0 ∷ 0 ∷ 0 ∷ 0 ∷ 0 ∷ 0 ∷ 0 ∷ 1 ∷ 0 ∷ 0 ∷ 0 ∷ 1 ∷ 0 ∷ 0
    ∷ 0 ∷ 0 ∷ 0 ∷ 0 ∷ 0 ∷ 0 ∷ 0 ∷ 0 ∷ 0 ∷ 0 ∷ 0 ∷ []

process_hello-AckOutcome_example :
    AckOutcome config
      (read_hello 32 (hello_reader hel 32))
      start
      (process_hello config hel 32 start)
process_hello-AckOutcome_example =
    process_hello-AckOutcome config hel 32 start (omega arith) (omega arith)

abbrev reason : List ℕ
reason = b'n' ∷ b'o' ∷ []

finalize_symmetric-IsChunk_example :
    IsChunk
      (finalize_symmetric 32 1 2 51 7 8)
      zeros32
      (symmetric_header_bytes 32 1 2 51 7)
      32
      16
      (msg_header 32 1)
      (sequence_header 51 7)
finalize_symmetric-IsChunk_example =
    finalize_symmetric-IsChunk zeros32 32 1 2 51 7 8 (omega arith) (omega arith) (omega arith)
      (omega arith) (omega arith) (omega arith)

-- ReadRequest
abbrev request : NodeId
request = numeric_nodeid 0 631

request-IsNodeId : IsNodeId request
request-IsNodeId = IsNodeId.numeric_id 0 631 (omega arith) (omega arith)

request-fits : length (nodeid_bytes request) ≤ 32
unfolding nodeid_bytes
request-fits = omega arith

parse_service_prefix-PrefixOutcome_example :
    PrefixOutcome 4 0 (parse_service_prefix (1 ∷ 0 ∷ 119 ∷ 2 ∷ []) 4 0)
parse_service_prefix-PrefixOutcome_example =
    parse_service_prefix-PrefixOutcome (1 ∷ 0 ∷ 119 ∷ 2 ∷ []) 4 0 (omega arith) (omega arith)
