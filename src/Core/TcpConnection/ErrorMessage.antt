-- ===== src/Core/TcpConnection/ErrorMessage.antt =====
-- The ERR message of tcp_connection.c, against the parser of message_chunk.c.
use micro_opcua.Base.{ℕ, ◌+◌, List, ◌++◌, length}
use micro_opcua.Encoding.Text.RoundTrip.{str_of, str_bytes}
use micro_opcua.Core.MessageChunk.{MessageHeader}
use micro_opcua.Core.TcpConnection.{error_header_bytes}

-- The header of a final ERR chunk.
abbrev pub error_header : ℕ → MessageHeader
error_header n = record {
  type0 = b'E';
  type1 = b'R';
  type2 = b'R';
  chunk_type = b'F';
  message_size = n;
  secure_channel_id = 0;
}

-- An ERR message, of OPC 10000-6 7.1.2.5: header, error and reason.
pub error_bytes : ℕ → List ℕ → List ℕ
error_bytes error_code reason =
    error_header_bytes (16 + length reason) error_code ++ str_bytes (str_of reason)
