-- ===== src/Core/TcpConnection/Negotiation.antt =====
-- The values that a connection has after a HEL message.
use micro_opcua.Base.{ℕ, ◌%◌, ◌^◌, ◌≤◌, ◌≢◌, arith}
use micro_opcua.Core.TcpConnection.{Connection, Config, Hello, negotiate, smaller, unless_zero}

-- What OPC 10000-6 7.1.2.4 asks of the values: no buffer of this side exceeds what the peer or the
-- configuration allows for its counterpart, no limit exceeds the one of the configuration or the one that
-- the peer named, where it named one (0 is no limit), and where the configuration has a limit there is one.
pub record IsNegotiated (config : Config) (h : Hello) (c : Connection) : Type 0 where
  pub receive_peer : c.receive_buffer_size ≤ h.receive_buffer_size
  pub receive_own : c.receive_buffer_size ≤ config.send_buffer_size
  pub send_peer : c.send_buffer_size ≤ h.send_buffer_size
  pub send_own : c.send_buffer_size ≤ config.receive_buffer_size
  pub message_own : c.max_message_size ≤ config.max_message_size
  pub message_peer : h.max_message_size ≢ 0 → c.max_message_size ≤ h.max_message_size
  pub message_limited : config.max_message_size ≢ 0 → c.max_message_size ≢ 0
  pub chunks_own : c.max_chunk_count ≤ config.max_chunk_count
  pub chunks_peer : h.max_chunk_count ≢ 0 → c.max_chunk_count ≤ h.max_chunk_count
  pub chunks_limited : config.max_chunk_count ≢ 0 → c.max_chunk_count ≢ 0

pub smaller-le : (a b : ℕ) → (smaller a (b % 2 ^ 32) ≤ a) × (smaller a (b % 2 ^ 32) ≤ b)
smaller-le a b = (ground arith, ground arith)

pub limit-bounds :
    (a b : ℕ)
    → (unless_zero (smaller a b) b ≤ b)
      × (a ≢ 0 → unless_zero (smaller a b) b ≤ a)
      × (b ≢ 0 → unless_zero (smaller a b) b ≢ 0)
limit-bounds a b = (ground arith, λ h. ground arith, λ h. ground arith)

pub negotiate-IsNegotiated :
    (config : Config) (h : Hello) (c : Connection) → IsNegotiated config h (negotiate config h c)
unfolding negotiate
negotiate-IsNegotiated config h c =
    let (message_own, message_peer, message_limited) =
      limit-bounds h.max_message_size config.max_message_size in
    let (chunks_own, chunks_peer, chunks_limited) =
      limit-bounds h.max_chunk_count config.max_chunk_count in
    record {
      receive_peer = (smaller-le h.receive_buffer_size config.send_buffer_size).0;
      receive_own = (smaller-le h.receive_buffer_size config.send_buffer_size).1;
      send_peer = (smaller-le h.send_buffer_size config.receive_buffer_size).0;
      send_own = (smaller-le h.send_buffer_size config.receive_buffer_size).1;
      message_own = message_own;
      message_peer = message_peer;
      message_limited = message_limited;
      chunks_own = chunks_own;
      chunks_peer = chunks_peer;
      chunks_limited = chunks_limited;
    }
