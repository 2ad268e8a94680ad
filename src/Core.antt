-- ===== src/Core.antt =====
-- src/core: framing of the transport and of the secure channel.
pub mod Sequence
pub mod TcpConnection
pub mod Uasc
pub mod ServiceMessage
pub mod MessageChunk
pub mod Server
