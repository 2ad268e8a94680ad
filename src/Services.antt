-- ===== src/Services.antt =====
-- src/services: the services of the server.
pub mod SecureChannel
pub mod Session
pub mod Subscription
pub mod ServiceHeader
