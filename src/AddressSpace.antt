-- ===== src/AddressSpace.antt =====
-- src/address_space: the nodes of the server.
pub mod NodeLookup
pub mod NodeIndex
pub mod Validation
pub mod ValueSource
