-- ===== src/Examples.antt =====
-- Concrete runs: the theorems at inputs where their hypotheses hold.
mod AddressSpace
mod Encoding
mod Core
mod Connection
mod Services
mod Subscription
mod Publishing
