-- ===== src/Security.antt =====
-- src/security: the SecurityPolicies.
pub mod Policy
