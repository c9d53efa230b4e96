-- ===== src/Proxy/Handlers.antt =====
-- The handlers of proxy/processor_default.go and proxy/processor_sasl_auth_v0.go.
pub mod Acks
pub mod HeaderLengths
pub mod TaggedFields
pub mod Request
pub mod Response
pub mod Forwarded
pub mod Idle
pub mod TaggedGrammar
pub mod TaggedRead
pub mod Kept
pub mod Relayed
pub mod Consumed
pub mod Answered
