-- ===== src/Proxy.antt =====
-- proxy: the loops over one client connection and one broker connection.
pub mod Channel
pub mod Pairing
pub mod AuthState
pub mod Wires
pub mod CopyN
pub mod Handlers
pub mod Processor
