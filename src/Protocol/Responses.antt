-- ===== src/Protocol/Responses.antt =====
-- proxy/protocol/responses.go: the responses whose broker addresses are rewritten.
mod Names
pub mod MetadataParts
pub mod MetadataSchemas
pub mod CoordinatorSchemas
pub mod Modify
pub mod Address
pub mod Each
pub mod Rewrite
pub mod Refusals
pub mod Total
pub mod Versions
pub mod Applied
pub mod Supported
pub mod HeaderVersions
