-- ===== src/Core.antt =====
-- crates/core: the shared definitions of the wire protocol and the identities.
pub mod MessageType
pub mod Header
pub mod Identity
pub mod Hash
pub mod InputType
pub mod Epochs
pub mod Pipeline
pub mod Asset
