-- ===== src/Storage.antt =====
-- crates/storage: the tiers of the store.
pub mod Hot
pub mod Keys
pub mod Database
pub mod Warm
pub mod Cold
