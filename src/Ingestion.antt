-- ===== src/Ingestion.antt =====
-- crates/ingestion: from the node's TCP stream to published events.
pub mod Protocol
pub mod Decoders
pub mod Votes
pub mod Dispatch
pub mod Peers
pub mod Backfill
