-- ===== src/Processor.antt =====
-- crates/processor: the messages of the streams are indexed in the warm store.
pub mod Parsers
pub mod Indexer
