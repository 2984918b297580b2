-- ===== src/Ingestion/Decoders.antt =====
-- crates/ingestion/src/decoders.rs: the wire format of the payloads. A read outside the payload
-- panics; a payload that is too short is an error.
pub mod Guards
pub mod Records
pub mod Mining
pub mod Tables
pub mod Transaction
pub mod Tick
pub mod LogEvents
