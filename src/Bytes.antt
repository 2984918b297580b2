-- ===== src/Bytes.antt =====
-- Byte strings: little- and big-endian integers (`from_le_bytes`, `to_be_bytes` and their kin),
-- slices that fault out of range, and two's complement. A byte is a number below 256.
pub mod Endian
pub mod Slices
pub mod Layout
mod Defs
unfoldable pub use Defs.*
