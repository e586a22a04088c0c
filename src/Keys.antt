-- ===== src/Keys.antt =====
-- src/keys: the formats of the vault's Monero side.
mod Runs
pub mod Hex
pub mod Varint
pub mod Archive
pub mod Chunks
pub mod Extra
pub mod Offsets
pub mod Weight
pub mod Wire
