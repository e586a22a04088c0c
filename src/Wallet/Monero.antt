-- ===== src/Wallet/Monero.antt =====
-- wallet/src/core: the online half of a Monero send.
pub mod Fees
pub mod Inputs
pub mod Unsigned
mod Runs
pub mod Decoys
pub mod Node
pub mod Plan
