-- ===== src/Wallet.antt =====
-- wallet/src/core: the half of the system that is online and holds no key.
mod Runs
pub mod Model
pub mod Session
pub mod Addresses
pub mod Verify
pub mod Coins
pub mod Change
pub mod Signgate
pub mod Prepare
pub mod Units
pub mod Wire
pub mod Monero
