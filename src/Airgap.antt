-- ===== src/Airgap.antt =====
-- src/airgap: the wire between the two phones.
pub mod Base32
pub mod Crc
pub mod Envelope
pub mod Cbor
pub mod Bytewords
pub mod Bbqr
pub mod Base43
pub mod Fountain
pub mod Ur
pub mod Scanner
mod Runs
