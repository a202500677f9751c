-- ===== src/Eth2.antt =====
-- src/eth2
pub mod Types
pub mod Codecs
pub mod SlashProtection
pub mod Signing
pub mod Deposit
