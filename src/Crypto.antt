-- ===== src/Crypto.antt =====
-- src/crypto.
pub mod BlsKeys
pub mod EthKeys
pub mod Keystore
