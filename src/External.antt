-- ===== src/External.antt =====
-- The libraries and services that the program calls, as records of the functions that it uses.
pub mod Hex
pub mod TreeHash
pub mod Bls
pub mod Secp
pub mod Ethers
pub mod Session
pub mod Keystore
pub mod Ssz
pub mod BigUint
pub mod Http
