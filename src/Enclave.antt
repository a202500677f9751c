-- ===== src/Enclave.antt =====
-- src/enclave.
pub mod Types
pub mod Payload
pub mod Keys
pub mod Shared
pub mod SecureSigner
pub mod Validator
pub mod Session
pub mod Guardian
pub mod Exit
pub mod Handover
