-- ===== src/Client.antt =====
-- src/client: what runs at the client's side.
pub mod Keygen
pub mod Call
pub mod Guardian
pub mod Validator
pub mod SecureSigner
pub mod Builder
