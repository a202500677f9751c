-- ===== src/Server.antt =====
-- src/bin: the servers, as one function from a call at a route to its answer.
pub mod Startup
pub mod Paths
pub mod Keeps
pub mod Quiet
pub mod Recording
pub mod Life
pub mod SecureSigner
pub mod Validator
pub mod Guardian
