-- ===== src/Io.antt =====
-- src/io.
pub mod KeyManagement
pub mod RemoteAttestation
