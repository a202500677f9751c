-- ===== src/Tests.antt =====
-- A concrete world in which every external component is a small function that meets its laws, and
-- the theorems applied in it.
mod HexWorld
mod SerdeWorld
mod World
mod CustodyWorld
mod Signing
mod Records
mod Custody
mod Keygen
mod SmallWorld
mod Handover
mod Keystores
mod Codecs
mod Server
mod Validators
mod Startup
mod Races
mod Deposits
mod Paths
mod Guardian
mod Attested
