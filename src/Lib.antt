-- ===== src/Lib.antt =====
-- Validator Guardian: an enclave server that keeps Ethereum validator keys, signs for validators
-- under slashing protection, and shares validator keys among guardians.
--
-- The program. Three servers share one crate. The secure signer generates keys and signs what a
-- validator client sends; the validator generates a threshold BLS key, encrypts a share of it to
-- every guardian and signs its deposit; a guardian checks such a payload, keeps its share, approves
-- the custody and later signs the validator's exit with the share. All state is in files: keys
-- under ./data/keys, and one record of slashing protection for each key under ./data/slashing.
-- Every operation is an action on the model's disk, with the state that it leaves when it fails.
--
-- The files (paths of the source from the repository's root):
--   Prelude, Text         shared notation; strings as bytes; the macro of src/lib.rs
--   Outcome               results: a value, an error, or a panic
--   Disk, Disk/Laws       the file system as a map from paths to contents, and std::fs on it;
--                         Disk/Resolve is Path::exists, which follows "." and ".."
--   Constants             src/constants.rs
--   External/*            crates and services as parameters: hex, tree_hash, ssz_types, blsttc,
--                         ecies with libsecp256k1 and sha3, ethers, eth_keystore, num_bigint, reqwest, the
--                         CVM agent and the session registry; each with the laws that its
--                         documentation gives, in a record Is..., which only the theorems that need
--                         it take
--   Eth2/Types            src/eth2/eth_types.rs
--   Eth2/SlashProtection  src/eth2/slash_protection.rs: new_block, new_attestation and the checks
--   Eth2/Signing          src/eth2/eth_signing.rs: domains, signing roots, kinds of messages
--   Eth2/Deposit          src/eth2/eth_signing.rs: deposits
--   Eth2/Codecs           src/eth2/eth_types.rs: the custom (de)serialisers; Decimals is on U256 and
--                         Hexes on bytes and lists of vectors
--   Io/KeyManagement      src/io/key_management.rs: key files and keystores
--   Io/RemoteAttestation  src/io/remote_attestation.rs
--   Crypto/BlsKeys        src/crypto/bls_keys.rs
--   Crypto/EthKeys        src/crypto/eth_keys.rs
--   Crypto/Keystore       src/crypto/keystore.rs: import_keystore
--   Client/Keygen         src/client/keygen.rs: a validator key generated at the client
--   Client/Call, Client/Guardian, Client/Validator, Client/SecureSigner, Client/Builder
--                         src/client: the HTTP clients over a transport
--   Enclave/Types, Enclave/Payload, Enclave/Keys
--                         src/enclave/types.rs and the listing handlers
--   Enclave/Shared        src/enclave/shared/mod.rs: sign_validator_message with is_slashable and
--                         update_slash_protection_db; Records, Levels and Update are on the
--                         records of all keys, Guard, Availability and Deposits on the answers,
--                         History on all that is signed over time, Attestation on the payload that
--                         the CVM agent signs; Interleaved takes a request apart into the steps
--                         between which another request may run
--   Enclave/SecureSigner  src/enclave/secure_signer: key generation and deposits; Keygen is on the
--                         files that a generation leaves, Deposits on the answers of the endpoint
--   Enclave/Validator     src/enclave/validator: attest_fresh_bls_key; Sealed is on its payload
--   Enclave/Session       src/enclave/guardian/mod.rs: verify_session_evidence; Message is on the
--                         attested message, Evidence on what passing establishes
--   Enclave/Guardian      src/enclave/guardian/mod.rs: verify_and_sign_custody_received;
--                         Share and Deposit are on its checks, Custody on its outcomes
--   Enclave/Exit          src/enclave/guardian/mod.rs: exits and the rotation of a guardian's key;
--                         Custody is on an exit after the request that saved the share
--   Enclave/Handover      a payload from attest_fresh_bls_key to the checks of a guardian; Deposit is
--                         on its deposit and Attested on the message that the CVM agent signs
--   Server/SecureSigner, Server/Validator, Server/Guardian
--                         src/bin: each server as one function from a matched request to its answer,
--                         and everything that it signs over a sequence of requests
--   Server/Startup        src/bin: the port and the fork version that a server starts with
--   Tests                 a concrete world that meets the laws, with every theorem applied in it
--
-- How the model reads the source. A `String` is its bytes. An `Err` is a constructor of Error
-- without its text; a panic is a result of its own, which ends the request. `u64` is a natural
-- number: the modelled code compares, divides and serialises such numbers, and wraps only in
-- `threshold - 1`, which is written out for a release build. The two spellings of a message's type
-- tag are constructors of their own. Hashes of containers come from the parameter TreeHash, one
-- function for each container. Random numbers are arguments. There is no fuel: every loop runs over
-- a list or a number of steps.
--
-- Bounds of the model. A path is its text, for all but Path::exists. A file is replaced whole or not
-- at all. A request runs to its end before the next begins, as in a server that handles one request
-- at a time, except in Enclave/Shared/Interleaved: the source takes no lock between the check of a
-- record and its update. Histories of signatures start from a disk on which every record stands in
-- the file of its own key, and ask of a generated key that its record has no file yet.
--
-- Not modelled: the JSON that serde derives, the matching of requests to routes, which is axum's,
-- the mocks of the clients, the requests to the CVM agent and to the session registry, whose answers
-- are parameters, and the command line (src/cli), which the crate does not compile in.
pub mod Prelude
pub mod Text
pub mod Outcome
pub mod Disk
pub mod Constants
pub mod Eth2
pub mod External
pub mod Io
pub mod Crypto
pub mod Client
pub mod Server
pub mod Enclave
mod Tests
