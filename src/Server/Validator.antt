-- ===== src/Server/Validator.antt =====
-- src/bin/validator.rs: the validator.
pub mod Generation
pub mod Life
use validator_guardian.Prelude.{ℕ, List}
use validator_guardian.Text.{Text}
use validator_guardian.Disk.{Exec}
use validator_guardian.External.Hex.{Hex}
use validator_guardian.External.Ssz.{Ssz}
use validator_guardian.External.TreeHash.{TreeHash}
use validator_guardian.External.Bls.{Bls}
use validator_guardian.External.Secp.{Secp}
use validator_guardian.External.Session.{Agent}
use validator_guardian.Eth2.Signing.{BlsSignMsg}
use validator_guardian.Eth2.SlashProtection.Storage.{Serde}
use validator_guardian.Enclave.Types.{Response, SignatureResponse}
use validator_guardian.Enclave.Keys.{
  ListKeysResponse, list_bls_keys_handler, list_bls_keys_for_vc_handler,
}
use validator_guardian.Enclave.Payload.{BlsKeygenPayload}
use validator_guardian.Enclave.Validator.{AttestFreshBlsKeyPayload, attest_fresh_bls_key_handler}
use validator_guardian.Enclave.Shared.{AppState, sign_validator_message}
use validator_guardian.Server.Quiet.{answered}
use validator_guardian.Server.SecureSigner.{health_handler}

-- A request that the router has matched, as for the secure signer.
pub data Call (secp : Secp) : Type 0 where
  upcheck : Call secp
  keygen : (ℕ → ℕ) → AttestFreshBlsKeyPayload secp → Call secp
  list_bls_keys : Call secp
  list_bls_keys_for_vc : Call secp
  secure_sign_bls : Text → BlsSignMsg → Call secp

pub data Answer : Type 0 where
  health : Response Unit → Answer
  generated : Response BlsKeygenPayload → Answer
  listed : Response ListKeysResponse → Answer
  listed_for_vc : Response (List Text) → Answer
  signed : Response SignatureResponse → Answer

module _ (hex : Hex) (ssz : Ssz) (serde : Serde) (tree : TreeHash) (secp : Secp) (bls : Bls)
    (agent : Agent) (state : AppState) where
  -- the routes with their handlers
  unfoldable pub serve : Call secp → Exec Answer
  serve upcheck = answered health health_handler
  serve (keygen seed request) =
      answered generated
        (attest_fresh_bls_key_handler hex ssz serde tree secp bls agent seed request)
  serve list_bls_keys = answered listed list_bls_keys_handler
  serve list_bls_keys_for_vc = answered listed_for_vc list_bls_keys_for_vc_handler
  serve (secure_sign_bls bls_pk_hex req) =
      answered signed (sign_validator_message hex serde tree bls bls_pk_hex state req)
