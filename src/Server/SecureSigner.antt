-- ===== src/Server/SecureSigner.antt =====
-- src/bin/secure-signer.rs: the secure signer.
pub mod Generation
pub mod Calls
pub mod Life
use validator_guardian.Prelude.{ℕ}
use validator_guardian.Text.{Text}
use validator_guardian.Disk.{Exec, ◌>>=◌, pure}
use validator_guardian.External.Hex.{Hex}
use validator_guardian.External.Ssz.{Ssz}
use validator_guardian.External.TreeHash.{TreeHash}
use validator_guardian.External.Bls.{Bls}
use validator_guardian.External.Secp.{Secp}
use validator_guardian.External.Session.{Agent}
use validator_guardian.Eth2.Types.{DepositRequest, DepositResponse}
use validator_guardian.Eth2.Signing.{BlsSignMsg}
use validator_guardian.Eth2.SlashProtection.Storage.{Serde}
use validator_guardian.Enclave.Types.{Response, SignatureResponse, status_ok, respond}
use validator_guardian.Enclave.Keys.{
  KeyGenResponse, ListKeysResponse, list_bls_keys_handler, list_eth_keys_handler,
}
use validator_guardian.Enclave.SecureSigner.{
  eth_keygen_handler, bls_keygen_handler, validator_deposit_handler,
}
use validator_guardian.Server.Quiet.{answered}
use validator_guardian.Enclave.Shared.{AppState, sign_validator_message}

-- A request that the router has matched, with the parameter of its path and its parsed body; for a
-- generation with what the random number generator yields.
pub data Call : Type 0 where
  upcheck : Call
  eth_keygen : ℕ → Call
  bls_keygen : ℕ → Call
  list_eth_keys : Call
  list_bls_keys : Call
  validator_deposit : DepositRequest → Call
  secure_sign_bls : Text → BlsSignMsg → Call

pub data Answer : Type 0 where
  health : Response Unit → Answer
  generated : Response KeyGenResponse → Answer
  listed : Response ListKeysResponse → Answer
  deposited : Response DepositResponse → Answer
  signed : Response SignatureResponse → Answer

-- `health::handler`
unfoldable pub health_handler : Exec (Response Unit)
health_handler = respond status_ok

module _ (hex : Hex) (ssz : Ssz) (serde : Serde) (tree : TreeHash) (secp : Secp) (bls : Bls)
    (agent : Agent) (state : AppState) where
  -- the routes with their handlers
  unfoldable pub serve : Call → Exec Answer
  serve upcheck = answered health health_handler
  serve (eth_keygen entropy) = answered generated (eth_keygen_handler hex secp agent entropy)
  serve (bls_keygen entropy) =
      answered generated (bls_keygen_handler hex ssz serde bls agent entropy)
  serve list_eth_keys = answered listed list_eth_keys_handler
  serve list_bls_keys = answered listed list_bls_keys_handler
  serve (validator_deposit req) = answered deposited (validator_deposit_handler hex tree bls req)
  serve (secure_sign_bls bls_pk_hex req) =
      answered signed (sign_validator_message hex serde tree bls bls_pk_hex state req)
