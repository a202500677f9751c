-- ===== src/Enclave/Exit.antt =====
-- src/enclave/guardian: a validator's exit signed with a key share in custody, and a guardian's
-- own key rotated.
pub mod Custody
use validator_guardian.Prelude.{ℕ, none, [], ◌∷◌}
use validator_guardian.Text.{Text, strip_0x_prefix}
use validator_guardian.Outcome.{or_err, invalid_address}
use validator_guardian.Disk.{Exec, ◌>>=◌, lift, pure}
use validator_guardian.External.Hex.{Hex}
use validator_guardian.External.TreeHash.{TreeHash}
use validator_guardian.External.Bls.{Bls}
use validator_guardian.External.Secp.{Secp}
use validator_guardian.External.Ethers.{Ethers, string, address, uint, bytes}
use validator_guardian.External.Session.{Agent}
use validator_guardian.Eth2.Types.{Root, Epoch, ValidatorIndex, ForkInfo, BlsSignature}
use validator_guardian.Eth2.Signing.{voluntary_exit_upper, to_signing_root}
use validator_guardian.Io.RemoteAttestation.{AttestationEvidence, attest}
use validator_guardian.Crypto.EthKeys.{eth_key_gen}
use validator_guardian.Crypto.BlsKeys.{fetch_bls_sk}
use validator_guardian.Enclave.Types.{
  Response, status_ok, created, internal_server_error, respond, respond_with, match_result,
}
use validator_guardian.Enclave.Keys.{KeyGenResponse, from_eth_key}
use validator_guardian.Enclave.Payload.{public_key_set_of}

pub record SignExitRequest : Type 0 where
  pub bls_pub_key_set : Text
  pub guardian_index : ℕ
  pub validator_index : ValidatorIndex
  pub fork_info : ForkInfo

pub record SignExitResponse : Type 0 where
  pub signature : Text
  pub message : Text

pub record KeygenWithBlockhashRequest : Type 0 where
  pub block_number : ℕ
  pub guardian_module_address : Text
  pub chain_id : ℕ

module _ (tree : TreeHash) (bls : Bls) where
  unfoldable pub sign_vem : bls.SecretKey → Epoch → ValidatorIndex → ForkInfo → BlsSignature × Root
  sign_vem sk_share epoch validator_index fork_info =
      let root =
        to_signing_root tree
          (voluntary_exit_upper (record {
            fork_info = fork_info;
            signing_root = none;
            voluntary_exit = record { epoch = epoch; validator_index = validator_index };
          }))
          none in
      (bls.signature_to_bytes (bls.sign sk_share root), root)

module _ (hex : Hex) (tree : TreeHash) (bls : Bls) where
  -- the hex of the public key share, under which the share is stored
  unfoldable pub share_name : bls.PublicKeySet → ℕ → Text
  share_name pk_set i = hex.encode (bls.public_key_share_to_bytes (bls.public_key_share pk_set i))

  unfoldable pub sign_voluntary_exit_message : SignExitRequest → Exec SignExitResponse
  sign_voluntary_exit_message req = do
    pk_set ← lift (public_key_set_of hex bls req.bls_pub_key_set)
    sk_set ← fetch_bls_sk hex bls (share_name pk_set req.guardian_index)
    signed ← pure (sign_vem tree bls (bls.secret_key sk_set) 0 req.validator_index req.fork_info)
    pure (record { signature = hex.encode signed.0; message = hex.encode signed.1 })

  unfoldable pub sign_exit_handler : SignExitRequest → Exec (Response SignExitResponse)
  sign_exit_handler request =
      match_result (sign_voluntary_exit_message request) (λ resp. respond_with status_ok resp)
        (λ e. respond internal_server_error)

-- "ROTATE_GUARDIAN_KEY"
abbrev pub rotate_tag : Text
rotate_tag =
    b'R' ∷ b'O' ∷ b'T' ∷ b'A' ∷ b'T' ∷ b'E' ∷ b'_' ∷ b'G' ∷ b'U' ∷ b'A' ∷ b'R' ∷ b'D' ∷ b'I' ∷ b'A'
    ∷ b'N' ∷ b'_' ∷ b'K' ∷ b'E' ∷ b'Y' ∷ []

module _ (hex : Hex) (secp : Secp) (ethers : Ethers) (agent : Agent) where
  unfoldable pub attest_new_eth_key_with_blockhash :
      ℕ → ℕ → Text → ℕ → Exec (AttestationEvidence × secp.PublicKey)
  attest_new_eth_key_with_blockhash entropy block_number guardian_module_address chain_id = do
    pk ← eth_key_gen hex secp entropy
    module_address ←
        lift
          (or_err (ethers.parse_address (strip_0x_prefix guardian_module_address)) invalid_address)
    proof ← lift (
        attest agent (
          ethers.encode_tokens (
            string rotate_tag
            ∷ address module_address
            ∷ uint chain_id
            ∷ uint block_number
            ∷ bytes (secp.serialize pk)
            ∷ [])))
    pure (proof, pk)

  unfoldable pub attest_fresh_eth_key_handler :
      ℕ → KeygenWithBlockhashRequest → Exec (Response KeyGenResponse)
  attest_fresh_eth_key_handler entropy request_data =
      match_result
        (attest_new_eth_key_with_blockhash entropy request_data.block_number
          request_data.guardian_module_address request_data.chain_id)
        (λ r. respond_with created (from_eth_key hex secp r.1 r.0))
        (λ e. respond internal_server_error)
