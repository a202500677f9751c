-- ===== src/Enclave/SecureSigner.antt =====
-- src/enclave/secure_signer: key generation and deposits of the secure signer.
pub mod Keygen
pub mod Deposits
use validator_guardian.Prelude.{ℕ, not, if◌then◌else◌}
use validator_guardian.Disk.{Exec, ◌>>=◌, lift, pure}
use validator_guardian.External.Hex.{Hex}
use validator_guardian.External.Ssz.{Ssz}
use validator_guardian.External.TreeHash.{TreeHash}
use validator_guardian.External.Bls.{Bls}
use validator_guardian.External.Secp.{Secp}
use validator_guardian.External.Session.{Agent}
use validator_guardian.Eth2.Types.{DepositRequest, DepositResponse}
use validator_guardian.Eth2.SlashProtection.{from_pk_hex}
use validator_guardian.Eth2.SlashProtection.Storage.{Serde, write}
use validator_guardian.Eth2.Deposit.{get_deposit_signature}
use validator_guardian.Io.KeyManagement.{bls_key_exists}
use validator_guardian.Io.RemoteAttestation.{AttestationEvidence, attest}
use validator_guardian.Crypto.EthKeys.{eth_key_gen}
use validator_guardian.Crypto.BlsKeys.{new_bls_key, save_bls_key, sanitize_bls_pk_hex}
use validator_guardian.Enclave.Types.{
  Response, status_ok, created, bad_request, precondition_failed, internal_server_error, respond,
  respond_with, match_result,
}
use validator_guardian.Enclave.Keys.{KeyGenResponse, from_eth_key, from_bls_key}

module _ (hex : Hex) (secp : Secp) (agent : Agent) where
  unfoldable pub attest_new_eth_key : ℕ → Exec (AttestationEvidence × secp.PublicKey)
  attest_new_eth_key entropy = do
    pk ← eth_key_gen hex secp entropy
    proof ← lift (attest agent (secp.serialize_compressed pk))
    pure (proof, pk)

  unfoldable pub eth_keygen_handler : ℕ → Exec (Response KeyGenResponse)
  eth_keygen_handler entropy =
      match_result (attest_new_eth_key entropy)
        (λ r. respond_with created (from_eth_key hex secp r.1 r.0))
        (λ e. respond internal_server_error)

module _ (hex : Hex) (ssz : Ssz) (serde : Serde) (bls : Bls) (agent : Agent) where
  open bls use {public_keys, public_key, public_key_to_bytes, public_key_to_hex}

  unfoldable pub attest_new_bls_key : ℕ → Exec (AttestationEvidence × bls.PublicKey)
  attest_new_bls_key entropy = do
    sk ← lift (new_bls_key bls 0 entropy)
    _ ← save_bls_key hex bls sk
    db ← lift (from_pk_hex hex ssz (public_key_to_hex (public_key (public_keys sk))))
    _ ← write hex serde db
    proof ← lift (attest agent (public_key_to_bytes (public_key (public_keys sk))))
    pure (proof, public_key (public_keys sk))

  unfoldable pub bls_keygen_handler : ℕ → Exec (Response KeyGenResponse)
  bls_keygen_handler entropy =
      match_result (attest_new_bls_key entropy)
        (λ r. respond_with created (from_bls_key bls r.1 r.0)) (λ e. respond internal_server_error)

module _ (hex : Hex) (tree : TreeHash) (bls : Bls) where
  -- `as_ssz_bytes` of a `FixedVector<u8, N>` is its bytes
  unfoldable pub validator_deposit_handler : DepositRequest → Exec (Response DepositResponse)
  validator_deposit_handler req =
      match_result (lift (sanitize_bls_pk_hex (hex.encode req.deposit.pubkey)))
        (λ bls_pk_hex disk.
          if not (bls_key_exists bls_pk_hex disk)
          then respond precondition_failed disk
          else match_result
              (get_deposit_signature hex tree bls bls_pk_hex req.deposit req.genesis_fork_version)
              (λ resp. respond_with status_ok resp) (λ e. respond internal_server_error) disk)
        (λ e. respond bad_request)
