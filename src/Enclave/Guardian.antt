-- ===== src/Enclave/Guardian.antt =====
-- src/enclave/guardian: a guardian takes a validator's key share into custody.
pub mod Share
pub mod Deposit
pub mod Custody
use validator_guardian.Prelude.{ℕ, zero, suc, Bool, not, [], ◌∷◌, length, if◌then◌else◌}
use validator_guardian.Text.{Text, Bytes, text_eq, strip_0x_prefix}
use validator_guardian.Outcome
use validator_guardian.Outcome.{
  Outcome, Error, ok, err, panic, bail_if, or_err, missing_eth_key, invalid_address,
  invalid_deposit_signature, invalid_deposit_data_root, unmatched_public_key, no_share_found,
  signing_failure,
}
use validator_guardian.Disk.{Exec, ◌>>=◌, lift, pure}
use validator_guardian.External.Hex.{Hex}
use validator_guardian.External.Ssz.{Ssz}
use validator_guardian.External.TreeHash.{TreeHash}
use validator_guardian.External.Bls.{Bls}
use validator_guardian.External.Secp.{Secp}
use validator_guardian.External.Ethers.{Ethers, uint, bytes, fixed_bytes}
use validator_guardian.External.Session.{Registry}
use validator_guardian.Eth2.Types.{ValidatorIndex}
use validator_guardian.Io.KeyManagement.{write_bls_key}
use validator_guardian.Crypto.EthKeys.{eth_pk_to_hex, fetch_eth_key}
use validator_guardian.Enclave.Types.{
  Response, status_ok, internal_server_error, respond, respond_with, match_result,
}
use validator_guardian.Enclave.Payload.{
  BlsKeygenPayload, public_key_set, withdrawal_credentials, signature, verify_public_keys_match,
  deposit_message_root, deposit_data_root, decrypt_sk_share,
}
use validator_guardian.Enclave.Session.{verify_session_evidence}

pub record ValidateCustodyRequest (secp : Secp) : Type 0 where
  pub keygen_payload : BlsKeygenPayload
  pub guardian_enclave_public_key : secp.PublicKey
  pub workload_id : Text
  pub verify_session : Bool
  pub validator_index : ValidatorIndex

pub record ValidateCustodyResponse : Type 0 where
  pub enclave_signature : Text
  pub bls_pub_key : Text
  pub withdrawal_credentials : Text
  pub deposit_signature : Text
  pub deposit_data_root : Text

module _ (hex : Hex) (tree : TreeHash) (bls : Bls) where
  unfoldable pub verify_deposit_message : BlsKeygenPayload → Outcome (Unit {0})
  verify_deposit_message payload = Outcome.◌>>=◌ (public_key_set hex bls payload) λ pk_set.
      Outcome.◌>>=◌ (signature hex bls payload) λ sig.
        Outcome.◌>>=◌ (deposit_message_root hex tree bls payload) λ message_root.
          Outcome.◌>>=◌
            (bail_if (not (bls.verify (bls.public_key pk_set) sig message_root))
              invalid_deposit_signature)
            λ _. Outcome.◌>>=◌ (deposit_data_root hex tree bls payload) λ data_root.
              bail_if
                (not (text_eq (strip_0x_prefix payload.deposit_data_root) (hex.encode data_root)))
                invalid_deposit_data_root

module _ (hex : Hex) (secp : Secp) (bls : Bls) where
  open bls use {
    PublicKeySet, SecretKeyShare, public_key_share, public_key_share_to_bytes,
    derive_public_key_share,
  }

  -- the two public key shares that the loop compares, in hex
  unfoldable pub same_share : PublicKeySet → ℕ → SecretKeyShare → Bool
  same_share pk_set i sk_share =
      text_eq (hex.encode (public_key_share_to_bytes (public_key_share pk_set i)))
        (hex.encode (public_key_share_to_bytes (derive_public_key_share sk_share)))

  -- the loop, with `n` shares left from the share `i` on
  unfoldable pub find_share : BlsKeygenPayload → secp.SecretKey → ℕ → ℕ → Outcome SecretKeyShare
  find_share payload sk zero i = err no_share_found
  find_share payload sk (suc n) i =
      let rest = find_share payload sk n (suc i) in
      elim (decrypt_sk_share hex secp bls payload i sk) [
        | ok sk_share ↦
            Outcome.◌>>=◌ (public_key_set hex bls payload)
              λ pk_set. if same_share pk_set i sk_share then ok sk_share else rest
        | err e ↦ rest
        | panic ↦ panic
      ]

  unfoldable pub verify_custody : BlsKeygenPayload → secp.SecretKey → Outcome SecretKeyShare
  verify_custody payload guardian_enclave_sk =
      Outcome.◌>>=◌ (verify_public_keys_match hex bls payload) λ matched.
        Outcome.◌>>=◌ (bail_if (not matched) unmatched_public_key)
          λ _. find_share payload guardian_enclave_sk (length payload.bls_enc_priv_key_shares) 0

module _ (hex : Hex) (tree : TreeHash) (secp : Secp) (bls : Bls) (ethers : Ethers) where
  open ethers use {
    Address, same_address, encode_tokens, parse_wallet, wallet_address, sign_message,
    signature_to_string, recover,
  }

  -- what a guardian signs for a validator
  unfoldable pub custody_digest : BlsKeygenPayload → ValidatorIndex → Outcome Bytes
  custody_digest payload validator_index = Outcome.◌>>=◌ (public_key_set hex bls payload) λ pk_set.
      Outcome.◌>>=◌ (withdrawal_credentials hex bls payload) λ credentials.
        Outcome.◌>>=◌ (signature hex bls payload) λ sig.
          Outcome.◌>>=◌ (deposit_data_root hex tree bls payload) λ data_root. ok (
            secp.keccak256 (
              encode_tokens (
                uint validator_index
                ∷ bytes (bls.public_key_to_bytes (bls.public_key pk_set))
                ∷ bytes credentials
                ∷ bytes (bls.signature_to_bytes sig)
                ∷ fixed_bytes data_root
                ∷ [])))

  -- the signature of a wallet over a digest, tried out
  unfoldable pub sign_digest : secp.SecretKey → Bytes → Outcome Text
  sign_digest guardian_enclave_sk digest =
      Outcome.◌>>=◌
        (or_err (parse_wallet (hex.encode (secp.serialize_secret_key guardian_enclave_sk)))
          signing_failure)
        λ wallet. Outcome.◌>>=◌ (or_err (sign_message wallet digest) signing_failure) λ sig.
          Outcome.◌>>=◌ (or_err (recover sig digest) signing_failure) λ signer.
            Outcome.◌>>=◌
              (bail_if (not (same_address signer (wallet_address wallet))) signing_failure)
              λ _. ok (signature_to_string sig)

  unfoldable pub approve_custody : BlsKeygenPayload → secp.SecretKey → ValidatorIndex → Outcome Text
  approve_custody payload guardian_enclave_sk validator_index =
      Outcome.◌>>=◌ (custody_digest payload validator_index)
        λ digest. sign_digest guardian_enclave_sk digest

  -- `write_bls_key` under the hex of the public key share
  unfoldable pub save_share : bls.SecretKeyShare → Exec Unit
  save_share sk_share =
      write_bls_key
        (hex.encode (bls.public_key_share_to_bytes (bls.derive_public_key_share sk_share)))
        (hex.encode (bls.secret_key_share_to_bytes sk_share))

  -- The error of `fetch_eth_key` is replaced.
  unfoldable pub fetch_guardian_key : secp.PublicKey → Exec secp.SecretKey
  fetch_guardian_key pk =
      match_result (fetch_eth_key hex secp (eth_pk_to_hex hex secp pk)) (λ sk. pure sk)
        (λ e. lift (err missing_eth_key))

module _ (hex : Hex) (ssz : Ssz) (tree : TreeHash) (secp : Secp) (bls : Bls) (ethers : Ethers)
    (registry : Registry) where
  -- the checks before anything is saved
  unfoldable pub checked_share :
      ValidateCustodyRequest secp → secp.SecretKey → Outcome bls.SecretKeyShare
  checked_share request guardian_enclave_sk =
      Outcome.◌>>=◌
        (if request.verify_session
          then verify_session_evidence hex ssz secp bls registry request.keygen_payload
              request.workload_id
          else ok tt)
        λ _.
          Outcome.◌>>=◌ (verify_deposit_message hex tree bls request.keygen_payload)
            λ _. verify_custody hex secp bls request.keygen_payload guardian_enclave_sk

  unfoldable pub verify_and_sign_custody_received :
      ValidateCustodyRequest secp → Exec ValidateCustodyResponse
  verify_and_sign_custody_received request = do
    guardian_enclave_sk ←
        fetch_guardian_key hex tree secp bls ethers request.guardian_enclave_public_key
    sk_share ← lift (checked_share request guardian_enclave_sk)
    _ ← save_share hex tree secp bls ethers sk_share
    approval ← lift (
        approve_custody hex tree secp bls ethers request.keygen_payload guardian_enclave_sk
          request.validator_index)
    pure (record {
      enclave_signature = approval;
      bls_pub_key = request.keygen_payload.bls_pub_key;
      withdrawal_credentials = request.keygen_payload.withdrawal_credentials;
      deposit_signature = request.keygen_payload.signature;
      deposit_data_root = request.keygen_payload.deposit_data_root;
    })

  unfoldable pub validate_custody_handler :
      ValidateCustodyRequest secp → Exec (Response ValidateCustodyResponse)
  validate_custody_handler request =
      match_result (verify_and_sign_custody_received request) (λ resp. respond_with status_ok resp)
        (λ e. respond internal_server_error)
