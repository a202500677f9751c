-- ===== src/Enclave/Validator.antt =====
-- src/enclave/validator: a fresh validator key, its shares encrypted to the guardians.
pub mod Sealed
use validator_guardian.Prelude.{
  ℕ, suc, ◌+◌, ◌-◌, ◌^◌, ◌%◌, Bool, List, [], ◌∷◌, map, zip, length, if◌then◌else◌,
}
use validator_guardian.Text.{Text, Bytes}
use validator_guardian.Outcome
use validator_guardian.Outcome.{Outcome, ok}
use validator_guardian.Disk.{Exec, ◌>>=◌, lift, pure}
use validator_guardian.External.Hex.{Hex}
use validator_guardian.External.Ssz.{Ssz}
use validator_guardian.External.TreeHash.{TreeHash}
use validator_guardian.External.Bls.{Bls}
use validator_guardian.External.Secp.{Secp}
use validator_guardian.External.Session.{Agent}
use validator_guardian.Eth2.Types.{Version}
use validator_guardian.Eth2.SlashProtection.{from_pk_hex}
use validator_guardian.Eth2.SlashProtection.Storage.{Serde, write}
use validator_guardian.Eth2.Deposit.{sign_full_deposit}
use validator_guardian.Io.RemoteAttestation.{no_evidence, attest}
use validator_guardian.Crypto.EthKeys.{envelope_encrypt, eth_pk_to_hex_uncompressed}
use validator_guardian.Crypto.BlsKeys.{new_bls_key, distribute_key_shares, save_bls_key}
use validator_guardian.Enclave.Types.{
  Response, created, internal_server_error, respond, respond_with, match_result,
}
use validator_guardian.Enclave.Payload.{BlsKeygenPayload}
use validator_guardian.Enclave.Shared.Attestation.{build_validator_remote_attestation_payload}

pub record RecipientKeys (secp : Secp) (bls : Bls) : Type 0 where
  pub guardian_public_key : secp.PublicKey
  pub secret_key_share : bls.SecretKeyShare
  pub public_key_share : bls.PublicKeyShare

pub record EncryptedRecipientKeys (secp : Secp) (bls : Bls) : Type 0 where
  pub guardian_public_key : secp.PublicKey
  pub public_key_share : bls.PublicKeyShare
  pub encrypted_secret_key_share_hex : Text

pub record AttestFreshBlsKeyPayload (secp : Secp) : Type 0 where
  pub guardian_pubkeys : List secp.PublicKey
  pub withdrawal_credentials : Bytes
  pub threshold : ℕ
  pub fork_version : Version
  pub do_remote_attestation : Bool

-- `threshold - 1` on a `usize` of 64 bits in a release build
unfoldable pub threshold_below : ℕ → ℕ
threshold_below threshold = (threshold + (2 ^ 64 - 1)) % 2 ^ 64

module _ (hex : Hex) (secp : Secp) (bls : Bls) where
  open bls use {SecretKeyShare, PublicKeyShare, SignatureShare, secret_key_share_to_bytes}

  unfoldable pub encrypt_to_recipient :
      RecipientKeys secp bls → ℕ → Outcome (EncryptedRecipientKeys secp bls)
  encrypt_to_recipient k entropy =
      Outcome.◌>>=◌
        (envelope_encrypt secp k.guardian_public_key (secret_key_share_to_bytes k.secret_key_share)
          entropy)
        λ ct_sk. ok (record {
          guardian_public_key = k.guardian_public_key;
          public_key_share = k.public_key_share;
          encrypted_secret_key_share_hex = hex.encode ct_sk;
        })

  unfoldable pub bls_partial_sign : RecipientKeys secp bls → Bytes → SignatureShare
  bls_partial_sign k message = bls.sign_share k.secret_key_share message

  unfoldable pub bls_partial_verify : RecipientKeys secp bls → SignatureShare → Bytes → Bool
  bls_partial_verify k signature message = bls.verify_share k.public_key_share signature message

  -- the loop over the guardians; the encryption of share `i` draws `seed i`
  unfoldable pub encrypt_shares :
      (ℕ → ℕ)
      → ℕ
      → List (secp.PublicKey × (SecretKeyShare × PublicKeyShare))
      → Outcome (List (EncryptedRecipientKeys secp bls))
  encrypt_shares seed i [] = ok []
  encrypt_shares seed i ((g_pk, (sk_share, pk_share)) ∷ pairs) =
      Outcome.◌>>=◌
        (encrypt_to_recipient
          (record {
            guardian_public_key = g_pk;
            secret_key_share = sk_share;
            public_key_share = pk_share;
          })
          (seed i))
        λ k. Outcome.◌>>=◌ (encrypt_shares seed (suc i) pairs) λ rest. ok (k ∷ rest)

-- The key set draws `seed 0`, the encryption of share `i` draws `seed (suc i)`.
module _ (hex : Hex) (ssz : Ssz) (serde : Serde) (tree : TreeHash) (secp : Secp) (bls : Bls)
    (agent : Agent) where
  open bls use {public_keys, public_key, public_key_to_hex, public_key_set_to_bytes}

  -- the end of the generation, after the key and its record are saved
  unfoldable pub build_payload :
      bls.SecretKeySet
      → List (EncryptedRecipientKeys secp bls)
      → Bytes
      → Version
      → Bool
      → Exec BlsKeygenPayload
  build_payload secret_key_set recipient_keys withdrawal_credentials fork_version
        do_remote_attestation =
      do
        deposit ←
            pure (sign_full_deposit tree bls secret_key_set withdrawal_credentials fork_version)
        payload ← lift (
            build_validator_remote_attestation_payload hex secp bls (public_keys secret_key_set)
              deposit.0 deposit.1 (map (λ k. k.encrypted_secret_key_share_hex) recipient_keys)
              (map (λ k. k.guardian_public_key) recipient_keys))
        evidence ←
            lift (if do_remote_attestation then attest agent payload else ok (no_evidence agent))
        pure (record {
          bls_pub_key_set = hex.encode (public_key_set_to_bytes (public_keys secret_key_set));
          bls_pub_key = public_key_to_hex (public_key (public_keys secret_key_set));
          signature = hex.encode deposit.0;
          deposit_data_root = hex.encode deposit.1;
          bls_enc_priv_key_shares = map (λ k. k.encrypted_secret_key_share_hex) recipient_keys;
          session_id = evidence.session_id;
          attestation_signature = evidence.signature;
          session_public_key = agent.identity_key_to_string evidence.session_public_key.key;
          guardian_eth_pub_keys =
              map (λ k. eth_pk_to_hex_uncompressed hex secp k.guardian_public_key) recipient_keys;
          withdrawal_credentials = hex.encode withdrawal_credentials;
          fork_version = fork_version;
        })

  unfoldable pub attest_fresh_bls_key :
      (ℕ → ℕ) → Bytes → List secp.PublicKey → ℕ → Version → Bool → Exec BlsKeygenPayload
  unfolding build_payload
  attest_fresh_bls_key seed withdrawal_credentials guardian_public_keys threshold fork_version
        do_remote_attestation =
      do
        secret_key_set ← lift (new_bls_key bls (threshold_below threshold) (seed 0))
        recipient_keys ← lift (
            encrypt_shares hex secp bls seed 1 (
              zip guardian_public_keys
                (distribute_key_shares bls secret_key_set (length guardian_public_keys))))
        _ ← save_bls_key hex bls secret_key_set
        db ←
            lift (from_pk_hex hex ssz (public_key_to_hex (public_key (public_keys secret_key_set))))
        _ ← write hex serde db
        build_payload secret_key_set recipient_keys withdrawal_credentials fork_version
            do_remote_attestation

  unfoldable pub attest_fresh_bls_key_handler :
      (ℕ → ℕ) → AttestFreshBlsKeyPayload secp → Exec (Response BlsKeygenPayload)
  attest_fresh_bls_key_handler seed keygen_payload =
      match_result
        (attest_fresh_bls_key seed keygen_payload.withdrawal_credentials
          keygen_payload.guardian_pubkeys keygen_payload.threshold keygen_payload.fork_version
          keygen_payload.do_remote_attestation)
        (λ keygen_result. respond_with created keygen_result) (λ e. respond internal_server_error)
