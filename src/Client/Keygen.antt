-- ===== src/Client/Keygen.antt =====
-- src/client/keygen.rs: a validator key that is generated at the client and kept in a keystore.
pub mod Deposit
use validator_guardian.Prelude.{ℕ, List, [], map, zip, length}
use validator_guardian.Text.{Text, Bytes}
use validator_guardian.Outcome.{Outcome, ok}
use validator_guardian.Disk.{Exec, ◌>>=◌, lift, pure}
use validator_guardian.External.Hex.{Hex}
use validator_guardian.External.TreeHash.{TreeHash}
use validator_guardian.External.Bls.{Bls}
use validator_guardian.External.Secp.{Secp}
use validator_guardian.External.Keystore.{Keystore}
use validator_guardian.Eth2.Types.{Version, genesis_fork_version}
use validator_guardian.Eth2.Deposit.{sign_full_deposit}
use validator_guardian.Crypto.EthKeys.{eth_pk_to_hex_uncompressed}
use validator_guardian.Crypto.BlsKeys.{new_bls_key, distribute_key_shares}
use validator_guardian.Crypto.BlsKeys.Keystores.{save_bls_keystore}
use validator_guardian.Enclave.Payload.{BlsKeygenPayload}
use validator_guardian.Enclave.Validator.{AttestFreshBlsKeyPayload, threshold_below, encrypt_shares}

-- The key set draws `seed 0`, the encryption of share `i` draws `seed (suc i)`, and the keystore
-- draws `keystore_entropy`.
module _ (hex : Hex) (tree : TreeHash) (secp : Secp) (bls : Bls) (keystore : Keystore) where
  open bls use {public_keys, public_key, public_key_to_hex, public_key_set_to_bytes}

  unfoldable pub generate_bls_keystore :
      (ℕ → ℕ) → ℕ → Bytes → List secp.PublicKey → ℕ → Text → Version → Exec BlsKeygenPayload
  generate_bls_keystore seed keystore_entropy withdrawal_credentials guardian_public_keys threshold
        password fork_version =
      do
        secret_key_set ← lift (new_bls_key bls (threshold_below threshold) (seed 0))
        recipient_keys ← lift (
            encrypt_shares hex secp bls seed 1 (
              zip guardian_public_keys
                (distribute_key_shares bls secret_key_set (length guardian_public_keys))))
        _ ← save_bls_keystore keystore bls secret_key_set password keystore_entropy
        deposit ←
            pure (sign_full_deposit tree bls secret_key_set withdrawal_credentials fork_version)
        pure (record {
          bls_pub_key_set = hex.encode (public_key_set_to_bytes (public_keys secret_key_set));
          bls_pub_key = public_key_to_hex (public_key (public_keys secret_key_set));
          signature = hex.encode deposit.0;
          deposit_data_root = hex.encode deposit.1;
          bls_enc_priv_key_shares = map (λ k. k.encrypted_secret_key_share_hex) recipient_keys;
          session_id = [];
          attestation_signature = [];
          session_public_key = [];
          guardian_eth_pub_keys =
              map (λ k. eth_pk_to_hex_uncompressed hex secp k.guardian_public_key) recipient_keys;
          withdrawal_credentials = hex.encode withdrawal_credentials;
          fork_version = genesis_fork_version;
        })

  unfoldable pub generate_bls_keystore_handler :
      (ℕ → ℕ) → ℕ → AttestFreshBlsKeyPayload secp → Text → Exec BlsKeygenPayload
  generate_bls_keystore_handler seed keystore_entropy keygen_payload keystore_password =
      generate_bls_keystore seed keystore_entropy keygen_payload.withdrawal_credentials
        keygen_payload.guardian_pubkeys keygen_payload.threshold keystore_password
        keygen_payload.fork_version
