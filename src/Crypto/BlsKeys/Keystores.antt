-- ===== src/Crypto/BlsKeys/Keystores.antt =====
-- src/crypto/bls_keys.rs: a BLS key in an encrypted keystore.
use validator_guardian.Prelude.{ℕ, ◌≡◌, arith}
use validator_guardian.Text.{Text, strip_0x_prefix}
use validator_guardian.Outcome.{ok, or_err, bad_key_bytes}
use validator_guardian.Disk.{Disk, Exec, ◌>>=◌, lift, create_dir_all}
use validator_guardian.Disk.Laws.{first_action_ok}
use validator_guardian.Constants.{bls_keys_dir}
use validator_guardian.External.Hex.{Hex, IsHex}
use validator_guardian.External.Bls.{Bls, IsBlsKeys, IsBlsSecretKey}
use validator_guardian.External.Keystore.{Keystore, IsKeystore}
use validator_guardian.Io.KeyManagement.Keystores.{write_bls_keystore, read_bls_keystore}

module _ (keystore : Keystore) (bls : Bls) where
  open bls use {SecretKeySet, public_keys, public_key, public_key_to_hex, secret_key}

  unfoldable pub save_bls_keystore : SecretKeySet → Text → ℕ → Exec Text
  save_bls_keystore sk_set password entropy =
      write_bls_keystore keystore (public_key_to_hex (public_key (public_keys sk_set)))
        (bls.secret_key_to_bytes (secret_key sk_set)) password entropy

  unfoldable pub fetch_bls_sk_keystore : Text → Text → Exec SecretKeySet
  fetch_bls_sk_keystore pk_hex password = do
    sk_bytes ← read_bls_keystore keystore (strip_0x_prefix pk_hex) password
    lift (or_err (bls.secret_key_set_from_bytes sk_bytes) bad_key_bytes)

module _ (hex : Hex) (keystore : Keystore) (bls : Bls) (is_hex : IsHex hex)
    (is_keystore : IsKeystore keystore) (is_keys : IsBlsKeys hex bls)
    (is_secret : IsBlsSecretKey bls) where
  -- A key set that was saved is fetched under its password and the hex of its public key as a key
  -- set with the same public key.
  pub fetch_bls_sk_keystore-save_bls_keystore :
      (k : bls.SecretKeySet) (password uuid : Text) (entropy : ℕ) (disk disk' : Disk)
      → save_bls_keystore keystore bls k password entropy disk ≡ (ok uuid, disk')
      → (k' : bls.SecretKeySet) × (fetch_bls_sk_keystore keystore bls
            (bls.public_key_to_hex (bls.public_key (bls.public_keys k)))
            password
            disk'
          ≡ (ok k', disk'))
        × (bls.public_key (bls.public_keys k') ≡ bls.public_key (bls.public_keys k))
  unfolding save_bls_keystore fetch_bls_sk_keystore write_bls_keystore read_bls_keystore
  fetch_bls_sk_keystore-save_bls_keystore k password uuid entropy disk disk' h =
      let p = bls.public_key (bls.public_keys k) in
      let sk = bls.secret_key_to_bytes (bls.secret_key k) in
      let (_, mid, written, _) =
        first_action_ok
          (λ (_ : Unit {0}).
            keystore.encrypt_key bls_keys_dir entropy sk password
              (strip_0x_prefix (bls.public_key_to_hex p)))
          (create_dir_all bls_keys_dir) h in
      let (k', parsed, same) = is_secret.secret_key_set_from_bytes-secret_key k in
      let opened =
        is_keystore.decrypt_key-encrypt_key bls_keys_dir entropy sk password
          (strip_0x_prefix (bls.public_key_to_hex p)) uuid mid disk' written in
      (
        k',
        ground (
          arith,
          opened,
          parsed,
          is_keys.public_key_to_hex-eq p,
          is_hex.strip_0x_prefix-encode (bls.public_key_to_bytes p),
        ),
        same,
      )
