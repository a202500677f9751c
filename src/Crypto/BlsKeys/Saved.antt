-- ===== src/Crypto/BlsKeys/Saved.antt =====
-- src/crypto/bls_keys.rs: save_bls_key followed by bls_agg_sign_from_saved_sk.
use validator_guardian.Prelude.{◌≡◌, refl, ap, sym, ◌∙◌, ◌⊎◌, inl, inr, some, some_inj, arith}
use validator_guardian.Text.{Text, Bytes, text_eq_refl, strip_0x_prefix}
use validator_guardian.Outcome.{Error, ok, err}
use validator_guardian.Disk.{Disk, Files, insert, join}
use validator_guardian.Constants.{bls_keys_dir}
use validator_guardian.External.Hex.{Hex, IsHex, IsBytes}
use validator_guardian.External.Bls.{Bls, IsBlsKeys}
use validator_guardian.Io.KeyManagement.{write_bls_key}
use validator_guardian.Io.KeyManagement.Laws.{key_bytes-insert, write_key_cases}
use validator_guardian.Crypto.BlsKeys.{save_bls_key, bls_agg_sign_from_saved_sk}
use validator_guardian.Crypto.BlsKeys.Stored.{stored_key, hex_of, sign_saved_cases}

module _ (hex : Hex) (bls : Bls) (is_hex : IsHex hex) (is_bls : IsBlsKeys hex bls) where
  open bls use {SecretKeySet, public_keys, public_key, public_key_to_bytes, secret_key_set_to_bytes}

  abbrev key_file : SecretKeySet → Text
  key_file sk = join bls_keys_dir (strip_0x_prefix (hex_of hex bls sk))

  abbrev key_text : SecretKeySet → Text
  key_text sk = strip_0x_prefix (hex.encode (secret_key_set_to_bytes sk))

  stored_key-insert :
      (sk : SecretKeySet) (files files' : Files)
      → IsBytes (secret_key_set_to_bytes sk)
      → files' ≡ insert (key_file sk) (key_text sk) files
      → stored_key hex bls files' (hex_of hex bls sk) ≡ some sk
  unfolding stored_key
  stored_key-insert sk files files' bytes written =
      let p = public_key (public_keys sk) in
      ground (
        arith,
        written,
        is_bls.public_key_to_hex-eq p,
        is_hex.strip_0x_prefix-encode (public_key_to_bytes p),
        key_bytes-insert hex is_hex (key_file sk) (key_file sk) (secret_key_set_to_bytes sk) files
            bytes,
        text_eq_refl (key_file sk),
        is_bls.from_bytes-to_bytes sk,
      )

  -- Saving a key set, whose bytes are bytes, fails and leaves the files alone; or afterwards
  -- signing any message under the hex of its public key succeeds with its signature, and changes
  -- nothing on the disk.
  pub bls_agg_sign_from_saved_sk-save_bls_key :
      (sk : SecretKeySet) (msg : Bytes) (disk : Disk)
      → IsBytes (secret_key_set_to_bytes sk)
      → ((e : Error) × (disk' : Disk) × (save_bls_key hex bls sk disk ≡ (err e, disk'))
          × (disk'.files ≡ disk.files))
        ⊎ ((disk' : Disk) × (save_bls_key hex bls sk disk ≡ (ok tt, disk'))
            × (bls_agg_sign_from_saved_sk hex bls (hex_of hex bls sk) msg disk'
                ≡ (ok (bls.sign (bls.secret_key sk) msg), disk')))
  unfolding save_bls_key write_bls_key
  bls_agg_sign_from_saved_sk-save_bls_key sk msg disk bytes =
      elim (write_key_cases (key_file sk) (key_text sk) disk) [
        | inl failed ↦ inl failed
        | inr (disk', written, files) ↦
            let stored = stored_key-insert sk disk.files disk'.files bytes files in
            elim (sign_saved_cases hex bls (hex_of hex bls sk) msg disk') [
              | inl (_, refute) ↦ absurd (refute sk stored refl)
              | inr (sk', stored', _, signed) ↦ inr (
                disk',
                written,
                signed
                    ∙ ap (λ k. (ok (bls.sign (bls.secret_key k) msg), disk'))
                        (some_inj (sym stored' ∙ stored)),
              )
            ]
      ]
