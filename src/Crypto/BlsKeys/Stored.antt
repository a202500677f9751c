-- ===== src/Crypto/BlsKeys/Stored.antt =====
-- src/crypto/bls_keys.rs: the keys on the disk as a map, for fetching and signing.
use validator_guardian.Prelude.{
  ◌≡◌, ◌⊎◌, inl, inr, false, Option, none, some, arith, Bool-cases, Option-cases, some_inj, ap, sym,
  ◌∙◌,
}
use validator_guardian.Text.{Text, Bytes, text_eq, text_eq_iff, strip_0x_prefix}
use validator_guardian.Outcome.{Error, ok, err, bad_key_bytes, key_mismatch}
use validator_guardian.Disk.{Files, Disk, join}
use validator_guardian.Constants.{bls_keys_dir}
use validator_guardian.External.Hex.{Hex}
use validator_guardian.External.Bls.{Bls}
use validator_guardian.Io.KeyManagement.{read_bls_key}
use validator_guardian.Io.KeyManagement.Laws.{key_bytes, read_key_cases}
use validator_guardian.Crypto.BlsKeys.{fetch_bls_sk, bls_agg_sign, bls_agg_sign_from_saved_sk}

module _ (hex : Hex) (bls : Bls) where
  open bls use {SecretKeySet, public_keys, public_key, public_key_to_hex, secret_key_set_from_bytes}

  abbrev pub key_path : Text → Text
  key_path pk_hex = join bls_keys_dir (strip_0x_prefix (strip_0x_prefix pk_hex))

  -- the key set that is found for a public key
  unfoldable pub stored_key : Files → Text → Option SecretKeySet
  stored_key files pk_hex = elim (key_bytes hex files (key_path pk_hex)) [
    | none ↦ none
    | some b ↦ secret_key_set_from_bytes b
  ]

  pub fetch_cases :
      (pk_hex : Text) (disk : Disk)
      → (stored_key disk.files pk_hex ≡ none)
          × ((e : Error) × (fetch_bls_sk hex bls pk_hex disk ≡ (err e, disk)))
        ⊎ ((sk : SecretKeySet) × (stored_key disk.files pk_hex ≡ some sk)
            × (fetch_bls_sk hex bls pk_hex disk ≡ (ok sk, disk)))
  unfolding stored_key fetch_bls_sk read_bls_key
  fetch_cases pk_hex disk = elim (read_key_cases hex (key_path pk_hex) disk) [
    | inl (no_bytes, (e, unread)) ↦ inl (ground (arith, no_bytes), (e, ground (arith, unread)))
    | inr (b, bytes, was_read) ↦ elim (Option-cases (secret_key_set_from_bytes b)) [
      | inl bad ↦ inl (ground (arith, bytes), (bad_key_bytes, ground (arith, was_read)))
      | inr (sk, parsed) ↦ inr (sk, ground (arith, bytes), ground (arith, was_read))
    ]
  ]

  -- the public key of a key set, in hex
  abbrev pub hex_of : SecretKeySet → Text
  hex_of sk = public_key_to_hex (public_key (public_keys sk))

  differs_absurd :
      (files : Files) (pk_hex : Text) (sk sk' : SecretKeySet)
      → text_eq pk_hex (hex_of sk) ≡ false
      → stored_key files pk_hex ≡ some sk
      → stored_key files pk_hex ≡ some sk'
      → ¬ (pk_hex ≡ hex_of sk')
  differs_absurd files pk_hex sk sk' differ found h p =
      cc (differ, (text_eq_iff pk_hex (hex_of sk)).1 (p ∙ ap hex_of (some_inj (sym h ∙ found))))

  -- Signing with a saved key changes nothing on the disk. It succeeds exactly with a key set that
  -- is found and whose public key is the one that was asked for, and the signature is of that key
  -- over that message.
  pub sign_saved_cases :
      (pk_hex : Text) (msg : Bytes) (disk : Disk)
      → ((e : Error) × (bls_agg_sign_from_saved_sk hex bls pk_hex msg disk ≡ (err e, disk)))
          × ((sk : SecretKeySet) → stored_key disk.files pk_hex ≡ some sk → ¬ (pk_hex ≡ hex_of sk))
        ⊎ ((sk : SecretKeySet) × (stored_key disk.files pk_hex ≡ some sk)
            × (pk_hex ≡ hex_of sk)
            × (bls_agg_sign_from_saved_sk hex bls pk_hex msg disk
                ≡ (ok (bls.sign (bls.secret_key sk) msg), disk)))
  unfolding bls_agg_sign_from_saved_sk bls_agg_sign
  sign_saved_cases pk_hex msg disk = elim (fetch_cases pk_hex disk) [
    | inl (no_key, (e, unfetched)) ↦ inl ((e, ground (arith, unfetched)), λ sk h. cc)
    | inr (sk, found, fetched) ↦ elim (Bool-cases (text_eq pk_hex (hex_of sk))) [
      | inl same ↦ inr (sk, found, (text_eq_iff _ _).0 same, ground (arith, fetched))
      | inr differ ↦ inl (
        (key_mismatch, ground (arith, fetched)),
        λ sk' h p. differs_absurd disk.files pk_hex sk sk' differ found h p,
      )
    ]
  ]
