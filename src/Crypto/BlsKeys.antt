-- ===== src/Crypto/BlsKeys.antt =====
-- src/crypto/bls_keys.rs: threshold BLS keys, kept as files under the hex of their public key.
pub mod Stored
pub mod Saved
pub mod Keystores
use validator_guardian.Prelude.{
  ℕ, zero, suc, ◌+◌, ◌*◌, Bool, true, false, not, Option, none, some, List, [], ◌∷◌, ◌==◌, length,
  map,
}
use validator_guardian.Text.{Text, Bytes, text_eq, strip_0x_prefix}
use validator_guardian.Outcome
use validator_guardian.Outcome.{
  Outcome, ok, err, panic, or_err, bail_if, invalid_length, bad_key_bytes, key_mismatch,
  aggregation_failure,
}
use validator_guardian.Disk.{Exec, ◌>>=◌, ◌>>◌, lift, pure}
use validator_guardian.Constants.{bls_pub_key_bytes}
use validator_guardian.External.Hex.{Hex}
use validator_guardian.External.Bls.{Bls}
use validator_guardian.Io.KeyManagement.{write_bls_key, read_bls_key}

unfoldable pub sanitize_bls_pk_hex : Text → Outcome Text
sanitize_bls_pk_hex bls_pk_hex =
    let bls_pk = strip_0x_prefix bls_pk_hex in
    Outcome.◌>>=◌ (bail_if (not (length bls_pk == 2 * bls_pub_key_bytes)) invalid_length)
      λ _. ok bls_pk

-- `(start..start + n)`
unfoldable pub range_from : ℕ → ℕ → List ℕ
range_from start zero = []
range_from start (suc n) = start ∷ range_from (suc start) n

abbrev enumerate_from {ℓ} : {A : Type ℓ} → ℕ → List A → List (ℕ × A)
enumerate_from i [] = []
enumerate_from i (x ∷ xs) = (i, x) ∷ enumerate_from (suc i) xs

module _ (bls : Bls) where
  open bls use {
    SecretKeySet, PublicKeySet, Signature, SecretKeyShare, PublicKeyShare, SignatureShare, random,
    threshold, public_keys, secret_key, secret_key_share, public_key, public_key_share, sign,
    combine_signatures,
  }

  -- with the `assert!` on the threshold
  unfoldable pub new_bls_key : ℕ → ℕ → Outcome SecretKeySet
  new_bls_key t entropy = elim (random t entropy) [
    | none ↦ panic
    | some sk_set ↦ elim (threshold sk_set == t) [ true ↦ ok sk_set | false ↦ panic ]
  ]

  unfoldable pub bls_agg_sign : SecretKeySet → Bytes → Signature
  bls_agg_sign secret_key_set msg = sign (secret_key secret_key_set) msg

  unfoldable pub distribute_key_shares : SecretKeySet → ℕ → List (SecretKeyShare × PublicKeyShare)
  distribute_key_shares sk_set n =
      let pk_set = public_keys sk_set in
      map (λ id. (secret_key_share sk_set id, public_key_share pk_set id)) (range_from 0 n)

  unfoldable pub aggregate_signature_shares : PublicKeySet → List SignatureShare → Outcome Signature
  aggregate_signature_shares pk_set sig_shares =
      or_err (combine_signatures pk_set (enumerate_from 0 sig_shares)) aggregation_failure

module _ (hex : Hex) (bls : Bls) where
  open bls use {
    SecretKeySet, Signature, public_keys, public_key, public_key_to_hex, secret_key_set_to_bytes,
    secret_key_set_from_bytes,
  }

  unfoldable pub save_bls_key : SecretKeySet → Exec Unit
  save_bls_key sk_set =
      write_bls_key (public_key_to_hex (public_key (public_keys sk_set)))
        (hex.encode (secret_key_set_to_bytes sk_set))

  unfoldable pub fetch_bls_sk : Text → Exec SecretKeySet
  fetch_bls_sk pk_hex = do
    sk_bytes ← read_bls_key hex (strip_0x_prefix pk_hex)
    lift (or_err (secret_key_set_from_bytes sk_bytes) bad_key_bytes)

  unfoldable pub bls_agg_sign_from_saved_sk : Text → Bytes → Exec Signature
  bls_agg_sign_from_saved_sk pk_hex msg = do
    secret_key_set ← fetch_bls_sk pk_hex
    lift (
        bail_if (not (text_eq pk_hex (public_key_to_hex (public_key (public_keys secret_key_set)))))
          key_mismatch)
    pure (bls_agg_sign bls secret_key_set msg)
