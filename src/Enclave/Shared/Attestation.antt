-- ===== src/Enclave/Shared/Attestation.antt =====
-- src/enclave/shared/mod.rs: what the CVM agent signs for a fresh validator key.
use validator_guardian.Prelude.{ℕ, zero, suc, ◌/◌, ◌%◌, ◌^◌, List, [], ◌∷◌, ◌++◌, replicate, zip}
use validator_guardian.Text.{Text, Bytes}
use validator_guardian.Outcome.{Outcome, ok, ◌>>=◌, or_err, invalid_hex}
use validator_guardian.External.Hex.{Hex}
use validator_guardian.External.Bls.{Bls}
use validator_guardian.External.Secp.{Secp}
use validator_guardian.Eth2.Types.{Root, BlsSignature}

-- the `n` bytes of a number, the highest first
unfoldable pub be_bytes : ℕ → ℕ → Bytes
be_bytes zero x = []
be_bytes (suc n) x = (x / 256 ^ n % 256) ∷ be_bytes n x

module _ (hex : Hex) (secp : Secp) (bls : Bls) where
  open bls use {
    PublicKeySet, public_key, public_key_share, public_key_to_bytes, public_key_share_to_bytes,
    public_key_set_to_bytes, public_key_set_threshold,
  }

  -- what the loop feeds to the hasher, from the share `i` on
  unfoldable pub hashed_shares : PublicKeySet → ℕ → List (Text × secp.PublicKey) → Outcome Bytes
  hashed_shares pk_set i [] = ok []
  hashed_shares pk_set i ((sk_share, g_pk) ∷ shares) = do
    share_bytes ← or_err (hex.decode sk_share) invalid_hex
    rest ← hashed_shares pk_set (suc i) shares
    ok (
        share_bytes
        ++ public_key_share_to_bytes (public_key_share pk_set i)
        ++ secp.serialize g_pk
        ++ rest)

  -- A hasher that is updated in turn hashes its inputs one after the other.
  unfoldable pub build_validator_remote_attestation_payload :
      PublicKeySet → BlsSignature → Root → List Text → List secp.PublicKey → Outcome Bytes
  build_validator_remote_attestation_payload validator_pk_set signature deposit_data_root
        enc_sk_shares guardian_pks =
      do
        shares ← hashed_shares validator_pk_set 0 (zip enc_sk_shares guardian_pks)
        ok (
            secp.keccak256 (
              public_key_set_to_bytes validator_pk_set
              ++ public_key_to_bytes (public_key validator_pk_set)
              ++ signature
              ++ deposit_data_root
              ++ shares
              ++ be_bytes 8 (public_key_set_threshold validator_pk_set))
            ++ replicate 32 0)
