-- ===== src/External/Bls.antt =====
-- The crate `blsttc`: threshold BLS keys.
use validator_guardian.Prelude.{ℕ, ◌≡◌, Bool, true, Option, some, List, length}
use validator_guardian.Text.{Bytes, Text}
use validator_guardian.External.Hex.{Hex, IsBytes}

-- `none` is an `Err`, and for `random` its panic. The last argument of `random` is what the random
-- number generator yields.
pub record Bls : Type 1 where
  pub SecretKeySet : Type 0
  pub PublicKeySet : Type 0
  pub SecretKey : Type 0
  pub PublicKey : Type 0
  pub Signature : Type 0
  pub SecretKeyShare : Type 0
  pub PublicKeyShare : Type 0
  pub SignatureShare : Type 0
  pub random : ℕ → ℕ → Option SecretKeySet
  pub threshold : SecretKeySet → ℕ
  pub public_keys : SecretKeySet → PublicKeySet
  pub secret_key : SecretKeySet → SecretKey
  pub secret_key_share : SecretKeySet → ℕ → SecretKeyShare
  pub secret_key_to_bytes : SecretKey → Bytes
  pub secret_key_set_to_bytes : SecretKeySet → Bytes
  pub secret_key_set_from_bytes : Bytes → Option SecretKeySet
  pub public_key : PublicKeySet → PublicKey
  pub public_key_share : PublicKeySet → ℕ → PublicKeyShare
  pub public_key_set_threshold : PublicKeySet → ℕ
  pub public_key_set_to_bytes : PublicKeySet → Bytes
  pub public_key_set_from_bytes : Bytes → Option PublicKeySet
  pub public_key_to_bytes : PublicKey → Bytes
  pub public_key_to_hex : PublicKey → Text
  pub sign : SecretKey → Bytes → Signature
  pub verify : PublicKey → Signature → Bytes → Bool
  pub signature_to_bytes : Signature → Bytes
  pub signature_from_bytes : Bytes → Option Signature
  pub secret_key_share_to_bytes : SecretKeyShare → Bytes
  pub secret_key_share_from_bytes : Bytes → Option SecretKeyShare
  pub derive_public_key_share : SecretKeyShare → PublicKeyShare
  pub public_key_share_to_bytes : PublicKeyShare → Bytes
  pub sign_share : SecretKeyShare → Bytes → SignatureShare
  pub signature_share_to_bytes : SignatureShare → Bytes
  pub verify_share : PublicKeyShare → SignatureShare → Bytes → Bool
  pub combine_signatures : PublicKeySet → List (ℕ × SignatureShare) → Option Signature

-- A key share is serialised as its scalar, which parses as a key set of threshold 0; the secret key
-- of that key set signs as the share does.
pub record IsBls (bls : Bls) : Type 0 where
  pub secret_key_share_to_bytes-IsBytes :
      (s : bls.SecretKeyShare) → IsBytes (bls.secret_key_share_to_bytes s)
  pub share_key_set : bls.SecretKeyShare → bls.SecretKeySet
  pub secret_key_set_from_bytes-eq :
      (s : bls.SecretKeyShare)
      → bls.secret_key_set_from_bytes (bls.secret_key_share_to_bytes s) ≡ some (share_key_set s)
  pub sign-share_key_set :
      (s : bls.SecretKeyShare) (m : Bytes)
      → bls.signature_to_bytes (bls.sign (bls.secret_key (share_key_set s)) m)
        ≡ bls.signature_share_to_bytes (bls.sign_share s m)

-- Key sets parse back from their bytes, and public keys print as the hex of theirs.
pub record IsBlsKeys (hex : Hex) (bls : Bls) : Type 0 where
  pub from_bytes-to_bytes :
      (k : bls.SecretKeySet)
      → bls.secret_key_set_from_bytes (bls.secret_key_set_to_bytes k) ≡ some k
  pub public_key_to_hex-eq :
      (p : bls.PublicKey) → bls.public_key_to_hex p ≡ hex.encode (bls.public_key_to_bytes p)

-- Shares and their key sets: a share is 32 bytes, which parse as a share with the same public key
-- share; a key set's shares have the public key shares of its public key set; a public key set and
-- a signature parse back from their bytes; and a key set verifies what its secret key signs.
pub record IsBlsShares (bls : Bls) : Type 0 where
  pub length-secret_key_share_to_bytes :
      (s : bls.SecretKeyShare) → length (bls.secret_key_share_to_bytes s) ≡ 32
  pub share_bytes-IsBytes : (s : bls.SecretKeyShare) → IsBytes (bls.secret_key_share_to_bytes s)
  pub secret_key_share_from_bytes-to_bytes :
      (s : bls.SecretKeyShare)
      → (s' : bls.SecretKeyShare) × (bls.secret_key_share_from_bytes
            (bls.secret_key_share_to_bytes s)
          ≡ some s')
        × (bls.derive_public_key_share s' ≡ bls.derive_public_key_share s)
  pub derive_public_key_share-secret_key_share :
      (k : bls.SecretKeySet) (i : ℕ)
      → bls.derive_public_key_share (bls.secret_key_share k i)
        ≡ bls.public_key_share (bls.public_keys k) i
  pub public_key_set_to_bytes-IsBytes :
      (p : bls.PublicKeySet) → IsBytes (bls.public_key_set_to_bytes p)
  pub public_key_set_from_bytes-to_bytes :
      (p : bls.PublicKeySet)
      → bls.public_key_set_from_bytes (bls.public_key_set_to_bytes p) ≡ some p
  pub signature_to_bytes-IsBytes : (s : bls.Signature) → IsBytes (bls.signature_to_bytes s)
  pub length-signature_to_bytes : (s : bls.Signature) → length (bls.signature_to_bytes s) ≡ 96
  pub signature_from_bytes-to_bytes :
      (s : bls.Signature) → bls.signature_from_bytes (bls.signature_to_bytes s) ≡ some s
  pub verify-sign :
      (k : bls.SecretKeySet) (m : Bytes)
      → bls.verify (bls.public_key (bls.public_keys k)) (bls.sign (bls.secret_key k) m) m ≡ true

-- A secret key's bytes parse as a key set of threshold 0 with the same public key.
pub record IsBlsSecretKey (bls : Bls) : Type 0 where
  pub secret_key_set_from_bytes-secret_key :
      (k : bls.SecretKeySet)
      → (k' : bls.SecretKeySet) × (bls.secret_key_set_from_bytes
            (bls.secret_key_to_bytes (bls.secret_key k))
          ≡ some k')
        × (bls.public_key (bls.public_keys k') ≡ bls.public_key (bls.public_keys k))
