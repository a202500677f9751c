-- ===== src/Tests/SmallWorld.antt =====
-- Two threshold key sets, whose keys, shares and signatures have the sizes of the crate's.
use validator_guardian.Prelude.{
  ◌%◌, ◌≡◌, refl, subst, arith, Bool, true, false, Option, none, some, some_inj, [], ◌∷◌, ◌==◌,
  replicate, if◌then◌else◌,
}
use validator_guardian.Text.{Bytes}
use validator_guardian.External.Hex.{IsBytes}
use validator_guardian.External.Bls.{Bls, IsBlsKeys, IsBlsShares, IsBlsSecretKey}
use validator_guardian.Enclave.Handover.{IsEnvelopeKey}
use validator_guardian.Tests.HexWorld.{hex_world, encode}
use validator_guardian.Tests.CustodyWorld.{
  secp_world, byte, key_of, key_of-byte, byte-bound, zeros-IsBytes,
}

abbrev share_of : Bytes → Option (Bool × Bool)
share_of (a ∷ b ∷ rest) = some (a == 1, b == 1)
share_of _ = none

-- A key set of threshold 1 is a Boolean, and its share is told by the parity of the place.
abbrev pub small_bls : Bls
small_bls = record {
  SecretKeySet = Bool;
  PublicKeySet = Bool;
  SecretKey = Bool;
  PublicKey = Bool;
  Signature = Bool;
  SecretKeyShare = Bool × Bool;
  PublicKeyShare = Bool × Bool;
  SignatureShare = Bool × Bool;
  random = λ t e. if t == 1 then some (e == 1) else none;
  threshold = λ k. 1;
  public_keys = λ k. k;
  secret_key = λ k. k;
  secret_key_share = λ k i. (k, i % 2 == 1);
  secret_key_to_bytes = λ s. byte s ∷ replicate 31 0;
  secret_key_set_to_bytes = λ k. byte k ∷ 1 ∷ [];
  secret_key_set_from_bytes = key_of;
  public_key = λ k. k;
  public_key_share = λ k i. (k, i % 2 == 1);
  public_key_set_threshold = λ k. 1;
  public_key_set_to_bytes = λ k. byte k ∷ replicate 95 0;
  public_key_set_from_bytes = key_of;
  public_key_to_bytes = λ k. byte k ∷ replicate 47 0;
  public_key_to_hex = λ k. encode (byte k ∷ replicate 47 0);
  sign = λ k m. k;
  verify = λ p s m. byte p == byte s;
  signature_to_bytes = λ s. byte s ∷ replicate 95 0;
  signature_from_bytes = key_of;
  secret_key_share_to_bytes = λ s. byte s.0 ∷ byte s.1 ∷ replicate 30 0;
  secret_key_share_from_bytes = share_of;
  derive_public_key_share = λ s. s;
  public_key_share_to_bytes = λ s. byte s.0 ∷ byte s.1 ∷ replicate 46 0;
  sign_share = λ s m. s;
  signature_share_to_bytes = λ s. byte s.0 ∷ byte s.1 ∷ replicate 94 0;
  verify_share = λ p s m. byte p.0 == byte s.0;
  combine_signatures = λ k l. none;
}

share_of-bytes :
    (s : Bool × Bool)
    → (s' : Bool × Bool) × (share_of (byte s.0 ∷ byte s.1 ∷ replicate 30 0) ≡ some s') × (s' ≡ s)
share_of-bytes (true, true) = ((true, true), refl, refl)
share_of-bytes (true, false) = ((true, false), refl, refl)
share_of-bytes (false, true) = ((false, true), refl, refl)
share_of-bytes (false, false) = ((false, false), refl, refl)

byte-eq : (k : Bool) → (byte k == byte k) ≡ true
byte-eq true = refl
byte-eq false = refl

pub small_bls-IsBlsKeys : IsBlsKeys hex_world small_bls
small_bls-IsBlsKeys = record {
  from_bytes-to_bytes = λ k. key_of-byte k (1 ∷ []);
  public_key_to_hex-eq = λ p. refl;
}

pub small_bls-IsBlsShares : IsBlsShares small_bls
small_bls-IsBlsShares = record {
  length-secret_key_share_to_bytes = λ s. refl;
  share_bytes-IsBytes = λ s. (byte-bound s.0, (byte-bound s.1, zeros-IsBytes 30));
  secret_key_share_from_bytes-to_bytes = share_of-bytes;
  derive_public_key_share-secret_key_share = λ k i. refl;
  public_key_set_to_bytes-IsBytes = λ p. (byte-bound p, zeros-IsBytes 95);
  public_key_set_from_bytes-to_bytes = λ p. key_of-byte p (replicate 95 0);
  signature_to_bytes-IsBytes = λ s. (byte-bound s, zeros-IsBytes 95);
  length-signature_to_bytes = λ s. refl;
  signature_from_bytes-to_bytes = λ s. key_of-byte s (replicate 95 0);
  verify-sign = λ k m. byte-eq k;
}

-- The key `true` opens what is sealed to it.
pub true-IsEnvelopeKey : IsEnvelopeKey secp_world true true
true-IsEnvelopeKey = record {
  decrypt-encrypt = λ m c entropy h.
      subst (λ b. secp_world.decrypt (secp_world.serialize_secret_key true) b ≡ some m) (some_inj h)
        refl;
  encrypt-IsBytes = λ m c entropy is_bytes h. subst IsBytes (some_inj h) (omega arith, is_bytes);
}

pub small_bls-IsBlsSecretKey : IsBlsSecretKey small_bls
small_bls-IsBlsSecretKey = record {
  secret_key_set_from_bytes-secret_key = λ k. (k, key_of-byte k (replicate 31 0), refl);
}
