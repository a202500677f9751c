-- ===== src/Enclave/Handover.antt =====
-- src/enclave/validator/mod.rs and src/enclave/guardian/mod.rs: a payload on its way from
-- attest_fresh_bls_key to the checks of a guardian.
pub mod Deposit
pub mod Attested
use validator_guardian.Prelude.{
  ℕ, ◌<◌, ◌≤◌, ◌≡◌, refl, ap, sym, ◌∙◌, subst, ◌⊎◌, inl, inr, Bool, true, false, List, Option, none,
  some, some_inj, arith, length, get_elem?, ◌==◌, not, zero, suc, [], ◌∷◌, Bool-cases,
}
use validator_guardian.Text.{Text, Bytes, text_eq, text_eq_refl, strip_0x_prefix}
use validator_guardian.Outcome.{Outcome, ok, err}
use validator_guardian.Disk.{Disk}
use validator_guardian.Constants.{bls_sig_bytes, withdrawal_credentials_bytes}
use validator_guardian.External.Hex.{Hex, IsHex, IsBytes}
use validator_guardian.External.Ssz.{Ssz}
use validator_guardian.External.TreeHash.{TreeHash}
use validator_guardian.External.Secp.{Secp}
use validator_guardian.External.Bls.{Bls, IsBlsKeys, IsBlsShares}
use validator_guardian.External.Session.{Agent, Registry}
use validator_guardian.Eth2.Types.{Version}
use validator_guardian.Eth2.SlashProtection.Storage.{Serde}
use validator_guardian.Eth2.Deposit.{sign_full_deposit}
use validator_guardian.Crypto.EthKeys.{envelope_decrypt}
use validator_guardian.Enclave.Payload.{
  BlsKeygenPayload, public_key_set, public_key_set_of, withdrawal_credentials, signature,
  deposit_message_root, deposit_data_root, decrypt_sk_share,
}
use validator_guardian.Enclave.Validator.{attest_fresh_bls_key}
use validator_guardian.Enclave.Validator.Sealed.{
  IsSealed, IsShared, Generates, Draws, Generates-Draws, Draws-IsShared,
}
use validator_guardian.External.Ethers.{Ethers}
use validator_guardian.Enclave.Session.{verify_session_evidence}
use validator_guardian.Enclave.Handover.Deposit.{
  Generates-States, Generates-version, States-verifies,
}
use validator_guardian.Enclave.Guardian.{
  ValidateCustodyRequest, checked_share, verify_deposit_message, verify_custody, same_share,
}
use validator_guardian.Enclave.Guardian.Share.{
  Opens, public_key_set_iff, decrypt_sk_share_iff, verify_custody_cases,
}

-- `sk` opens what is encrypted to `pk`, which is a byte string.
pub record IsEnvelopeKey (secp : Secp) (sk : secp.SecretKey) (pk : secp.PublicKey) : Type 0 where
  pub decrypt-encrypt :
      (m c : Bytes) (entropy : ℕ)
      → secp.encrypt (secp.serialize pk) m entropy ≡ some c
      → secp.decrypt (secp.serialize_secret_key sk) c ≡ some m
  pub encrypt-IsBytes :
      (m c : Bytes) (entropy : ℕ)
      → IsBytes m
      → secp.encrypt (secp.serialize pk) m entropy ≡ some c
      → IsBytes c

module _ (hex : Hex) (ssz : Ssz) (serde : Serde) (tree : TreeHash) (secp : Secp) (bls : Bls)
    (agent : Agent) (is_hex : IsHex hex) (is_keys : IsBlsKeys hex bls) (is_bls : IsBlsShares bls)
    (guardians : List secp.PublicKey) (threshold : ℕ) (payload : BlsKeygenPayload)
    (shared : IsShared hex ssz serde tree secp bls agent guardians threshold payload) where
  open shared use {key_set}

  set_parses : public_key_set hex bls payload ≡ ok (bls.public_keys key_set)
  unfolding public_key_set public_key_set_of
  set_parses =
      let bytes = bls.public_key_set_to_bytes (bls.public_keys key_set) in
      ground (
        arith,
        shared.states_set,
        is_hex.strip_0x_prefix-encode bytes,
        is_hex.decode-encode bytes
            (is_bls.public_key_set_to_bytes-IsBytes (bls.public_keys key_set)),
        is_bls.public_key_set_from_bytes-to_bytes (bls.public_keys key_set),
      )

  key_matches :
      bls.public_key_to_hex (bls.public_key (bls.public_keys key_set))
      ≡ strip_0x_prefix payload.bls_pub_key
  key_matches =
      let p = bls.public_key (bls.public_keys key_set) in
      ground (
        arith,
        shared.states_key,
        is_keys.public_key_to_hex-eq p,
        is_hex.strip_0x_prefix-encode (bls.public_key_to_bytes p),
      )

  module _ (i : ℕ) (pk : secp.PublicKey) (sk : secp.SecretKey) (is_key : IsEnvelopeKey secp sk pk)
      (at_i : get_elem? guardians i ≡ some pk) where
    decrypts :
        (share : bls.SecretKeyShare) × (decrypt_sk_share hex secp bls payload i sk ≡ ok share)
        × (bls.derive_public_key_share share ≡ bls.public_key_share (bls.public_keys key_set) i)
    unfolding decrypt_sk_share envelope_decrypt
    decrypts =
        let mine = bls.secret_key_share key_set i in
        let message = bls.secret_key_share_to_bytes mine in
        let (text, found, sealed) = shared.shares i pk at_i in
        let (share, parsed, same) = is_bls.secret_key_share_from_bytes-to_bytes mine in
        (
          share,
          ground (
            arith,
            found,
            sealed.is_hex_of,
            is_hex.strip_0x_prefix-encode sealed.sealed,
            is_hex.decode-encode sealed.sealed (
                is_key.encrypt-IsBytes message sealed.sealed sealed.entropy
                  (is_bls.share_bytes-IsBytes mine) sealed.is_encrypted),
            is_key.decrypt-encrypt message sealed.sealed sealed.entropy sealed.is_encrypted,
            is_bls.length-secret_key_share_to_bytes mine,
            parsed,
          ),
          same ∙ is_bls.derive_public_key_share-secret_key_share key_set i,
        )

    opens :
        (share : bls.SecretKeyShare) × Opens hex secp bls payload sk
          (bls.public_keys key_set)
          i
          share
    opens =
        let (share, decrypted, same) = decrypts in
        (
          share,
          record {
            decrypts = (decrypt_sk_share_iff hex secp bls payload sk i share).0 decrypted;
            is_same = ap (λ p. hex.encode (bls.public_key_share_to_bytes p)) (sym same);
          },
        )

    -- a guardian of the payload finds a share in it
    pub verify_custody_succeeds :
        i < length payload.bls_enc_priv_key_shares
        → (share : bls.SecretKeyShare) × (verify_custody hex secp bls payload sk ≡ ok share)
    verify_custody_succeeds lt = elim (verify_custody_cases hex secp bls payload sk) [
      | inl (_, shut) ↦
          let (share, open_here) = opens in
          absurd (
            shut (bls.public_keys key_set)
              ((public_key_set_iff hex secp bls payload sk (bls.public_keys key_set)).0 set_parses)
              key_matches i share (omega arith) lt open_here)
      | inr (_, share, found, _, _, _) ↦ (share, found)
    ]

-- at a place of a list
lt-length {ℓ} : {A : Type ℓ} (xs : List A) (i : ℕ) {x : A} → get_elem? xs i ≡ some x → i < length xs
lt-length [] i h = cc
lt-length (x ∷ xs) zero h = omega arith
lt-length (x ∷ xs) (suc i) h = omega (arith, lt-length xs i h)

module _ (hex : Hex) (ssz : Ssz) (serde : Serde) (tree : TreeHash) (secp : Secp) (bls : Bls)
    (agent : Agent) (ethers : Ethers) (registry : Registry) (is_hex : IsHex hex)
    (is_keys : IsBlsKeys hex bls) (is_bls : IsBlsShares bls) where
  -- The answer of a key generation to 32 bytes of withdrawal credentials passes all the checks of
  -- a guardian, who is at some place of the list of guardians and whose enclave key opens what is
  -- encrypted to it, and the guardian obtains a key share. Where the request asks for it, the
  -- session evidence is assumed to pass.
  pub attest_fresh_bls_key-checked_share :
      (seed : ℕ → ℕ) (credentials : Bytes) (guardians : List secp.PublicKey) (threshold : ℕ)
      (fork_version : Version) (attests : Bool) (disk disk' : Disk)
      (request : ValidateCustodyRequest secp) (i : ℕ) (sk : secp.SecretKey)
      → attest_fresh_bls_key hex ssz serde tree secp bls agent seed credentials guardians threshold
          fork_version attests disk
        ≡ (ok request.keygen_payload, disk')
      → IsBytes credentials
      → length credentials ≡ withdrawal_credentials_bytes
      → get_elem? guardians i ≡ some request.guardian_enclave_public_key
      → IsEnvelopeKey secp sk request.guardian_enclave_public_key
      → (request.verify_session ≡ true
          → verify_session_evidence hex ssz secp bls registry request.keygen_payload
              request.workload_id
            ≡ ok tt)
      → (share : bls.SecretKeyShare) × (checked_share hex ssz tree secp bls ethers registry request
            sk
          ≡ ok share)
  unfolding checked_share
  attest_fresh_bls_key-checked_share seed credentials guardians threshold fork_version attests disk
        disk' request i sk h is_bytes has_length at_i is_key evidence =
      let draws =
        Generates-Draws hex ssz serde tree secp bls agent seed credentials guardians threshold
          fork_version attests disk disk' request.keygen_payload h in
      let shared =
        Draws-IsShared hex ssz serde tree secp bls agent seed credentials guardians threshold
          fork_version attests disk disk' request.keygen_payload h draws in
      let states =
        Generates-States hex ssz serde tree secp bls agent seed credentials guardians threshold
          fork_version attests disk disk' request.keygen_payload h draws in
      let (text, found, _) = shared.shares i request.guardian_enclave_public_key at_i in
      let (share, custody) =
        verify_custody_succeeds hex ssz serde tree secp bls agent is_hex is_keys is_bls guardians
          threshold request.keygen_payload shared i request.guardian_enclave_public_key sk is_key
          at_i (lt-length request.keygen_payload.bls_enc_priv_key_shares i found) in
      let deposit =
        States-verifies hex tree bls is_hex is_bls draws.key_set credentials fork_version
          request.keygen_payload states is_bytes has_length
          (Generates-version hex ssz serde tree secp bls agent seed credentials guardians threshold
            fork_version attests disk disk' request.keygen_payload h draws) in
      (
        share,
        elim (Bool-cases request.verify_session) [
          | inl asks ↦ ground (arith, asks, evidence asks, deposit, custody)
          | inr skips ↦ ground (arith, skips, deposit, custody)
        ],
      )
