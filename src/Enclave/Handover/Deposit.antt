-- ===== src/Enclave/Handover/Deposit.antt =====
-- src/enclave/validator/mod.rs: the deposit in the payload of attest_fresh_bls_key.
use validator_guardian.Prelude.{
  ℕ, ◌≡◌, refl, ap, ◌∙◌, Bool, true, List, none, some, arith, length, if◌then◌else◌,
}
use validator_guardian.Text.{Bytes, text_eq, text_eq_iff, strip_0x_prefix}
use validator_guardian.Outcome.{ok, err, invalid_deposit_signature}
use validator_guardian.Disk.{Disk}
use validator_guardian.Constants.{full_deposit_amount, withdrawal_credentials_bytes}
use validator_guardian.External.Hex.{Hex, IsHex, IsBytes}
use validator_guardian.External.Ssz.{Ssz}
use validator_guardian.External.TreeHash.{TreeHash}
use validator_guardian.External.Secp.{Secp}
use validator_guardian.External.Bls.{Bls, IsBlsShares}
use validator_guardian.External.Session.{Agent}
use validator_guardian.Eth2.Types.{Version, Root, domain_deposit}
use validator_guardian.Eth2.Signing.{compute_domain, compute_signing_root}
use validator_guardian.Eth2.SlashProtection.Storage.{Serde}
use validator_guardian.Eth2.Deposit.{sign_full_deposit}
use validator_guardian.Enclave.Payload.{
  BlsKeygenPayload, public_key_set, public_key_set_of, withdrawal_credentials, signature,
  deposit_message_root, deposit_data_root,
}
use validator_guardian.Enclave.Validator.{attest_fresh_bls_key}
use validator_guardian.Enclave.Validator.Sealed.{Generates, Draws}
use validator_guardian.Enclave.Guardian.{verify_deposit_message}
use validator_guardian.Enclave.Guardian.Deposit.{data_root}

module _ (hex : Hex) (tree : TreeHash) (bls : Bls) where
  -- what a key set signs to deposit under a fork version
  abbrev pub deposit_root : bls.SecretKeySet → Bytes → Version → Root
  deposit_root k credentials version =
      compute_signing_root tree
        (tree.hash_deposit_message (record {
          pubkey = bls.public_key_to_bytes (bls.public_key (bls.public_keys k));
          withdrawal_credentials = credentials;
          amount = full_deposit_amount;
        }))
        (compute_domain tree domain_deposit (some version) none)

  -- The payload states the deposit to the credentials that the key set signs.
  pub record States (k : bls.SecretKeySet) (credentials : Bytes) (fork_version : Version)
      (payload : BlsKeygenPayload) : Type 0 where
    pub states_set :
        payload.bls_pub_key_set ≡ hex.encode (bls.public_key_set_to_bytes (bls.public_keys k))
    pub states_signature :
        payload.signature ≡ hex.encode (sign_full_deposit tree bls k credentials fork_version).0
    pub states_root :
        payload.deposit_data_root
        ≡ hex.encode (sign_full_deposit tree bls k credentials fork_version).1
    pub states_credentials : payload.withdrawal_credentials ≡ hex.encode credentials

  module _ (is_hex : IsHex hex) (is_bls : IsBlsShares bls) (k : bls.SecretKeySet)
      (credentials : Bytes) (fork_version : Version) (payload : BlsKeygenPayload)
      (states : States k credentials fork_version payload) where
    pub set_parses : public_key_set hex bls payload ≡ ok (bls.public_keys k)
    unfolding public_key_set public_key_set_of
    set_parses =
        let bytes = bls.public_key_set_to_bytes (bls.public_keys k) in
        ground (
          arith,
          states.states_set,
          is_hex.strip_0x_prefix-encode bytes,
          is_hex.decode-encode bytes (is_bls.public_key_set_to_bytes-IsBytes (bls.public_keys k)),
          is_bls.public_key_set_from_bytes-to_bytes (bls.public_keys k),
        )

    module _ (is_bytes : IsBytes credentials)
        (has_length : length credentials ≡ withdrawal_credentials_bytes) where
      credentials_parse : withdrawal_credentials hex bls payload ≡ ok credentials
      unfolding withdrawal_credentials
      credentials_parse = ground (
        arith,
        states.states_credentials,
        is_hex.strip_0x_prefix-encode credentials,
        is_hex.decode-encode credentials is_bytes,
      )

      abbrev sig : bls.Signature
      sig = bls.sign (bls.secret_key k) (deposit_root k credentials fork_version)

      signs : (sign_full_deposit tree bls k credentials fork_version).0 ≡ bls.signature_to_bytes sig
      unfolding sign_full_deposit
      signs = refl

      signature_parses : signature hex bls payload ≡ ok sig
      unfolding signature
      signature_parses =
          let bytes = bls.signature_to_bytes sig in
          ground (
            arith,
            signs,
            states.states_signature,
            is_hex.strip_0x_prefix-encode bytes,
            is_hex.decode-encode bytes (is_bls.signature_to_bytes-IsBytes sig),
            is_bls.length-signature_to_bytes sig,
            is_bls.signature_from_bytes-to_bytes sig,
          )

      root_parses :
          deposit_message_root hex tree bls payload
          ≡ ok (deposit_root k credentials payload.fork_version)
      unfolding deposit_message_root
      root_parses = ground (arith, set_parses, credentials_parse)

      has_root :
          strip_0x_prefix payload.deposit_data_root
          ≡ hex.encode (data_root hex tree bls payload (bls.public_keys k) credentials sig)
      unfolding sign_full_deposit
      has_root =
          ap strip_0x_prefix states.states_root
          ∙ is_hex.strip_0x_prefix-encode (sign_full_deposit tree bls k credentials fork_version).1

      root_matches :
          text_eq
            (strip_0x_prefix payload.deposit_data_root)
            (hex.encode (data_root hex tree bls payload (bls.public_keys k) credentials sig))
          ≡ true
      root_matches = (text_eq_iff _ _).1 has_root

      -- A guardian accepts the deposit if the signature is one under the version that the payload
      -- states.
      pub verify_deposit_message-States : verify_deposit_message hex tree bls payload ≡ (
          if bls.verify
            (bls.public_key (bls.public_keys k))
            sig
            (deposit_root k credentials payload.fork_version)
          then ok tt
          else err invalid_deposit_signature)
      unfolding verify_deposit_message deposit_data_root
      verify_deposit_message-States =
          ground (arith, set_parses, credentials_parse, signature_parses, root_parses, root_matches)

      pub States-verifies :
          payload.fork_version ≡ fork_version → verify_deposit_message hex tree bls payload ≡ ok tt
      States-verifies same = ground (
        arith,
        verify_deposit_message-States,
        same,
        is_bls.verify-sign k (deposit_root k credentials fork_version),
      )

module _ (hex : Hex) (ssz : Ssz) (serde : Serde) (tree : TreeHash) (secp : Secp) (bls : Bls)
    (agent : Agent) (seed : ℕ → ℕ) (credentials : Bytes) (guardians : List secp.PublicKey)
    (threshold : ℕ) (fork_version : Version) (attests : Bool) (disk disk' : Disk)
    (payload : BlsKeygenPayload) where
  -- what a key generation returns
  pub Generates-States :
      (Generates hex ssz serde tree secp bls agent seed credentials guardians threshold fork_version
        attests disk disk' payload)
      → (draws : Draws hex ssz serde tree secp bls agent seed credentials guardians threshold
          fork_version attests disk disk' payload)
      → States hex tree bls draws.key_set credentials fork_version payload
  unfolding attest_fresh_bls_key
  Generates-States h draws = record {
    states_set = ground (arith, draws.drawn, draws.encrypted, h);
    states_signature = ground (arith, draws.drawn, draws.encrypted, h);
    states_root = ground (arith, draws.drawn, draws.encrypted, h);
    states_credentials = ground (arith, draws.drawn, draws.encrypted, h);
  }

  pub Generates-version :
      (Generates hex ssz serde tree secp bls agent seed credentials guardians threshold fork_version
        attests disk disk' payload)
      → (Draws hex ssz serde tree secp bls agent seed credentials guardians threshold fork_version
          attests disk disk' payload)
      → payload.fork_version ≡ fork_version
  unfolding attest_fresh_bls_key
  Generates-version h draws = ground (arith, draws.drawn, draws.encrypted, h)
