-- ===== src/Client/Keygen/Deposit.antt =====
-- src/client/keygen.rs: the deposit in a payload that is generated at the client.
use validator_guardian.Prelude.{
  ℕ, ◌≡◌, ap, sym, ◌∙◌, arith, List, inl, inr, length, if◌then◌else◌, zip,
}
use validator_guardian.Text.{Text, Bytes}
use validator_guardian.Outcome.{ok, err, invalid_deposit_signature, Outcome-cases}
use validator_guardian.Disk.{Disk}
use validator_guardian.Constants.{withdrawal_credentials_bytes}
use validator_guardian.External.Hex.{Hex, IsHex, IsBytes}
use validator_guardian.External.TreeHash.{TreeHash}
use validator_guardian.External.Secp.{Secp}
use validator_guardian.External.Bls.{Bls, IsBlsKeys, IsBlsShares, IsBlsSecretKey}
use validator_guardian.External.Keystore.{Keystore, IsKeystore}
use validator_guardian.Eth2.Types.{Version, genesis_fork_version}
use validator_guardian.Crypto.BlsKeys.{new_bls_key, distribute_key_shares}
use validator_guardian.Crypto.BlsKeys.Keystores.{
  save_bls_keystore, fetch_bls_sk_keystore, fetch_bls_sk_keystore-save_bls_keystore,
}
use validator_guardian.Enclave.Payload.{BlsKeygenPayload}
use validator_guardian.Enclave.Validator.{threshold_below, encrypt_shares}
use validator_guardian.Enclave.Guardian.{verify_deposit_message}
use validator_guardian.Enclave.Handover.Deposit.{
  States, deposit_root, verify_deposit_message-States,
}
use validator_guardian.Client.Keygen.{generate_bls_keystore}

module _ (hex : Hex) (tree : TreeHash) (secp : Secp) (bls : Bls) (keystore : Keystore)
    (seed : ℕ → ℕ) (entropy : ℕ) (credentials : Bytes) (guardians : List secp.PublicKey)
    (threshold : ℕ) (password : Text) (fork_version : Version) (disk disk' : Disk)
    (payload : BlsKeygenPayload) where
  abbrev pub Returns : Type 0
  Returns =
      generate_bls_keystore hex tree secp bls keystore seed entropy credentials guardians threshold
        password fork_version disk
      ≡ (ok payload, disk')

  -- what a call that returns has drawn, saved and stated
  pub record IsKept : Type 0 where
    pub key_set : bls.SecretKeySet
    pub uuid : Text
    pub saved : save_bls_keystore keystore bls key_set password entropy disk ≡ (ok uuid, disk')
    pub states : States hex tree bls key_set credentials fork_version payload
    pub states_key :
        payload.bls_pub_key ≡ bls.public_key_to_hex (bls.public_key (bls.public_keys key_set))
    pub states_version : payload.fork_version ≡ genesis_fork_version

  pub Returns-IsKept : Returns → IsKept
  unfolding generate_bls_keystore
  Returns-IsKept h = elim (Outcome-cases (new_bls_key bls (threshold_below threshold) (seed 0))) [
    | inl (k, drawn) ↦
        elim (Outcome-cases (
          encrypt_shares hex secp bls seed 1
            (zip guardians (distribute_key_shares bls k (length guardians))))) [
              | inl (keys, encrypted) ↦
                  elim (Outcome-cases (save_bls_keystore keystore bls k password entropy disk).0) [
                    | inl (uuid, saved) ↦ record {
                      key_set = k;
                      uuid = uuid;
                      saved = ground (arith, drawn, encrypted, saved, h);
                      states = record {
                        states_set = ground (arith, drawn, encrypted, saved, h);
                        states_signature = ground (arith, drawn, encrypted, saved, h);
                        states_root = ground (arith, drawn, encrypted, saved, h);
                        states_credentials = ground (arith, drawn, encrypted, saved, h);
                      };
                      states_key = ground (arith, drawn, encrypted, saved, h);
                      states_version = ground (arith, drawn, encrypted, saved, h);
                    }
                    | inr (inl (e, bad)) ↦ absurd (ground (arith, drawn, encrypted, bad, h))
                    | inr (inr bad) ↦ absurd (ground (arith, drawn, encrypted, bad, h))
                  ]
              | inr (inl (e, bad)) ↦ absurd (ground (arith, drawn, bad, h))
              | inr (inr bad) ↦ absurd (ground (arith, drawn, bad, h))
            ]
    | inr (inl (e, bad)) ↦ absurd (ground (arith, bad, h))
    | inr (inr bad) ↦ absurd (ground (arith, bad, h))
  ]

  module _ (is_hex : IsHex hex) where
    -- A call that returns for 32 bytes of withdrawal credentials returns the public key of some
    -- key set, which signs the deposit under the fork version asked for; a guardian accepts that
    -- deposit if the signature is valid also for the deposit under the genesis fork version, and
    -- refuses its signature otherwise.
    pub generate_bls_keystore-verify_deposit_message :
        IsBlsShares bls
        → IsBytes credentials
        → length credentials ≡ withdrawal_credentials_bytes
        → Returns
        → (k : bls.SecretKeySet) × (payload.bls_pub_key
            ≡ bls.public_key_to_hex (bls.public_key (bls.public_keys k)))
          × (verify_deposit_message hex tree bls payload ≡ (
              if bls.verify
                (bls.public_key (bls.public_keys k))
                (bls.sign (bls.secret_key k) (deposit_root hex tree bls k credentials fork_version))
                (deposit_root hex tree bls k credentials genesis_fork_version)
              then ok tt
              else err invalid_deposit_signature))
    generate_bls_keystore-verify_deposit_message is_bls is_bytes has_length h =
        let kept = Returns-IsKept h in
        let k = kept.key_set in
        let accepts =
          verify_deposit_message-States hex tree bls is_hex is_bls k credentials fork_version
            payload kept.states is_bytes has_length in
        (k, kept.states_key, ground (arith, accepts, kept.states_version))

    -- The keystore that such a call leaves opens under the password and the stated public key,
    -- with a key set of that public key.
    pub fetch_bls_sk_keystore-generate_bls_keystore :
        IsKeystore keystore
        → IsBlsKeys hex bls
        → IsBlsSecretKey bls
        → Returns
        → (k : bls.SecretKeySet) × (fetch_bls_sk_keystore keystore bls payload.bls_pub_key password
              disk'
            ≡ (ok k, disk'))
          × (bls.public_key_to_hex (bls.public_key (bls.public_keys k)) ≡ payload.bls_pub_key)
    fetch_bls_sk_keystore-generate_bls_keystore is_keystore is_keys is_secret h =
        let kept = Returns-IsKept h in
        let (k, fetched, same) =
          fetch_bls_sk_keystore-save_bls_keystore hex keystore bls is_hex is_keystore is_keys
            is_secret kept.key_set password kept.uuid entropy disk disk' kept.saved in
        (
          k,
          ground (arith, fetched, kept.states_key),
          ap bls.public_key_to_hex same ∙ sym kept.states_key,
        )
