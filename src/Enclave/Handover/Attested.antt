-- ===== src/Enclave/Handover/Attested.antt =====
-- src/enclave/validator/mod.rs and src/enclave/guardian/mod.rs: the message that the CVM agent
-- attests for a fresh key and the one that a guardian has the registry confirm.
use validator_guardian.Prelude.{
  ℕ, ◌≡◌, refl, ap, inl, inr, Bool, List, [], ◌∷◌, arith, length, map, if◌then◌else◌,
}
use validator_guardian.Text.{Bytes, strip_0x_prefix}
use validator_guardian.Outcome.{ok, Outcome-cases}
use validator_guardian.Disk.{Disk}
use validator_guardian.Constants.{bls_sig_bytes}
use validator_guardian.External.Hex.{Hex, IsHex, IsBytes}
use validator_guardian.External.Ssz.{Ssz, IsSsz}
use validator_guardian.External.TreeHash.{TreeHash, IsDepositHash}
use validator_guardian.External.Secp.{Secp, IsSecp}
use validator_guardian.External.Bls.{Bls, IsBlsShares}
use validator_guardian.External.Session.{Agent}
use validator_guardian.Eth2.Types.{Version}
use validator_guardian.Eth2.SlashProtection.Storage.{Serde}
use validator_guardian.Eth2.Deposit.{sign_full_deposit}
use validator_guardian.Io.RemoteAttestation.{AttestationEvidence, attest, no_evidence}
use validator_guardian.Crypto.EthKeys.{eth_pk_to_hex_uncompressed, eth_pk_from_hex_uncompressed}
use validator_guardian.Enclave.Payload.{BlsKeygenPayload}
use validator_guardian.Enclave.Session.{attested_message, guardian_keys}
use validator_guardian.Enclave.Shared.Attestation.{build_validator_remote_attestation_payload}
use validator_guardian.Enclave.Validator.{attest_fresh_bls_key, EncryptedRecipientKeys}
use validator_guardian.Enclave.Validator.Sealed.{Generates, Generates-Draws}

module _ (hex : Hex) (secp : Secp) (bls : Bls) (is_hex : IsHex hex) (is_secp : IsSecp secp) where
  uncompressed_parses :
      (pk : secp.PublicKey)
      → eth_pk_from_hex_uncompressed hex secp (eth_pk_to_hex_uncompressed hex secp pk) ≡ ok pk
  unfolding eth_pk_from_hex_uncompressed eth_pk_to_hex_uncompressed
  uncompressed_parses pk =
      let bytes = secp.serialize pk in
      ground (
        arith,
        ap strip_0x_prefix (is_hex.strip_0x_prefix-encode bytes),
        is_hex.strip_0x_prefix-encode bytes,
        is_hex.decode-encode bytes (is_secp.serialize-IsBytes pk),
        is_secp.length-serialize pk,
        is_secp.parse-serialize pk,
      )

  -- the keys that a payload states are read back
  guardian_keys-uncompressed :
      (keys : List (EncryptedRecipientKeys secp bls))
      → guardian_keys hex secp
          (map (λ k. eth_pk_to_hex_uncompressed hex secp k.guardian_public_key) keys)
        ≡ ok (map (λ k. k.guardian_public_key) keys)
  unfolding guardian_keys
  guardian_keys-uncompressed [] = refl
  guardian_keys-uncompressed (k ∷ keys) =
      ground (arith, uncompressed_parses k.guardian_public_key, guardian_keys-uncompressed keys)

module _ (hex : Hex) (ssz : Ssz) (serde : Serde) (tree : TreeHash) (secp : Secp) (bls : Bls)
    (agent : Agent) (seed : ℕ → ℕ) (credentials : Bytes) (guardians : List secp.PublicKey)
    (threshold : ℕ) (fork_version : Version) (attests : Bool) (disk disk' : Disk)
    (payload : BlsKeygenPayload) where
  -- what is returned for a key set, its sealed shares and the evidence
  abbrev stated :
      bls.SecretKeySet
      → List (EncryptedRecipientKeys secp bls)
      → AttestationEvidence
      → BlsKeygenPayload
  stated key_set keys evidence =
      let deposit = sign_full_deposit tree bls key_set credentials fork_version in
      record {
        bls_pub_key_set = hex.encode (bls.public_key_set_to_bytes (bls.public_keys key_set));
        bls_pub_key = bls.public_key_to_hex (bls.public_key (bls.public_keys key_set));
        signature = hex.encode deposit.0;
        deposit_data_root = hex.encode deposit.1;
        bls_enc_priv_key_shares = map (λ k. k.encrypted_secret_key_share_hex) keys;
        session_id = evidence.session_id;
        attestation_signature = evidence.signature;
        session_public_key = agent.identity_key_to_string evidence.session_public_key.key;
        guardian_eth_pub_keys =
            map (λ k. eth_pk_to_hex_uncompressed hex secp k.guardian_public_key) keys;
        withdrawal_credentials = hex.encode credentials;
        fork_version = fork_version;
      }

  -- The payload states the evidence of the agent for a message that its own fields make up.
  pub record States : Type 0 where
    pub key_set : bls.SecretKeySet
    pub keys : List (EncryptedRecipientKeys secp bls)
    pub message : Bytes
    pub evidence : AttestationEvidence
    pub built :
        build_validator_remote_attestation_payload hex secp bls
          (bls.public_keys key_set)
          (sign_full_deposit tree bls key_set credentials fork_version).0
          (sign_full_deposit tree bls key_set credentials fork_version).1
          (map (λ k. k.encrypted_secret_key_share_hex) keys)
          (map (λ k. k.guardian_public_key) keys)
        ≡ ok message
    pub attested : (if attests then attest agent message else ok (no_evidence agent)) ≡ ok evidence
    pub returned : payload ≡ stated key_set keys evidence

  Generates-States :
      Generates hex ssz serde tree secp bls agent seed credentials guardians threshold fork_version
        attests disk disk' payload
      → States
  unfolding attest_fresh_bls_key
  Generates-States h =
      let draws =
        Generates-Draws hex ssz serde tree secp bls agent seed credentials guardians threshold
          fork_version attests disk disk' payload h in
      let k = draws.key_set in
      let deposit = sign_full_deposit tree bls k credentials fork_version in
      elim (Outcome-cases (
        build_validator_remote_attestation_payload hex secp bls (bls.public_keys k) deposit.0
          deposit.1 (map (λ r. r.encrypted_secret_key_share_hex) draws.keys)
          (map (λ r. r.guardian_public_key) draws.keys))) [
            | inl (message, built) ↦
                elim (Outcome-cases
                  (if attests then attest agent message else ok (no_evidence agent))) [
                    | inl (evidence, attested) ↦
                        let returned : payload ≡ stated k draws.keys evidence =
                          ground (arith, draws.drawn, draws.encrypted, built, attested, h) in
                        record {
                          key_set = k;
                          keys = draws.keys;
                          message = message;
                          evidence = evidence;
                          built = built;
                          attested = attested;
                          returned = returned;
                        }
                    | inr (inl (e, bad)) ↦
                        absurd (ground (arith, draws.drawn, draws.encrypted, built, bad, h))
                    | inr (inr bad) ↦
                        absurd (ground (arith, draws.drawn, draws.encrypted, built, bad, h))
                  ]
            | inr (inl (e, bad)) ↦ absurd (ground (arith, draws.drawn, draws.encrypted, bad, h))
            | inr (inr bad) ↦ absurd (ground (arith, draws.drawn, draws.encrypted, bad, h))
          ]

  module _ (is_hex : IsHex hex) (is_ssz : IsSsz ssz) (is_secp : IsSecp secp)
      (is_bls : IsBlsShares bls) (is_deposit : IsDepositHash tree) where
    deposit_sizes :
        (k : bls.SecretKeySet)
        → IsBytes (sign_full_deposit tree bls k credentials fork_version).0
          × (length (sign_full_deposit tree bls k credentials fork_version).0 ≡ bls_sig_bytes)
          × IsBytes (sign_full_deposit tree bls k credentials fork_version).1
          × (length (sign_full_deposit tree bls k credentials fork_version).1 ≡ 32)
    unfolding sign_full_deposit
    deposit_sizes k = (
      is_bls.signature_to_bytes-IsBytes _,
      is_bls.length-signature_to_bytes _,
      is_deposit.hash_deposit_data-IsBytes _,
      is_deposit.length-hash_deposit_data _,
    )

    -- the payload read back
    attested_message-States :
        (states : States)
        → attested_message hex ssz secp bls payload ≡ ok (secp.keccak256 states.message)
    unfolding attested_message
    attested_message-States states =
        let set_bytes = bls.public_key_set_to_bytes (bls.public_keys states.key_set) in
        let deposit = sign_full_deposit tree bls states.key_set credentials fork_version in
        let (is_sig, sig_length, is_root, root_length) = deposit_sizes states.key_set in
        ground (
          arith,
          ap (λ p. p.bls_pub_key_set) states.returned,
          ap (λ p. p.deposit_data_root) states.returned,
          ap (λ p. p.signature) states.returned,
          ap (λ p. p.guardian_eth_pub_keys) states.returned,
          ap (λ p. p.bls_enc_priv_key_shares) states.returned,
          is_hex.decode-encode set_bytes
              (is_bls.public_key_set_to_bytes-IsBytes (bls.public_keys states.key_set)),
          is_bls.public_key_set_from_bytes-to_bytes (bls.public_keys states.key_set),
          is_hex.decode-encode deposit.1 is_root,
          root_length,
          is_hex.decode-encode deposit.0 is_sig,
          guardian_keys-uncompressed hex secp bls is_hex is_secp states.keys,
          is_ssz.fixed_vector-eq bls_sig_bytes deposit.0 sig_length,
          states.built,
        )

    -- The answer of a key generation states the evidence of the CVM agent for a message, or no
    -- evidence if none is asked for, and the message that a guardian checks for the answer is the
    -- hash of just that message.
    pub attested_message-attest_fresh_bls_key :
        attest_fresh_bls_key hex ssz serde tree secp bls agent seed credentials guardians threshold
            fork_version attests disk
          ≡ (ok payload, disk')
        → (message : Bytes) × (evidence : AttestationEvidence) × ((if attests
              then attest agent message
              else ok (no_evidence agent))
            ≡ ok evidence)
          × (payload.session_id ≡ evidence.session_id)
          × (payload.attestation_signature ≡ evidence.signature)
          × (payload.session_public_key
              ≡ agent.identity_key_to_string evidence.session_public_key.key)
          × (attested_message hex ssz secp bls payload ≡ ok (secp.keccak256 message))
    attested_message-attest_fresh_bls_key h =
        let states = Generates-States h in
        (
          states.message,
          states.evidence,
          states.attested,
          ap (λ p. p.session_id) states.returned,
          ap (λ p. p.attestation_signature) states.returned,
          ap (λ p. p.session_public_key) states.returned,
          attested_message-States states,
        )
