-- ===== src/Server/Validator/Generation.antt =====
-- src/enclave/validator/mod.rs: what a key generation leaves of the records of all keys.
use validator_guardian.Prelude.{
  ℕ, ◌≡◌, sym, subst, inl, inr, arith, List, map, length, if◌then◌else◌, Bool,
}
use validator_guardian.Text.{Bytes}
use validator_guardian.Outcome.{Outcome, ok, Outcome-cases}
use validator_guardian.Disk.{Disk, Exec, ◌>>=◌}
use validator_guardian.External.Hex.{Hex, IsHex, IsHexText}
use validator_guardian.External.Ssz.{Ssz}
use validator_guardian.External.TreeHash.{TreeHash}
use validator_guardian.External.Bls.{Bls, IsBlsKeys}
use validator_guardian.External.Secp.{Secp}
use validator_guardian.External.Session.{Agent}
use validator_guardian.Eth2.Types.{Version}
use validator_guardian.Eth2.Deposit.{sign_full_deposit}
use validator_guardian.Eth2.SlashProtection.Storage.{Serde}
use validator_guardian.Io.RemoteAttestation.{no_evidence, attest}
use validator_guardian.Crypto.BlsKeys.{new_bls_key, save_bls_key, distribute_key_shares}
use validator_guardian.Enclave.Types.{created, internal_server_error}
use validator_guardian.Enclave.Payload.{BlsKeygenPayload}
use validator_guardian.Enclave.Shared.Attestation.{build_validator_remote_attestation_payload}
use validator_guardian.Enclave.Shared.Records.{IsSerde}
use validator_guardian.Enclave.Shared.Update.{WellNamed}
use validator_guardian.Enclave.Validator.{
  AttestFreshBlsKeyPayload, EncryptedRecipientKeys, threshold_below, encrypt_shares, build_payload,
  attest_fresh_bls_key, attest_fresh_bls_key_handler,
}
use validator_guardian.Server.Keeps.{Keeps, Keeps-refl}
use validator_guardian.Server.Quiet.{responded_disk}
use validator_guardian.Server.Recording.{DrawsFresh, record_key, save_and_record-Keeps}
use mathlib.Core.List.{zip}

module _ (hex : Hex) (ssz : Ssz) (serde : Serde) (tree : TreeHash) (secp : Secp) (bls : Bls)
    (agent : Agent) where
  build_payload_disk :
      (sk : bls.SecretKeySet) (keys : List (EncryptedRecipientKeys secp bls)) (credentials : Bytes)
      (version : Version) (attests : Bool) (disk : Disk)
      → (build_payload hex ssz serde tree secp bls agent sk keys credentials version attests disk).1
        ≡ disk
  unfolding build_payload
  build_payload_disk sk keys credentials version attests disk =
      let deposit = sign_full_deposit tree bls sk credentials version in
      elim (Outcome-cases (
        build_validator_remote_attestation_payload hex secp bls (bls.public_keys sk) deposit.0
          deposit.1
          (map (λ (k : EncryptedRecipientKeys secp bls). k.encrypted_secret_key_share_hex) keys)
          (map (λ (k : EncryptedRecipientKeys secp bls). k.guardian_public_key) keys))) [
            | inl (payload, e) ↦
                elim (Outcome-cases
                  (if attests then attest agent payload else ok (no_evidence agent))) [
                    | inl (evidence, f) ↦ ground (arith, e, f)
                    | inr (inl (x, f)) ↦ ground (arith, e, f)
                    | inr (inr f) ↦ ground (arith, e, f)
                  ]
            | inr (inl (x, e)) ↦ ground (arith, e)
            | inr (inr e) ↦ ground (arith, e)
          ]

  module _ (is_hex : IsHex hex) (is_text : IsHexText hex) (is_keys : IsBlsKeys hex bls)
      (is_serde : IsSerde serde) (seed : ℕ → ℕ) (credentials : Bytes)
      (guardians : List secp.PublicKey) (threshold : ℕ) (version : Version) (attests : Bool)
      (disk : Disk) where
    -- the key and the record saved, and the payload built
    abbrev recorded_key :
        bls.SecretKeySet → List (EncryptedRecipientKeys secp bls) → Exec BlsKeygenPayload
    recorded_key sk keys =
        record_key hex ssz serde bls is_hex is_text is_keys is_serde sk
          (build_payload hex ssz serde tree secp bls agent sk keys credentials version attests)
          (build_payload_disk sk keys credentials version attests)

    abbrev run : Outcome BlsKeygenPayload × Disk
    run =
        attest_fresh_bls_key hex ssz serde tree secp bls agent seed credentials guardians threshold
          version attests disk

    unchanged :
        WellNamed hex serde disk.files → run.1 ≡ disk → Keeps hex serde disk.files run.1.files
    unchanged named same =
        subst (λ d. Keeps hex serde disk.files d.files) (sym same)
          (Keeps-refl hex serde disk.files named)

    attest_fresh_bls_key-Keeps :
        DrawsFresh hex ssz serde bls (threshold_below threshold) (seed 0) disk
        → WellNamed hex serde disk.files
        → Keeps hex serde disk.files run.1.files
    unfolding attest_fresh_bls_key
    attest_fresh_bls_key-Keeps fresh named =
        elim (Outcome-cases (new_bls_key bls (threshold_below threshold) (seed 0))) [
          | inl (sk, made) ↦
              elim (Outcome-cases (
                encrypt_shares hex secp bls seed 1
                  (zip guardians (distribute_key_shares bls sk (length guardians))))) [
                    | inl (keys, encrypted) ↦
                        let ended : run.1
                            ≡ ((save_bls_key hex bls sk >>= λ _. recorded_key sk keys) disk).1 =
                          ground (arith, made, encrypted) in
                        subst (λ d. Keeps hex serde disk.files d.files) (sym ended)
                          (save_and_record-Keeps hex ssz serde bls is_hex is_text is_keys is_serde
                            sk
                            (build_payload hex ssz serde tree secp bls agent sk keys credentials
                              version attests)
                            (build_payload_disk sk keys credentials version attests) disk
                            (λ db. fresh sk db made) named)
                    | inr (inl (e, bad)) ↦ unchanged named (ground (arith, made, bad))
                    | inr (inr bad) ↦ unchanged named (ground (arith, made, bad))
                  ]
          | inr (inl (e, bad)) ↦ unchanged named (ground (arith, bad))
          | inr (inr bad) ↦ unchanged named (ground (arith, bad))
        ]

  pub keygen-Keeps :
      IsHex hex
      → IsHexText hex
      → IsBlsKeys hex bls
      → IsSerde serde
      → (seed : ℕ → ℕ) (request : AttestFreshBlsKeyPayload secp) (disk : Disk)
      → DrawsFresh hex ssz serde bls (threshold_below request.threshold) (seed 0) disk
      → WellNamed hex serde disk.files
      → Keeps hex serde disk.files
          (attest_fresh_bls_key_handler hex ssz serde tree secp bls agent seed request disk).1.files
  unfolding attest_fresh_bls_key_handler
  keygen-Keeps is_hex is_text is_keys is_serde seed request disk fresh named =
      subst (λ d. Keeps hex serde disk.files d.files)
        (sym (
          responded_disk
            (attest_fresh_bls_key hex ssz serde tree secp bls agent seed
              request.withdrawal_credentials request.guardian_pubkeys request.threshold
              request.fork_version request.do_remote_attestation)
            created internal_server_error (λ (p : BlsKeygenPayload). p) disk))
        (attest_fresh_bls_key-Keeps is_hex is_text is_keys is_serde seed
          request.withdrawal_credentials request.guardian_pubkeys request.threshold
          request.fork_version request.do_remote_attestation disk fresh named)
