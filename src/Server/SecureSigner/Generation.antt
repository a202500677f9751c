-- ===== src/Server/SecureSigner/Generation.antt =====
-- src/enclave/secure_signer/mod.rs: what a key generation leaves of the records of all keys.
use validator_guardian.Prelude.{ℕ, ◌≡◌, refl, sym, ◌∙◌, subst, inl, inr, arith}
use validator_guardian.Outcome.{Outcome-cases}
use validator_guardian.Disk.{Disk, Exec, ◌>>=◌, pure, lift, join}
use validator_guardian.External.Ssz.{Ssz}
use validator_guardian.External.Bls.{Bls, IsBlsKeys}
use validator_guardian.Crypto.BlsKeys.{new_bls_key, save_bls_key}
use validator_guardian.Enclave.Shared.Records.{IsSerde}
use validator_guardian.Enclave.SecureSigner.{
  bls_keygen_handler, attest_new_bls_key, eth_keygen_handler, attest_new_eth_key,
}
use validator_guardian.External.Hex.{Hex, IsHex, IsHexText}
use validator_guardian.External.Secp.{Secp}
use validator_guardian.External.Session.{Agent}
use validator_guardian.Text.{strip_0x_prefix}
use validator_guardian.Constants.{eth_keys_dir}
use validator_guardian.Crypto.EthKeys.{eth_key_gen, save_eth_key, eth_pk_to_hex, eth_sk_to_hex}
use validator_guardian.Io.KeyManagement.{write_eth_key, write_key}
use validator_guardian.Io.RemoteAttestation.{AttestationEvidence, attest}
use validator_guardian.Enclave.Keys.{from_eth_key, from_bls_key}
use validator_guardian.Enclave.Types.{created, internal_server_error}
use validator_guardian.Server.Paths.{eth_key_apart}
use validator_guardian.Eth2.SlashProtection.Storage.{Serde}
use validator_guardian.Enclave.Shared.Update.{WellNamed}
use validator_guardian.Server.Keeps.{Keeps, Keeps-refl, same_records-Keeps}
use validator_guardian.Server.Quiet.{bind_quiet, responded_disk, write_key-same}
use validator_guardian.Server.Recording.{
  DrawsFresh, IsRelative-strip_twice, save_and_record-Keeps, record_key,
}

module _ (hex : Hex) (serde : Serde) where
  module _ (is_hex : IsHex hex) (is_text : IsHexText hex) where
    pub eth_keygen-Keeps :
        (secp : Secp) (agent : Agent) (entropy : ℕ) (disk : Disk)
        → WellNamed hex serde disk.files
        → Keeps hex serde disk.files (eth_keygen_handler hex secp agent entropy disk).1.files
    unfolding eth_keygen_handler attest_new_eth_key eth_key_gen save_eth_key write_eth_key
        eth_pk_to_hex
    eth_keygen-Keeps secp agent entropy disk named =
        let pair = secp.generate_keypair entropy in
        let name = eth_pk_to_hex hex secp pair.1 in
        let path = join eth_keys_dir (strip_0x_prefix name) in
        let text = strip_0x_prefix (eth_sk_to_hex hex secp pair.0) in
        let relative_name =
          IsRelative-strip_twice hex is_hex is_text (secp.serialize_compressed pair.1) in
        subst (λ d. Keeps hex serde disk.files d.files)
          (sym (
            responded_disk (attest_new_eth_key hex secp agent entropy) created internal_server_error
              (λ r. from_eth_key hex secp r.1 r.0) disk
            ∙ bind_quiet (eth_key_gen hex secp entropy)
                (λ pk.
                  lift (attest agent (secp.serialize_compressed pk)) >>= λ proof. pure (proof, pk))
                disk
                (λ pk d.
                  bind_quiet (lift (attest agent (secp.serialize_compressed pk)))
                    (λ proof. pure (proof, pk)) d (λ proof d'. refl))
            ∙ bind_quiet (write_key path text) (λ _. pure pair.1) disk (λ a d. refl)))
          (same_records-Keeps hex serde disk.files _
            (write_key-same serde path text disk
              (λ k. eth_key_apart (strip_0x_prefix name) k relative_name))
            named)

  module _ (ssz : Ssz) (bls : Bls) (agent : Agent) (is_hex : IsHex hex) (is_text : IsHexText hex)
      (is_keys : IsBlsKeys hex bls) (is_serde : IsSerde serde) where
    -- what comes after the record is written
    abbrev finish_key : bls.PublicKey → Exec (AttestationEvidence × bls.PublicKey)
    finish_key pk = do proof ← lift (attest agent (bls.public_key_to_bytes pk)); pure (proof, pk)

    finish_key_disk : (pk : bls.PublicKey) (disk : Disk) → (finish_key pk disk).1 ≡ disk
    finish_key_disk pk disk =
        bind_quiet (lift (attest agent (bls.public_key_to_bytes pk))) (λ proof. pure (proof, pk))
          disk (λ proof d. refl)

    abbrev recorded_key : bls.SecretKeySet → Exec (AttestationEvidence × bls.PublicKey)
    recorded_key sk =
        record_key hex ssz serde bls is_hex is_text is_keys is_serde sk
          (finish_key (bls.public_key (bls.public_keys sk)))
          (finish_key_disk (bls.public_key (bls.public_keys sk)))

    attest_new_bls_key-Keeps :
        (entropy : ℕ) (disk : Disk)
        → DrawsFresh hex ssz serde bls 0 entropy disk
        → WellNamed hex serde disk.files
        → Keeps hex serde disk.files
            (attest_new_bls_key hex ssz serde bls agent entropy disk).1.files
    unfolding attest_new_bls_key
    attest_new_bls_key-Keeps entropy disk fresh named =
        let run = attest_new_bls_key hex ssz serde bls agent entropy disk in
        let same = Keeps-refl hex serde disk.files named in
        elim (Outcome-cases (new_bls_key bls 0 entropy)) [
          | inl (sk, made) ↦
              let ended : run.1 ≡ ((save_bls_key hex bls sk >>= λ _. recorded_key sk) disk).1 =
                ground (arith, made) in
              subst (λ d. Keeps hex serde disk.files d.files) (sym ended)
                (save_and_record-Keeps hex ssz serde bls is_hex is_text is_keys is_serde sk
                  (finish_key (bls.public_key (bls.public_keys sk)))
                  (finish_key_disk (bls.public_key (bls.public_keys sk))) disk
                  (λ db. fresh sk db made) named)
          | inr (inl (e, bad)) ↦
              let ended : run.1 ≡ disk = ground (arith, bad) in
              subst (λ d. Keeps hex serde disk.files d.files) (sym ended) same
          | inr (inr bad) ↦
              let ended : run.1 ≡ disk = ground (arith, bad) in
              subst (λ d. Keeps hex serde disk.files d.files) (sym ended) same
        ]

    pub bls_keygen-Keeps :
        (entropy : ℕ) (disk : Disk)
        → DrawsFresh hex ssz serde bls 0 entropy disk
        → WellNamed hex serde disk.files
        → Keeps hex serde disk.files
            (bls_keygen_handler hex ssz serde bls agent entropy disk).1.files
    unfolding bls_keygen_handler
    bls_keygen-Keeps entropy disk fresh named =
        subst (λ d. Keeps hex serde disk.files d.files)
          (sym (
            responded_disk (attest_new_bls_key hex ssz serde bls agent entropy) created
              internal_server_error (λ r. from_bls_key bls r.1 r.0) disk))
          (attest_new_bls_key-Keeps entropy disk fresh named)
