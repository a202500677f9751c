-- ===== src/Server/Recording.antt =====
-- src/enclave/secure_signer/mod.rs and src/enclave/validator/mod.rs: saving a fresh key with its
-- record.
use validator_guardian.Prelude.{ℕ, ◌≡◌, sym, ◌∙◌, ap, subst, inl, inr, arith}
use validator_guardian.Text.{Text, Bytes, strip_0x_prefix}
use validator_guardian.Outcome.{ok, Outcome-cases}
use validator_guardian.Disk.{Disk, Exec, ◌>>=◌, lift, join}
use validator_guardian.External.Ssz.{Ssz}
use validator_guardian.External.Bls.{Bls, IsBlsKeys}
use validator_guardian.Eth2.SlashProtection.{SlashingProtectionData, from_pk_hex}
use validator_guardian.Eth2.SlashProtection.Storage.{write, Serde}
use validator_guardian.Crypto.BlsKeys.{new_bls_key, save_bls_key}
use validator_guardian.Enclave.Shared.Records.{IsSerde, write_cases, recorded}
use validator_guardian.Server.Keeps.{
  IsFresh, Keeps-trans, insert_record-Keeps, Keeps, Keeps-refl, same_records-Keeps,
}
use validator_guardian.External.Hex.{Hex, IsHex, IsHexText}
use validator_guardian.Constants.{bls_keys_dir}
use validator_guardian.Io.KeyManagement.{write_bls_key}
use validator_guardian.Server.Paths.{IsRelative, IsRelative-digits, bls_key_apart}
use validator_guardian.Enclave.Shared.Update.{WellNamed}
use validator_guardian.Server.Quiet.{bind_quiet, write_key-same}

module _ (hex : Hex) (ssz : Ssz) (serde : Serde) (bls : Bls) where
  -- the record of a key that is drawn has no file yet
  abbrev pub DrawsFresh : ℕ → ℕ → Disk → Type 0
  DrawsFresh t entropy disk =
      (sk : bls.SecretKeySet) (db : SlashingProtectionData)
      → new_bls_key bls t entropy ≡ ok sk
      → from_pk_hex hex ssz (bls.public_key_to_hex (bls.public_key (bls.public_keys sk))) ≡ ok db
      → IsFresh hex serde db disk.files

module _ (hex : Hex) (is_hex : IsHex hex) (is_text : IsHexText hex) where
  pub IsRelative-strip_0x_prefix : (b : Bytes) → IsRelative (strip_0x_prefix (hex.encode b))
  IsRelative-strip_0x_prefix b =
      subst IsRelative (sym (is_hex.strip_0x_prefix-encode b))
        (IsRelative-digits (hex.encode b) (is_text.encode-digits b))

  pub IsRelative-strip_twice :
      (b : Bytes) → IsRelative (strip_0x_prefix (strip_0x_prefix (hex.encode b)))
  IsRelative-strip_twice b =
      subst IsRelative (ap strip_0x_prefix (sym (is_hex.strip_0x_prefix-encode b)))
        (IsRelative-strip_0x_prefix b)

module _ (hex : Hex) (ssz : Ssz) (serde : Serde) (bls : Bls) (is_hex : IsHex hex)
    (is_text : IsHexText hex) (is_keys : IsBlsKeys hex bls) (is_serde : IsSerde serde) where
  write-Keeps :
      (db : SlashingProtectionData) (disk : Disk)
      → IsFresh hex serde db disk.files
      → WellNamed hex serde disk.files
      → Keeps hex serde disk.files (write hex serde db disk).1.files
  write-Keeps db disk fresh named = elim (write_cases hex serde db disk) [
    | inl (e, disk', failed, same) ↦
        subst (λ f. Keeps hex serde disk.files f) (sym same ∙ ground (arith, failed))
          (Keeps-refl hex serde disk.files named)
    | inr (json, disk', done, text, files) ↦
        subst (λ f. Keeps hex serde disk.files f) (sym files ∙ ground (arith, done))
          (insert_record-Keeps hex serde is_serde db json disk.files text fresh named)
  ]

  save_bls_key-same :
      (sk : bls.SecretKeySet) (disk : Disk) (k : Text)
      → recorded serde (save_bls_key hex bls sk disk).1.files k ≡ recorded serde disk.files k
  unfolding save_bls_key write_bls_key
  save_bls_key-same sk disk k =
      let pk = bls.public_key (bls.public_keys sk) in
      let name = strip_0x_prefix (bls.public_key_to_hex pk) in
      let is_relative =
        subst (λ t. IsRelative (strip_0x_prefix t)) (sym (is_keys.public_key_to_hex-eq pk))
          (IsRelative-strip_0x_prefix hex is_hex is_text (bls.public_key_to_bytes pk)) in
      write_key-same serde (join bls_keys_dir name)
        (strip_0x_prefix (hex.encode (bls.secret_key_set_to_bytes sk))) disk
        (λ key. bls_key_apart name key is_relative) k

  -- `finish` is what comes after the record is written, and changes no file
  module _ {B : Type 0} (sk : bls.SecretKeySet) (finish : Exec B)
      (quiet : (disk : Disk) → (finish disk).1 ≡ disk) where
    abbrev pub record_key : Exec B
    record_key = do
      db ← lift (from_pk_hex hex ssz (bls.public_key_to_hex (bls.public_key (bls.public_keys sk))))
      _ ← write hex serde db
      finish

    record_key-Keeps :
        (disk : Disk)
        → ((db : SlashingProtectionData)
            → from_pk_hex hex ssz (bls.public_key_to_hex (bls.public_key (bls.public_keys sk)))
              ≡ ok db
            → IsFresh hex serde db disk.files)
        → WellNamed hex serde disk.files
        → Keeps hex serde disk.files (record_key disk).1.files
    record_key-Keeps disk fresh named =
        let pk = bls.public_key (bls.public_keys sk) in
        let same = Keeps-refl hex serde disk.files named in
        elim (Outcome-cases (from_pk_hex hex ssz (bls.public_key_to_hex pk))) [
          | inl (db, empty) ↦
              let written : (record_key disk).1 ≡ ((write hex serde db >>= λ _. finish) disk).1 =
                ground (arith, empty) in
              let ended : ((write hex serde db >>= λ _. finish) disk).1
                  ≡ (write hex serde db disk).1 =
                bind_quiet (write hex serde db) (λ _. finish) disk (λ u d. quiet d) in
              subst (λ d. Keeps hex serde disk.files d.files) (sym (written ∙ ended))
                (write-Keeps db disk (fresh db empty) named)
          | inr (inl (e, bad)) ↦
              let ended : (record_key disk).1 ≡ disk = ground (arith, bad) in
              subst (λ d. Keeps hex serde disk.files d.files) (sym ended) same
          | inr (inr bad) ↦
              let ended : (record_key disk).1 ≡ disk = ground (arith, bad) in
              subst (λ d. Keeps hex serde disk.files d.files) (sym ended) same
        ]

    -- a key that is saved and recorded
    pub save_and_record-Keeps :
        (disk : Disk)
        → ((db : SlashingProtectionData)
            → from_pk_hex hex ssz (bls.public_key_to_hex (bls.public_key (bls.public_keys sk)))
              ≡ ok db
            → IsFresh hex serde db disk.files)
        → WellNamed hex serde disk.files
        → Keeps hex serde disk.files ((save_bls_key hex bls sk >>= λ _. record_key) disk).1.files
    save_and_record-Keeps disk fresh named =
        let mid = (save_bls_key hex bls sk disk).1 in
        let same = save_bls_key-same sk disk in
        let kept = same_records-Keeps hex serde disk.files mid.files same named in
        elim (Outcome-cases (save_bls_key hex bls sk disk).0) [
          | inl (u, saved) ↦
              let rest =
                record_key-Keeps mid (λ db empty k path. same k ∙ fresh db empty k path)
                  kept.well_named in
              let ended : ((save_bls_key hex bls sk >>= λ _. record_key) disk).1
                  ≡ (record_key mid).1 =
                ground (arith, saved) in
              subst (λ d. Keeps hex serde disk.files d.files) (sym ended)
                (Keeps-trans hex serde disk.files mid.files (record_key mid).1.files kept rest)
          | inr (inl (e, bad)) ↦
              let ended : ((save_bls_key hex bls sk >>= λ _. record_key) disk).1 ≡ mid =
                ground (arith, bad) in
              subst (λ d. Keeps hex serde disk.files d.files) (sym ended) kept
          | inr (inr bad) ↦
              let ended : ((save_bls_key hex bls sk >>= λ _. record_key) disk).1 ≡ mid =
                ground (arith, bad) in
              subst (λ d. Keeps hex serde disk.files d.files) (sym ended) kept
        ]
