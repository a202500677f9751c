-- ===== src/Enclave/Shared/Availability.antt =====
-- src/enclave/shared/mod.rs: when the signing endpoint gives a signature.
use validator_guardian.Prelude.{◌≡◌, sym, ◌∙◌, inl, inr, false, none, some, arith, length, some_inj}
use validator_guardian.Text.{Text, text_eq, strip_0x_prefix}
use validator_guardian.Outcome.{ok}
use validator_guardian.Disk.{Disk, lookup}
use validator_guardian.External.Hex.{Hex}
use validator_guardian.External.TreeHash.{TreeHash}
use validator_guardian.External.Bls.{Bls}
use validator_guardian.Eth2.Types.{Root}
use validator_guardian.Eth2.SlashProtection.{SlashingProtectionData}
use validator_guardian.Eth2.SlashProtection.Storage.{Serde, file_path}
use validator_guardian.Eth2.Signing.{BlsSignMsg, to_signing_root}
use validator_guardian.Io.KeyManagement.Laws.{key_bytes}
use validator_guardian.Crypto.BlsKeys.{sanitize_bls_pk_hex}
use validator_guardian.Crypto.BlsKeys.Stored.{stored_key, key_path, hex_of, sign_saved_cases}
use validator_guardian.Enclave.Types.{
  SignatureResponse, Response, status_ok, new_signature_response,
}
use validator_guardian.Enclave.Shared.{
  AppState, verdict, is_slashable, update_slash_protection_db, sign_root, record_and_sign,
  check_and_sign, sign_validator_message,
}
use validator_guardian.Enclave.Shared.Records.{recorded, path_of, read_cases}
use validator_guardian.Enclave.Shared.Levels.{Statement, statement_of, level_of, IsAbove}
use validator_guardian.Enclave.Shared.Guard.{
  is_deposit_upper-of_statement, can_be_slashed-of_statement,
}
use validator_guardian.Enclave.Shared.Saving.{verdict-IsAbove, save_and_keep}

module _ (hex : Hex) (bls : Bls) where
  pub stored_key-kept :
      (k : Text) (sk : bls.SecretKeySet) (disk disk' : Disk)
      → lookup (key_path hex bls k) disk'.files ≡ lookup (key_path hex bls k) disk.files
      → stored_key hex bls disk.files k ≡ some sk
      → stored_key hex bls disk'.files k ≡ some sk
  unfolding stored_key key_bytes
  stored_key-kept k sk disk disk' kept stored = ground arith

  -- the answer that carries a signature
  abbrev pub signed_by : bls.SecretKeySet → Root → Response SignatureResponse
  signed_by sk root = record {
    status = status_ok;
    body =
        some
          (new_signature_response hex (bls.signature_to_bytes (bls.sign (bls.secret_key sk) root)));
  }

  pub sign_root_ok :
      (k : Text) (root : Root) (sk : bls.SecretKeySet) (disk' : Disk)
      → stored_key hex bls disk'.files k ≡ some sk
      → k ≡ hex_of hex bls sk
      → sign_root hex bls k root disk' ≡ (ok (signed_by sk root), disk')
  unfolding sign_root
  sign_root_ok k root sk disk' stored same = elim (sign_saved_cases hex bls k root disk') [
    | inl (_, refute) ↦ absurd (refute sk stored same)
    | inr (sk', stored', _, signed) ↦
        let e : sk' ≡ sk = some_inj (sym stored' ∙ stored) in ground (arith, signed, e)
  ]

module _ (hex : Hex) (serde : Serde) (tree : TreeHash) (bls : Bls) (disk : Disk)
    (total : (d : SlashingProtectionData) → (json : Text) × (serde.to_string d ≡ some json))
    (allowed : (path : Text) → disk.denied path ≡ false) where
  -- an update that succeeds keeps the files that are not the record's
  update-Succeeds :
      (k : Text) (m : BlsSignMsg) (db : SlashingProtectionData) {s : Statement}
      → statement_of m ≡ some s
      → recorded serde disk.files k ≡ some db
      → IsAbove (level_of (some db)) s
      → file_path hex db ≡ path_of k
      → (disk' : Disk) × (update_slash_protection_db hex serde tree k m disk ≡ (ok tt, disk'))
        × ((path : Text)
            → text_eq (path_of k) path ≡ false
            → lookup path disk'.files ≡ lookup path disk.files)
  unfolding update_slash_protection_db
  update-Succeeds k m db states found above named =
      let (disk', saved, kept, _) =
        save_and_keep hex serde disk total allowed k m (to_signing_root tree m none) db states above
          named in
      elim (read_cases serde k disk) [
        | inl (missing, _) ↦ absurd (cc (missing, found))
        | inr (db', found', was_read) ↦
            let same_db : db' ≡ db = some_inj (sym found' ∙ found) in
            (disk', ground (arith, was_read, same_db, saved), kept)
      ]

  check_and_sign_ok :
      (k : Text) (state : AppState) (req : BlsSignMsg) (db : SlashingProtectionData) (disk' : Disk)
      {s : Statement}
      → statement_of req ≡ some s
      → recorded serde disk.files k ≡ some db
      → verdict db req ≡ false
      → update_slash_protection_db hex serde tree k req disk ≡ (ok tt, disk')
      → check_and_sign hex serde tree bls k state req disk
        ≡ sign_root hex bls k (to_signing_root tree req (some state.genesis_fork_version)) disk'
  unfolding check_and_sign is_slashable record_and_sign
  check_and_sign_ok k state req db disk' states found fine updated =
      elim (read_cases serde k disk) [
        | inl (missing, _) ↦ absurd (cc (missing, found))
        | inr (db', found', was_read) ↦
            let e : db' ≡ db = some_inj (sym found' ∙ found) in
            ground (arith, was_read, e, can_be_slashed-of_statement req states, updated)
      ]

  -- Where nothing is refused by the environment: a block or attestation that lies beyond the record
  -- of its key, whose key set is stored under the 96 digits of its public key and in another file
  -- than the record, is answered with the status 200 and that key set's signature over its root.
  pub sign_validator_message_signs :
      (pk_hex : Text) (state : AppState) (req : BlsSignMsg) (db : SlashingProtectionData)
      (sk : bls.SecretKeySet) (s : Statement)
      → statement_of req ≡ some s
      → length (strip_0x_prefix pk_hex) ≡ 96
      → recorded serde disk.files (strip_0x_prefix pk_hex) ≡ some db
      → IsAbove (level_of (some db)) s
      → file_path hex db ≡ path_of (strip_0x_prefix pk_hex)
      → stored_key hex bls disk.files (strip_0x_prefix pk_hex) ≡ some sk
      → strip_0x_prefix pk_hex ≡ hex_of hex bls sk
      → text_eq (path_of (strip_0x_prefix pk_hex)) (key_path hex bls (strip_0x_prefix pk_hex))
        ≡ false
      → (disk' : Disk) × (sign_validator_message hex serde tree bls pk_hex state req disk ≡ (
        ok (record {
          status = status_ok;
          body = some (
              new_signature_response hex (
                bls.signature_to_bytes (
                  bls.sign
                    (bls.secret_key sk)
                    (to_signing_root tree req (some state.genesis_fork_version)))));
        }),
        disk',
      ))
  unfolding sign_validator_message sanitize_bls_pk_hex
  sign_validator_message_signs pk_hex state req db sk s states fits found above named stored same
        other =
      let k = strip_0x_prefix pk_hex in
      let (disk', updated, kept) = update-Succeeds k req db states found above named in
      let root = to_signing_root tree req (some state.genesis_fork_version) in
      let still =
        stored_key-kept hex bls k sk disk disk' (kept (key_path hex bls k) other) stored in
      let signed = sign_root_ok hex bls k root sk disk' still same in
      let fine = verdict-IsAbove db req states above in
      (
        disk',
        rw (is_deposit_upper-of_statement req states, fits)
            (check_and_sign_ok k state req db disk' states found fine updated ∙ signed),
      )
