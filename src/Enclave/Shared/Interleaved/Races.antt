-- ===== src/Enclave/Shared/Interleaved/Races.antt =====
-- src/enclave/shared/mod.rs: requests alone, and two requests for one key at the same time.
use validator_guardian.Prelude.{
  ◌≡◌, sym, ◌∙◌, inl, inr, arith, none, some, Bool-cases, false, some_inj,
}
use validator_guardian.Text.{Text, text_eq, strip_0x_prefix}
use validator_guardian.Outcome.{ok, Outcome-cases}
use validator_guardian.Disk.{Disk, lookup}
use validator_guardian.External.Hex.{Hex}
use validator_guardian.External.TreeHash.{TreeHash}
use validator_guardian.External.Bls.{Bls}
use validator_guardian.Eth2.SlashProtection.{SlashingProtectionData}
use validator_guardian.Eth2.SlashProtection.Storage.{Serde, file_path}
use validator_guardian.Eth2.Signing.{BlsSignMsg, can_be_slashed, to_signing_root}
use validator_guardian.Crypto.BlsKeys.{sanitize_bls_pk_hex}
use validator_guardian.Crypto.BlsKeys.Stored.{stored_key, key_path, hex_of}
use validator_guardian.Enclave.Shared.{
  AppState, verdict, save, is_slashable, update_slash_protection_db, is_deposit_upper,
  record_and_sign, check_and_sign, sign_validator_message,
}
use validator_guardian.Enclave.Shared.Records.{recorded, path_of, read_cases}
use validator_guardian.Enclave.Shared.Levels.{Statement, statement_of, level_of, IsAbove}
use validator_guardian.Enclave.Shared.Guard.{
  is_deposit_upper-of_statement, can_be_slashed-of_statement,
}
use validator_guardian.Enclave.Shared.Saving.{verdict-IsAbove, save_and_keep}
use validator_guardian.Enclave.Shared.Availability.{stored_key-kept, signed_by, sign_root_ok}
use validator_guardian.Enclave.Shared.Interleaved.{
  arrived, checked, loaded, saved, answered, after_check, after_load, after_save, step, steps,
  alone, together, in_turns,
}

module _ (hex : Hex) (serde : Serde) (tree : TreeHash) (bls : Bls) (pk_hex : Text)
    (state : AppState) (req : BlsSignMsg) where
  check_and_sign-alone :
      (k : Text) (disk : Disk)
      → is_deposit_upper req ≡ false
      → sanitize_bls_pk_hex pk_hex ≡ ok k
      → let run = check_and_sign hex serde tree bls k state req disk in
        alone hex serde tree bls pk_hex state req arrived disk ≡ (answered run.0, run.1)
  unfolding step steps after_check after_load after_save check_and_sign record_and_sign is_slashable
      update_slash_protection_db
  check_and_sign-alone k disk other clean = elim (read_cases serde k disk) [
    | inl (_, (e, unread)) ↦ ground (arith, other, clean, unread)
    | inr (db, found, was_read) ↦ elim (Bool-cases (verdict db req)) [
      | inl slashable ↦ ground (arith, other, clean, was_read, slashable)
      | inr fine ↦ elim (Bool-cases (can_be_slashed req)) [
        | inl recorded_first ↦
            elim (Outcome-cases (save hex serde db req (to_signing_root tree req none) disk).0) [
              | inl (u, done) ↦ ground (arith, other, clean, was_read, fine, recorded_first, done)
              | inr (inl (e, bad)) ↦
                  ground (arith, other, clean, was_read, fine, recorded_first, bad)
              | inr (inr bad) ↦ ground (arith, other, clean, was_read, fine, recorded_first, bad)
            ]
        | inr signed_only ↦ ground (arith, other, clean, was_read, fine, signed_only)
      ]
    ]
  ]

  -- A request whose steps are taken without another in between is answered as by the endpoint, and
  -- leaves the same disk.
  pub alone-eq-sign_validator_message :
      (disk : Disk)
      → let run = sign_validator_message hex serde tree bls pk_hex state req disk in
        alone hex serde tree bls pk_hex state req arrived disk ≡ (answered run.0, run.1)
  unfolding step steps sign_validator_message
  alone-eq-sign_validator_message disk = elim (Bool-cases (is_deposit_upper req)) [
    | inl deposit ↦ ground (arith, deposit)
    | inr other ↦ elim (Outcome-cases (sanitize_bls_pk_hex pk_hex)) [
      | inl (k, clean) ↦ ground (arith, other, clean, check_and_sign-alone k disk other clean)
      | inr (inl (e, bad)) ↦ ground (arith, other, bad)
      | inr (inr bad) ↦ ground (arith, other, bad)
    ]
  ]

module _ (hex : Hex) (serde : Serde) (tree : TreeHash) (bls : Bls)
    (total : (d : SlashingProtectionData) → (json : Text) × (serde.to_string d ≡ some json))
    (pk_hex : Text) (state : AppState) (db : SlashingProtectionData)
    (fits : sanitize_bls_pk_hex pk_hex ≡ ok (strip_0x_prefix pk_hex))
    (named : file_path hex db ≡ path_of (strip_0x_prefix pk_hex)) where
  abbrev k : Text
  k = strip_0x_prefix pk_hex

  module _ (req : BlsSignMsg) (s : Statement) (states : statement_of req ≡ some s)
      (above : IsAbove (level_of (some db)) s) where
    check_step :
        (disk : Disk)
        → recorded serde disk.files k ≡ some db
        → step hex serde tree bls pk_hex state req arrived disk ≡ (checked k, disk)
    unfolding step after_check
    check_step disk found = elim (read_cases serde k disk) [
      | inl (missing, _) ↦ absurd (cc (missing, found))
      | inr (db', found', was_read) ↦
          let same : db' ≡ db = some_inj (sym found' ∙ found) in
          ground (
            arith,
            fits,
            was_read,
            same,
            is_deposit_upper-of_statement req states,
            can_be_slashed-of_statement req states,
            verdict-IsAbove db req states above,
          )
    ]

    load_step :
        (disk : Disk)
        → recorded serde disk.files k ≡ some db
        → step hex serde tree bls pk_hex state req (checked k) disk ≡ (loaded k db, disk)
    unfolding step after_load
    load_step disk found = elim (read_cases serde k disk) [
      | inl (missing, _) ↦ absurd (cc (missing, found))
      | inr (db', found', was_read) ↦
          let same : db' ≡ db = some_inj (sym found' ∙ found) in ground (arith, was_read, same)
    ]

    -- also on a disk whose record has changed since it was read
    save_step :
        (disk : Disk)
        → ((path : Text) → disk.denied path ≡ false)
        → (disk' : Disk) × (step hex serde tree bls pk_hex state req (loaded k db) disk
            ≡ (saved k, disk'))
          × ((path : Text)
              → text_eq (path_of k) path ≡ false
              → lookup path disk'.files ≡ lookup path disk.files)
          × ((path : Text) → disk'.denied path ≡ false)
    unfolding step after_save
    save_step disk allowed =
        let root = to_signing_root tree req none in
        let (disk', done, kept, still) =
          save_and_keep hex serde disk total allowed k req root db states above named in
        (disk', ground (arith, done), kept, still)

    sign_step :
        (sk : bls.SecretKeySet) (disk : Disk)
        → stored_key hex bls disk.files k ≡ some sk
        → k ≡ hex_of hex bls sk
        → step hex serde tree bls pk_hex state req (saved k) disk ≡ (
          answered (
              ok (
                signed_by hex bls sk (to_signing_root tree req (some state.genesis_fork_version)))),
          disk,
        )
    unfolding step
    sign_step sk disk stored same =
        let root = to_signing_root tree req (some state.genesis_fork_version) in
        ground (arith, sign_root_ok hex bls k root sk disk stored same)

  -- Two requests for one key that both lie beyond its record, whose key set is stored as for a
  -- single request and where nothing is refused by the environment, are both answered with the key
  -- set's signature if their steps come in turns, whatever they state against each other.
  pub both_signed :
      (a b : BlsSignMsg) (s t : Statement) (sk : bls.SecretKeySet) (disk : Disk)
      → statement_of a ≡ some s
      → statement_of b ≡ some t
      → IsAbove (level_of (some db)) s
      → IsAbove (level_of (some db)) t
      → recorded serde disk.files (strip_0x_prefix pk_hex) ≡ some db
      → ((path : Text) → disk.denied path ≡ false)
      → stored_key hex bls disk.files (strip_0x_prefix pk_hex) ≡ some sk
      → strip_0x_prefix pk_hex ≡ hex_of hex bls sk
      → text_eq (path_of (strip_0x_prefix pk_hex)) (key_path hex bls (strip_0x_prefix pk_hex))
        ≡ false
      → (disk' : Disk) × (together hex serde tree bls pk_hex state a b in_turns
            (arrived, (arrived, disk))
          ≡ (
            answered (
                ok (
                  signed_by hex bls sk (to_signing_root tree a (some state.genesis_fork_version)))),
            (
              answered (
                  ok (
                    signed_by hex bls sk
                      (to_signing_root tree b (some state.genesis_fork_version)))),
              disk',
            ),
          ))
  unfolding together
  both_signed a b s t sk disk sa tb above_a above_b found allowed stored same other =
      let (d1, saved_a, kept1, allowed1) = save_step a s sa above_a disk allowed in
      let (d2, saved_b, kept2, _) = save_step b t tb above_b d1 allowed1 in
      let path = key_path hex bls k in
      let still =
        stored_key-kept hex bls k sk disk d2 (kept2 path other ∙ kept1 path other) stored in
      (
        d2,
        ground (
          arith,
          check_step a s sa above_a disk found,
          check_step b t tb above_b disk found,
          load_step a s sa above_a disk found,
          load_step b t tb above_b disk found,
          saved_a,
          saved_b,
          sign_step a s sa above_a sk d2 still same,
          sign_step b t tb above_b sk d2 still same,
        ),
      )
