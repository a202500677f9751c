-- ===== src/Enclave/Shared/Update.antt =====
-- What `update_slash_protection_db` does to the records of all keys.
use validator_guardian.Prelude.{
  ◌≡◌, refl, sym, ◌∙◌, subst, ◌⊎◌, inl, inr, true, false, none, some, arith, Bool-cases, some_inj,
}
use validator_guardian.Text.{Text, text_eq, text_eq_iff}
use validator_guardian.Outcome.{Outcome, Error, ok, err, slashable_block, slashable_attestation}
use validator_guardian.Disk.{Files, Disk, insert}
use validator_guardian.Constants.{allow_growable_slash_protection_db}
use validator_guardian.External.Hex.{Hex}
use validator_guardian.External.TreeHash.{TreeHash}
use validator_guardian.Eth2.Types.{Root}
use validator_guardian.Eth2.SlashProtection.{
  SlashingProtectionData, SignedBlockSlot, SignedAttestationEpochs,
}
use validator_guardian.Eth2.SlashProtection.Guards.{new_block_cases, new_attestation_cases}
use validator_guardian.Eth2.SlashProtection.Storage.{Serde, file_path}
use validator_guardian.Eth2.Signing.{
  BlsSignMsg, block_upper, block, block_v2_upper, block_v2, attestation_upper, attestation,
  to_signing_root,
}
use validator_guardian.Enclave.Shared.{
  save_block, save_attestation, save, update_slash_protection_db,
}
use validator_guardian.Enclave.Shared.Records.{
  IsSerde, path_of, recorded, recorded-insert, read_cases, write_cases,
}
use validator_guardian.Enclave.Shared.Levels.{
  Statement, proposal, vote, statement_of, level_of, LevelLe, LevelLe-refl, IsAbove, Covers,
  Extends, RecordsBlock-Extends, RecordsAttestation-Extends,
}

module _ (hex : Hex) (serde : Serde) where
  -- The call failed and left the files alone.
  abbrev pub Failed : Disk → Outcome (Unit {0}) × Disk → Type 0
  Failed disk r = (e : Error) × (disk' : Disk) × (r ≡ (err e, disk')) × (disk'.files ≡ disk.files)

  -- The call put an object that extends `db` by the statement at its path.
  abbrev pub Stored : SlashingProtectionData → Statement → Disk → Outcome (Unit {0}) × Disk → Type 0
  Stored db s disk r =
      (db' : SlashingProtectionData) × (json : Text) × (disk' : Disk) × (r ≡ (ok tt, disk'))
      × (serde.to_string db' ≡ some json)
      × (disk'.files ≡ insert (file_path hex db') json disk.files)
      × Extends hex db db' s

  abbrev pub Saved : SlashingProtectionData → Statement → Disk → Outcome (Unit {0}) × Disk → Type 0
  Saved db s disk r = Failed disk r ⊎ Stored db s disk r

  restate :
      {db : SlashingProtectionData} {s t : Statement} (disk : Disk) (r : Outcome (Unit {0}) × Disk)
      → s ≡ t
      → Failed disk r ⊎ Stored db s disk r
      → Failed disk r ⊎ Stored db t disk r
  restate {db} disk r e h = subst (λ s. Saved db s disk r) e h

  save_block_cases :
      (db : SlashingProtectionData) (b : SignedBlockSlot) (disk : Disk)
      → Failed disk (save_block hex serde db b disk)
        ⊎ Stored db (proposal b.slot) disk (save_block hex serde db b disk)
  unfolding save_block
  save_block_cases db b disk = elim (new_block_cases db b allow_growable_slash_protection_db) [
    | inl (_, refused) ↦ inl (slashable_block, disk, ground (arith, refused), refl)
    | inr (_, (db', accepted, r)) ↦ elim (write_cases hex serde db' disk) [
      | inl (e, disk', failed, same) ↦ inl (e, disk', ground (arith, accepted, failed), same)
      | inr (json, disk', wrote, text, files) ↦ inr (
        db',
        json,
        disk',
        ground (arith, accepted, wrote),
        text,
        files,
        RecordsBlock-Extends hex r,
      )
    ]
  ]

  save_attestation_cases :
      (db : SlashingProtectionData) (a : SignedAttestationEpochs) (disk : Disk)
      → Failed disk (save_attestation hex serde db a disk)
        ⊎ Stored db (vote a.source_epoch a.target_epoch) disk (save_attestation hex serde db a disk)
  unfolding save_attestation
  save_attestation_cases db a disk =
      elim (new_attestation_cases db a allow_growable_slash_protection_db) [
        | inl (_, refused) ↦ inl (slashable_attestation, disk, ground (arith, refused), refl)
        | inr (_, (db', accepted, r)) ↦ elim (write_cases hex serde db' disk) [
          | inl (e, disk', failed, same) ↦ inl (e, disk', ground (arith, accepted, failed), same)
          | inr (json, disk', wrote, text, files) ↦ inr (
            db',
            json,
            disk',
            ground (arith, accepted, wrote),
            text,
            files,
            RecordsAttestation-Extends hex r,
          )
        ]
      ]

  -- For a message that states something, the arm of the update fails or stores the statement.
  pub save_cases :
      (db : SlashingProtectionData) (m : BlsSignMsg) (root : Root) (disk : Disk) {s : Statement}
      → statement_of m ≡ some s
      → Failed disk (save hex serde db m root disk)
        ⊎ Stored db s disk (save hex serde db m root disk)
  unfolding statement_of save
  save_cases db (block_upper m) root disk h =
      restate disk (save hex serde db (block_upper m) root disk) (some_inj h)
        (save_block_cases db (record { slot = m.block.slot; signing_root = some root }) disk)
  save_cases db (block m) root disk h =
      restate disk (save hex serde db (block m) root disk) (some_inj h)
        (save_block_cases db (record { slot = m.block.slot; signing_root = some root }) disk)
  save_cases db (block_v2_upper m) root disk h =
      restate disk (save hex serde db (block_v2_upper m) root disk) (some_inj h) (
        save_block_cases db
          (record { slot = m.beacon_block.block_header.slot; signing_root = some root }) disk)
  save_cases db (block_v2 m) root disk h =
      restate disk (save hex serde db (block_v2 m) root disk) (some_inj h) (
        save_block_cases db
          (record { slot = m.beacon_block.block_header.slot; signing_root = some root }) disk)
  save_cases db (attestation_upper m) root disk h =
      restate disk (save hex serde db (attestation_upper m) root disk) (some_inj h) (
        save_attestation_cases db
          (record {
            source_epoch = m.attestation.source.epoch;
            target_epoch = m.attestation.target.epoch;
            signing_root = some root;
          })
          disk)
  save_cases db (attestation m) root disk h =
      restate disk (save hex serde db (attestation m) root disk) (some_inj h) (
        save_attestation_cases db
          (record {
            source_epoch = m.attestation.source.epoch;
            target_epoch = m.attestation.target.epoch;
            signing_root = some root;
          })
          disk)
  save_cases db _ root disk h = cc

-- Every file that a key is read from is the file that its record is written to.
abbrev pub WellNamed : Hex → Serde → Files → Type 0
WellNamed hex serde files =
    (k : Text) (d : SlashingProtectionData)
    → recorded serde files k ≡ some d
    → file_path hex d ≡ path_of k

-- No record falls back.
abbrev pub Grows : Serde → Files → Files → Type 0
Grows serde files files' =
    (k : Text) → LevelLe (level_of (recorded serde files k)) (level_of (recorded serde files' k))

module _ (hex : Hex) (serde : Serde) (is_serde : IsSerde serde) where
  -- What an update has done, if it was for the key `k` and the statement `s`.
  pub record Recorded (k : Text) (s : Statement) (files files' : Files) : Type 0 where
    pub above : IsAbove (level_of (recorded serde files k)) s
    pub covers : Covers (level_of (recorded serde files' k)) s
    pub grows : Grows serde files files'
    pub well_named : WellNamed hex serde files'

  recorded_path :
      (files : Files) (k j : Text)
      → path_of k ≡ path_of j
      → recorded serde files k ≡ recorded serde files j
  unfolding recorded
  recorded_path files k j e = ground arith

  module _ (files : Files) (k : Text) (db db' : SlashingProtectionData) (s : Statement)
      (json : Text) (named : WellNamed hex serde files) (found : recorded serde files k ≡ some db)
      (text : serde.to_string db' ≡ some json) (ext : Extends hex db db' s) where
    abbrev after : Files
    after = insert (file_path hex db') json files

    written_path : file_path hex db' ≡ path_of k
    written_path = ext.same_path ∙ named k db found

    -- a key that is read from the written path
    recorded_written :
        (j : Text)
        → text_eq (file_path hex db') (path_of j) ≡ true
        → recorded serde after j ≡ some db'
    recorded_written j same =
        rw (recorded-insert serde is_serde (file_path hex db') db' json files j text, same)

    recorded_other :
        (j : Text)
        → text_eq (file_path hex db') (path_of j) ≡ false
        → recorded serde after j ≡ recorded serde files j
    recorded_other j other =
        rw (recorded-insert serde is_serde (file_path hex db') db' json files j text, other)

    recorded_before :
        (j : Text)
        → text_eq (file_path hex db') (path_of j) ≡ true
        → recorded serde files j ≡ some db
    recorded_before j same =
        recorded_path files j k (sym ((text_eq_iff _ _).0 same) ∙ written_path) ∙ found

    after-Grows : Grows serde files after
    after-Grows j = elim (Bool-cases (text_eq (file_path hex db') (path_of j))) [
      | inl same ↦ rw (recorded_before j same, recorded_written j same) (ext.grows)
      | inr other ↦ rw (recorded_other j other) (LevelLe-refl _)
    ]

    after-WellNamed : WellNamed hex serde after
    after-WellNamed j d h = elim (Bool-cases (text_eq (file_path hex db') (path_of j))) [
      | inl same ↦ rw (← some_inj (sym (recorded_written j same) ∙ h)) ((text_eq_iff _ _).0 same)
      | inr other ↦ named j d (sym (recorded_other j other) ∙ h)
    ]

    Extends-Recorded : Recorded k s files after
    Extends-Recorded = record {
      above = rw found (ext.above);
      covers = rw (recorded_written k ((text_eq_iff _ _).1 written_path)) (ext.covers);
      grows = after-Grows;
      well_named = after-WellNamed;
    }

  -- The update for a message that states something, where every record stands in the file of its
  -- own key, fails and leaves all records as they are, or it takes the statement, which lay beyond
  -- the record of its key, into that record, and no record falls back.
  pub update_cases :
      (tree : TreeHash) (k : Text) (m : BlsSignMsg) (disk : Disk) {s : Statement}
      → statement_of m ≡ some s
      → WellNamed hex serde disk.files
      → Failed hex serde disk (update_slash_protection_db hex serde tree k m disk)
        ⊎ ((disk' : Disk) × (update_slash_protection_db hex serde tree k m disk ≡ (ok tt, disk'))
            × Recorded k s disk.files disk'.files)
  unfolding update_slash_protection_db
  update_cases tree k m disk {s} states named = elim (read_cases serde k disk) [
    | inl (_, (e, unread)) ↦ inl (e, disk, ground (arith, unread), refl)
    | inr (db, found, was_read) ↦
        elim (save_cases hex serde db m (to_signing_root tree m none) disk states) [
          | inl (e, disk', failed, same) ↦ inl (e, disk', ground (arith, was_read, failed), same)
          | inr (db', json, disk', done, text, files, ext) ↦ inr (
            disk',
            ground (arith, was_read, done),
            rw files (Extends-Recorded disk.files k db db' s json named found text ext),
          )
        ]
  ]
