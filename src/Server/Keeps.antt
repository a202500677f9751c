-- ===== src/Server/Keeps.antt =====
-- src/io/key_management.rs and src/eth2/slash_protection.rs: what the writes of a server do to the
-- records of all keys.
use validator_guardian.Prelude.{
  ◌≡◌, sym, ◌∙◌, subst, inl, inr, arith, none, some, some_inj, Bool-cases,
}
use validator_guardian.Text.{Text, text_eq, text_eq_iff}
use validator_guardian.Disk.{Files, insert}
use validator_guardian.External.Hex.{Hex}
use validator_guardian.Eth2.SlashProtection.{SlashingProtectionData}
use validator_guardian.Eth2.SlashProtection.Storage.{Serde, file_path}
use validator_guardian.Enclave.Shared.Records.{IsSerde, recorded, path_of, recorded-insert}
use validator_guardian.Enclave.Shared.Levels.{LevelLe-refl, LevelLe-trans, level_of}
use validator_guardian.Enclave.Shared.Update.{WellNamed, Grows}

module _ (hex : Hex) (serde : Serde) where
  -- No record falls back, and every record stands in the file of its own key.
  pub record Keeps (files files' : Files) : Type 0 where
    pub grows : Grows serde files files'
    pub well_named : WellNamed hex serde files'

  -- The path of a record leads to no record yet.
  abbrev pub IsFresh : SlashingProtectionData → Files → Type 0
  IsFresh db files = (k : Text) → path_of k ≡ file_path hex db → recorded serde files k ≡ none

  pub Keeps-refl : (files : Files) → WellNamed hex serde files → Keeps files files
  Keeps-refl files named = record { grows = λ k. LevelLe-refl _; well_named = named }

  pub Keeps-trans : (a b c : Files) → Keeps a b → Keeps b c → Keeps a c
  Keeps-trans a b c h k = record {
    grows = λ key. LevelLe-trans (h.grows key) (k.grows key);
    well_named = k.well_named;
  }

  -- the same records in other files
  pub same_records-Keeps :
      (files files' : Files)
      → ((k : Text) → recorded serde files' k ≡ recorded serde files k)
      → WellNamed hex serde files
      → Keeps files files'
  same_records-Keeps files files' same named = record {
    grows = λ k. rw (same k) (LevelLe-refl _);
    well_named = λ k d h. named k d (sym (same k) ∙ h);
  }

  module _ (is_serde : IsSerde serde) (db : SlashingProtectionData) (json : Text) (files : Files)
      (written : serde.to_string db ≡ some json) (fresh : IsFresh db files)
      (named : WellNamed hex serde files) where
    abbrev after : Files
    after = insert (file_path hex db) json files

    grows : Grows serde files after
    unfolding level_of
    grows k = elim (Bool-cases (text_eq (file_path hex db) (path_of k))) [
      | inl same ↦ rw (fresh k (sym ((text_eq_iff _ _).0 same))) (omega arith)
      | inr other ↦
          rw (recorded-insert serde is_serde (file_path hex db) db json files k written, other)
            (LevelLe-refl _)
    ]

    well_named : WellNamed hex serde after
    well_named k d h =
        let e = recorded-insert serde is_serde (file_path hex db) db json files k written in
        elim (Bool-cases (text_eq (file_path hex db) (path_of k))) [
          | inl same ↦
              let is_db : db ≡ d = some_inj (ground (arith, e, same, h)) in
              subst (λ x. file_path hex x ≡ path_of k) is_db ((text_eq_iff _ _).0 same)
          | inr other ↦ named k d (ground (arith, e, other, h))
        ]

    pub insert_record-Keeps : Keeps files after
    insert_record-Keeps = record { grows = grows; well_named = well_named }
