-- ===== src/Enclave/Shared/Records.antt =====
-- The slashing protection files as a map from keys to records, and what reading and writing a
-- record do to it.
use validator_guardian.Prelude.{
  ◌≡◌, refl, ◌⊎◌, inl, inr, Option, none, some, arith, if◌then◌else◌, Bool-cases, Option-cases,
}
use validator_guardian.Text.{Text, text_eq, strip_0x_prefix}
use validator_guardian.Outcome.{Error, ok, err, io_failure, serialization, deserialization}
use validator_guardian.Disk.{Files, Disk, lookup, insert, lookup-insert, join, parent, read_file}
use validator_guardian.Disk.Laws.{
  with_dir, with_file, create_dir_all_denied, create_dir_all_allowed, write_file_denied,
  write_file_allowed,
}
use validator_guardian.Constants.{slashing_protection_dir}
use validator_guardian.External.Hex.{Hex}
use validator_guardian.Eth2.SlashProtection.{SlashingProtectionData}
use validator_guardian.Eth2.SlashProtection.Storage.{Serde, file_path, write, read}

-- What is serialised is read back.
pub record IsSerde (serde : Serde) : Type 0 where
  pub from_slice-to_string :
      (d : SlashingProtectionData) (t : Text)
      → serde.to_string d ≡ some t
      → serde.from_slice t ≡ some d

-- The path of the file that is read for a key.
abbrev pub path_of : Text → Text
path_of pk_hex = join slashing_protection_dir (strip_0x_prefix pk_hex)

-- The record of a key, if its file is there and parses.
unfoldable pub recorded : Serde → Files → Text → Option SlashingProtectionData
recorded serde files pk_hex = elim (lookup (path_of pk_hex) files) [
  | none ↦ none
  | some c ↦ serde.from_slice c
]

pub read_cases :
    (serde : Serde) (pk_hex : Text) (disk : Disk)
    → (recorded serde disk.files pk_hex ≡ none)
        × ((e : Error) × (read serde pk_hex disk ≡ (err e, disk)))
      ⊎ ((db : SlashingProtectionData) × (recorded serde disk.files pk_hex ≡ some db)
          × (read serde pk_hex disk ≡ (ok db, disk)))
unfolding recorded read read_file
read_cases serde pk_hex disk = elim (Option-cases (lookup (path_of pk_hex) disk.files)) [
  | inl missing ↦ inl (ground arith, (io_failure, ground arith))
  | inr (c, found) ↦ elim (Option-cases (serde.from_slice c)) [
    | inl bad ↦ inl (ground arith, (deserialization, ground arith))
    | inr (db, parsed) ↦ inr (db, ground arith, ground arith)
  ]
]

-- A write fails and leaves the files alone, or puts the text of the record at its path.
pub write_cases :
    (hex : Hex) (serde : Serde) (d : SlashingProtectionData) (disk : Disk)
    → ((e : Error) × (disk' : Disk) × (write hex serde d disk ≡ (err e, disk'))
        × (disk'.files ≡ disk.files))
      ⊎ ((json : Text) × (disk' : Disk) × (write hex serde d disk ≡ (ok tt, disk'))
          × (serde.to_string d ≡ some json)
          × (disk'.files ≡ insert (file_path hex d) json disk.files))
unfolding write
write_cases hex serde d disk =
    let path = file_path hex d in
    let made = with_dir disk (parent path) in
    elim (Bool-cases (disk.denied (parent path))) [
      | inl no_dir ↦
          inl (
            io_failure,
            disk,
            ground (arith, create_dir_all_denied disk (parent path) no_dir),
            refl,
          )
      | inr dir ↦
          let first = create_dir_all_allowed disk (parent path) dir in
          elim (Option-cases (serde.to_string d)) [
            | inl bad ↦ inl (serialization, made, ground (arith, first), refl)
            | inr (json, text) ↦ elim (Bool-cases (disk.denied path)) [
              | inl refused ↦ inl (
                io_failure,
                made,
                ground (arith, first, write_file_denied made path json refused),
                refl,
              )
              | inr allowed ↦ inr (
                json,
                with_file made path json,
                ground (arith, first, write_file_allowed made path json allowed),
                text,
                refl,
              )
            ]
          ]
    ]

module _ (serde : Serde) (is_serde : IsSerde serde) where
  -- The map after the text of a record was put at a path.
  pub recorded-insert :
      (path : Text) (d : SlashingProtectionData) (json : Text) (files : Files) (k : Text)
      → serde.to_string d ≡ some json
      → recorded serde (insert path json files) k
        ≡ (if text_eq path (path_of k) then some d else recorded serde files k)
  unfolding recorded
  recorded-insert path d json files k text =
      ground (
        arith,
        lookup-insert path (path_of k) json files,
        is_serde.from_slice-to_string d json text,
      )
