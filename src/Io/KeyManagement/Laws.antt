-- ===== src/Io/KeyManagement/Laws.antt =====
-- src/io/key_management.rs: reading and writing a key file.
use validator_guardian.Prelude.{
  ◌≡◌, refl, ◌⊎◌, inl, inr, Option, none, some, arith, Bool-cases, Option-cases, if◌then◌else◌,
}
use validator_guardian.Text.{Text, Bytes, text_eq, strip_0x_prefix}
use validator_guardian.Outcome.{Error, ok, err, io_failure, invalid_hex}
use validator_guardian.Disk.{Files, Disk, lookup, insert, lookup-insert, parent}
use validator_guardian.Disk.Laws.{
  with_dir, with_file, create_dir_all_denied, create_dir_all_allowed, write_file_denied,
  write_file_allowed, read_file_missing, read_file_found,
}
use validator_guardian.External.Hex.{Hex, IsHex, IsBytes}
use validator_guardian.Io.KeyManagement.{write_key, read_key}

-- A write fails and leaves the files alone, or puts the text at its path.
pub write_key_cases :
    (path text : Text) (disk : Disk)
    → ((e : Error) × (disk' : Disk) × (write_key path text disk ≡ (err e, disk'))
        × (disk'.files ≡ disk.files))
      ⊎ ((disk' : Disk) × (write_key path text disk ≡ (ok tt, disk'))
          × (disk'.files ≡ insert path text disk.files))
unfolding write_key
write_key_cases path text disk =
    let made = with_dir disk (parent path) in
    elim (Bool-cases (disk.denied (parent path))) [
      | inl no_dir ↦
          inl (
            io_failure,
            disk,
            ground (arith, create_dir_all_denied disk (parent path) no_dir),
            refl,
          )
      | inr dir ↦
          let first = create_dir_all_allowed disk (parent path) dir in
          elim (Bool-cases (disk.denied path)) [
            | inl refused ↦ inl (
              io_failure,
              made,
              ground (arith, first, write_file_denied made path text refused),
              refl,
            )
            | inr allowed ↦ inr (
              with_file made path text,
              ground (arith, first, write_file_allowed made path text allowed),
              refl,
            )
          ]
    ]

module _ (hex : Hex) where
  -- the bytes of the key file at a path
  unfoldable pub key_bytes : Files → Text → Option Bytes
  key_bytes files path = elim (lookup path files) [ none ↦ none | some c ↦ hex.decode c ]

  pub read_key_cases :
      (path : Text) (disk : Disk)
      → (key_bytes disk.files path ≡ none)
          × ((e : Error) × (read_key hex path disk ≡ (err e, disk)))
        ⊎ ((b : Bytes) × (key_bytes disk.files path ≡ some b)
            × (read_key hex path disk ≡ (ok b, disk)))
  unfolding key_bytes read_key
  read_key_cases path disk = elim (Option-cases (lookup path disk.files)) [
    | inl missing ↦
        inl (ground arith, (io_failure, ground (arith, read_file_missing disk path missing)))
    | inr (c, found) ↦ elim (Option-cases (hex.decode c)) [
      | inl bad ↦ inl (ground arith, (invalid_hex, ground (arith, read_file_found disk path found)))
      | inr (b, decoded) ↦ inr (b, ground arith, ground (arith, read_file_found disk path found))
    ]
  ]

  -- A key file that holds the hex of some bytes yields those bytes, and the others stay.
  pub key_bytes-insert :
      IsHex hex
      → (path q : Text) (b : Bytes) (files : Files) → IsBytes b
      → key_bytes (insert path (strip_0x_prefix (hex.encode b)) files) q
        ≡ (if text_eq path q then some b else key_bytes files q)
  unfolding key_bytes
  key_bytes-insert is_hex path q b files h = ground (
    arith,
    lookup-insert path q (strip_0x_prefix (hex.encode b)) files,
    is_hex.strip_0x_prefix-encode b,
    is_hex.decode-encode b h,
  )
