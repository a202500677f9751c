-- ===== src/Disk/Laws.antt =====
-- The file operations on the branches that they take.
use validator_guardian.Prelude.{◌≡◌, true, false, none, some, ◌∷◌, arith, inl, inr}
use validator_guardian.Text.{Text, Bytes}
use validator_guardian.Disk.{
  Exec, ◌>>=◌, Disk, lookup, insert, create_dir_all, write_file, read_file,
}
use validator_guardian.Outcome.{Outcome-cases, ok, err, io_failure}

-- a directory made
abbrev pub with_dir : Disk → Text → Disk
with_dir disk dir = record disk { dirs = dir ∷ disk.dirs }

-- a file written
abbrev pub with_file : Disk → Text → Bytes → Disk
with_file disk path c = record disk { files = insert path c disk.files }

module _ (disk : Disk) (path : Text) where
  pub create_dir_all_denied :
      disk.denied path ≡ true → create_dir_all path disk ≡ (err io_failure, disk)
  unfolding create_dir_all
  create_dir_all_denied h = rw h

  pub create_dir_all_allowed :
      disk.denied path ≡ false → create_dir_all path disk ≡ (ok tt, with_dir disk path)
  unfolding create_dir_all
  create_dir_all_allowed h = rw h

  pub write_file_denied :
      (c : Bytes) → disk.denied path ≡ true → write_file path c disk ≡ (err io_failure, disk)
  unfolding write_file
  write_file_denied c h = rw h

  pub write_file_allowed :
      (c : Bytes)
      → disk.denied path ≡ false
      → write_file path c disk ≡ (ok tt, with_file disk path c)
  unfolding write_file
  write_file_allowed c h = rw h

  pub read_file_missing :
      lookup path disk.files ≡ none → read_file path disk ≡ (err io_failure, disk)
  unfolding read_file
  read_file_missing h = ground arith

  pub read_file_found :
      {c : Bytes} → lookup path disk.files ≡ some c → read_file path disk ≡ (ok c, disk)
  unfolding read_file
  read_file_found h = ground arith

-- A chain of actions that succeeds has a first action that succeeds.
pub first_action_ok :
    {A B : Type 0} {b : B} {disk disk' : Disk} (next : A → Exec B) (first : Exec A)
    → (first >>= next) disk ≡ (ok b, disk')
    → (a : A) × (mid : Disk) × (next a mid ≡ (ok b, disk')) × (first disk ≡ (ok a, mid))
first_action_ok {disk} next first h = elim (Outcome-cases (first disk).0) [
  | inl (a, e) ↦ (a, (first disk).1, ground (arith, e, h), ground (arith, e))
  | inr (inl (x, e)) ↦ absurd (ground (arith, e, h))
  | inr (inr e) ↦ absurd (ground (arith, e, h))
]
