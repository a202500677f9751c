-- ===== src/External/Keystore.antt =====
-- The crate `eth_keystore`: encrypted key files. `none` is an `Err`.
use validator_guardian.Prelude.{ℕ, ◌≡◌, Option}
use validator_guardian.Text.{Text, Bytes}
use validator_guardian.Outcome.{ok}
use validator_guardian.Disk.{Disk, Exec, join}

-- `encrypt_key` has the directory, what the random number generator yields, the key, the password
-- and the file name, and returns the identifier of the keystore. `decrypt_key` has the path and the
-- password.
pub record Keystore : Type 0 where
  pub encrypt_key : Text → ℕ → Bytes → Text → Text → Exec Text
  pub decrypt_key : Text → Text → Exec Bytes
  pub decrypt_keystore : Text → Text → Option Bytes

-- A keystore that was written opens under its password.
pub record IsKeystore (keystore : Keystore) : Type 0 where
  pub decrypt_key-encrypt_key :
      (dir : Text) (entropy : ℕ) (sk : Bytes) (password name uuid : Text) (disk disk' : Disk)
      → keystore.encrypt_key dir entropy sk password name disk ≡ (ok uuid, disk')
      → keystore.decrypt_key (join dir name) password disk' ≡ (ok sk, disk')
