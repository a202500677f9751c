-- ===== src/Io/KeyManagement/Keystores.antt =====
-- src/io/key_management.rs: keys in encrypted keystores.
use validator_guardian.Prelude.{ℕ}
use validator_guardian.Text.{Text, Bytes, strip_0x_prefix}
use validator_guardian.Disk.{Exec, ◌>>◌, join, create_dir_all}
use validator_guardian.Constants.{bls_keys_dir}
use validator_guardian.External.Keystore.{Keystore}

module _ (keystore : Keystore) where
  unfoldable pub write_bls_keystore : Text → Bytes → Text → ℕ → Exec Text
  write_bls_keystore pk_hex sk password entropy = do
    create_dir_all bls_keys_dir
    keystore.encrypt_key bls_keys_dir entropy sk password (strip_0x_prefix pk_hex)

  unfoldable pub read_bls_keystore : Text → Text → Exec Bytes
  read_bls_keystore pk_hex password =
      keystore.decrypt_key (join bls_keys_dir (strip_0x_prefix pk_hex)) password
