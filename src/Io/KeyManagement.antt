-- ===== src/Io/KeyManagement.antt =====
-- src/io/key_management.rs: keys as hex files, one directory for each kind of key.
pub mod Laws
pub mod Keystores
use validator_guardian.Prelude.{Bool, Option, none, some, List, [], ◌∷◌, if◌then◌else◌}
use validator_guardian.Text.{Text, Bytes, strip_0x_prefix}
use validator_guardian.Outcome
use validator_guardian.Outcome.{Outcome, ok, err, or_err, invalid_hex, invalid_utf8, io_failure}
use validator_guardian.Text.Utf8.{is_utf8}
use validator_guardian.Disk.{
  Disk, Exec, ◌>>=◌, ◌>>◌, lift, join, parent, create_dir_all, write_file, read_file, remove_file,
  read_dir, ◌>>=◌, lift,
}
use validator_guardian.Disk.Resolve.{exists}
use validator_guardian.Constants.{bls_keys_dir, eth_keys_dir}
use validator_guardian.External.Hex.{Hex}

unfoldable pub write_key : Text → Text → Exec Unit
write_key file_path sk_hex = do create_dir_all (parent file_path); write_file file_path sk_hex

unfoldable pub write_eth_key : Text → Text → Exec Unit
write_eth_key pk_hex sk_hex =
    write_key (join eth_keys_dir (strip_0x_prefix pk_hex)) (strip_0x_prefix sk_hex)

unfoldable pub write_bls_key : Text → Text → Exec Unit
write_bls_key pk_hex sk_hex =
    write_key (join bls_keys_dir (strip_0x_prefix pk_hex)) (strip_0x_prefix sk_hex)

module _ (hex : Hex) where
  unfoldable pub read_key : Text → Exec Bytes
  read_key file_path = do
    sk_rec_bytes ← read_file file_path
    lift (or_err (hex.decode sk_rec_bytes) invalid_hex)

  unfoldable pub read_eth_key : Text → Exec Bytes
  read_eth_key pk_hex = read_key (join eth_keys_dir (strip_0x_prefix pk_hex))

  unfoldable pub read_bls_key : Text → Exec Bytes
  read_bls_key pk_hex = read_key (join bls_keys_dir (strip_0x_prefix pk_hex))

unfoldable pub delete_key : Text → Exec Unit
delete_key file_path = remove_file file_path

unfoldable pub delete_eth_key : Text → Exec Unit
delete_eth_key pk_hex = delete_key (join eth_keys_dir (strip_0x_prefix pk_hex))

unfoldable pub delete_bls_key : Text → Exec Unit
delete_bls_key pk_hex = delete_key (join bls_keys_dir (strip_0x_prefix pk_hex))

unfoldable pub key_exists : Text → Disk → Bool
key_exists file_path = exists file_path

unfoldable pub eth_key_exists : Text → Disk → Bool
eth_key_exists pk_hex = key_exists (join eth_keys_dir (strip_0x_prefix pk_hex))

unfoldable pub bls_key_exists : Text → Disk → Bool
bls_key_exists pk_hex = key_exists (join bls_keys_dir (strip_0x_prefix pk_hex))

-- the loop over the entries of the directory
unfoldable pub file_names : List (Option Text) → Outcome (List Text)
file_names [] = ok []
file_names (none ∷ paths) = err io_failure
file_names (some fname ∷ paths) =
    let rest = file_names paths in
    if is_utf8 fname then Outcome.◌>>=◌ rest (λ keys. ok (fname ∷ keys)) else err invalid_utf8

unfoldable pub list_fnames : Text → Exec (List Text)
list_fnames path_to_dir = do paths ← read_dir path_to_dir; lift (file_names paths)

unfoldable pub list_bls_keys : Exec (List Text)
list_bls_keys = list_fnames bls_keys_dir

unfoldable pub list_eth_keys : Exec (List Text)
list_eth_keys = list_fnames eth_keys_dir
