-- ===== src/Eth2/SlashProtection/Storage.antt =====
-- src/eth2/slash_protection.rs: the record of a key in its file.
use validator_guardian.Prelude.{Option}
use validator_guardian.Text.{Text, Bytes, strip_0x_prefix}
use validator_guardian.Outcome.{or_err, serialization, deserialization}
use validator_guardian.Disk.{
  Exec, ◌>>=◌, ◌>>◌, lift, join, parent, create_dir_all, write_file, read_file,
}
use validator_guardian.Constants.{slashing_protection_dir}
use validator_guardian.External.Hex.{Hex}
use validator_guardian.Eth2.SlashProtection.{SlashingProtectionData}

-- `serde_json::to_string` and `serde_json::from_slice` at this type, by its derived and its custom
-- (de)serialisers
pub record Serde : Type 0 where
  pub to_string : SlashingProtectionData → Option Text
  pub from_slice : Bytes → Option SlashingProtectionData

-- `as_ssz_bytes` of a `FixedVector<u8, N>` is its bytes
unfoldable pub file_path : Hex → SlashingProtectionData → Text
file_path hex d = join slashing_protection_dir (hex.encode d.pubkey)

module _ (hex : Hex) (serde : Serde) where
  unfoldable pub write : SlashingProtectionData → Exec Unit
  write d = do
    create_dir_all (parent (file_path hex d))
    json ← lift (or_err (serde.to_string d) serialization)
    write_file (file_path hex d) json

module _ (serde : Serde) where
  unfoldable pub read : Text → Exec SlashingProtectionData
  read pk_hex = do
    json_vec ← read_file (join slashing_protection_dir (strip_0x_prefix pk_hex))
    lift (or_err (serde.from_slice json_vec) deserialization)
