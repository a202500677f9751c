-- ===== src/Crypto/Keystore.antt =====
-- src/crypto/keystore.rs: a keystore whose password comes encrypted.
use validator_guardian.Prelude.{not}
use validator_guardian.Text.{Text, Bytes, strip_0x_prefix}
use validator_guardian.Text.Utf8.{is_utf8}
use validator_guardian.Outcome.{
  Outcome, or_err, ◌>>=◌, bail_if, invalid_hex, invalid_utf8, decryption_failure,
}
use validator_guardian.External.Hex.{Hex}
use validator_guardian.External.Secp.{Secp}
use validator_guardian.External.Keystore.{Keystore}
use validator_guardian.Crypto.EthKeys.{envelope_decrypt}

module _ (hex : Hex) (secp : Secp) (eth_keystore : Keystore) where
  unfoldable pub import_keystore : Text → Text → secp.SecretKey → Outcome Bytes
  import_keystore keystore ct_password_hex envelope_sk = do
    ct_password_bytes ← or_err (hex.decode (strip_0x_prefix ct_password_hex)) invalid_hex
    password ← envelope_decrypt secp envelope_sk ct_password_bytes
    _ ← bail_if (not (is_utf8 password)) invalid_utf8
    or_err (eth_keystore.decrypt_keystore keystore password) decryption_failure
