-- ===== src/Crypto/EthKeys.antt =====
-- src/crypto/eth_keys.rs: secp256k1 keys, kept as files under the hex of their compressed public
-- key.
pub mod Stored
use validator_guardian.Prelude.{ℕ, not, Bool, ◌==◌, length}
use validator_guardian.Text.{Text, Bytes, strip_0x_prefix}
use validator_guardian.Outcome
use validator_guardian.Outcome.{
  Outcome, ok, or_err, bail_if, invalid_hex, invalid_length, bad_key_bytes, encryption_failure,
  decryption_failure, signing_failure,
}
use validator_guardian.Disk.{Exec, ◌>>=◌, lift, pure}
use validator_guardian.Constants.{eth_compressed_pk_bytes, eth_uncompressed_pk_bytes}
use validator_guardian.External.Hex.{Hex}
use validator_guardian.External.Secp.{Secp}
use validator_guardian.Io.KeyManagement.{write_eth_key, read_eth_key}

module _ (secp : Secp) where
  open secp use {
    SecretKey, PublicKey, Signature, Message, parse_secret_key, serialize_secret_key, serialize,
    parse_message, parse_signature, sign, verify, encrypt, decrypt, keccak256,
  }

  unfoldable pub eth_sk_from_bytes : Bytes → Outcome SecretKey
  eth_sk_from_bytes sk = or_err (parse_secret_key sk) bad_key_bytes

  unfoldable pub sign_message : Bytes → SecretKey → Outcome (Signature × Message)
  sign_message message secret_key =
      Outcome.◌>>=◌ (or_err (parse_message (keccak256 message)) signing_failure)
        λ digest. ok (sign digest secret_key, digest)

  unfoldable pub verify_message : Bytes → Bytes → PublicKey → Outcome Bool
  verify_message message signature public_key =
      Outcome.◌>>=◌ (or_err (parse_message (keccak256 message)) signing_failure) λ digest.
        Outcome.◌>>=◌ (or_err (parse_signature signature) signing_failure)
          λ sig. ok (verify digest sig public_key)

  unfoldable pub envelope_encrypt : PublicKey → Bytes → ℕ → Outcome Bytes
  envelope_encrypt public_key message entropy =
      or_err (encrypt (serialize public_key) message entropy) encryption_failure

  unfoldable pub envelope_decrypt : SecretKey → Bytes → Outcome Bytes
  envelope_decrypt secret_key encrypted_message =
      or_err (decrypt (serialize_secret_key secret_key) encrypted_message) decryption_failure

module _ (hex : Hex) (secp : Secp) where
  open secp use {
    SecretKey, PublicKey, generate_keypair, serialize_secret_key, serialize, serialize_compressed,
    parse, parse_compressed,
  }

  unfoldable pub eth_sk_to_hex : SecretKey → Text
  eth_sk_to_hex sk = strip_0x_prefix (hex.encode (serialize_secret_key sk))

  unfoldable pub eth_pk_to_hex : PublicKey → Text
  eth_pk_to_hex pk = strip_0x_prefix (hex.encode (serialize_compressed pk))

  unfoldable pub eth_pk_to_hex_uncompressed : PublicKey → Text
  eth_pk_to_hex_uncompressed pk = strip_0x_prefix (hex.encode (serialize pk))

  unfoldable pub eth_pk_from_hex : Text → Outcome PublicKey
  eth_pk_from_hex pk_hex =
      Outcome.◌>>=◌ (or_err (hex.decode (strip_0x_prefix pk_hex)) invalid_hex) λ pk_bytes.
        Outcome.◌>>=◌ (bail_if (not (length pk_bytes == eth_compressed_pk_bytes)) invalid_length)
          λ _. or_err (parse_compressed pk_bytes) bad_key_bytes

  unfoldable pub eth_pk_from_hex_uncompressed : Text → Outcome PublicKey
  eth_pk_from_hex_uncompressed pk_hex =
      Outcome.◌>>=◌ (or_err (hex.decode (strip_0x_prefix pk_hex)) invalid_hex) λ pk_bytes.
        Outcome.◌>>=◌ (bail_if (not (length pk_bytes == eth_uncompressed_pk_bytes)) invalid_length)
          λ _. or_err (parse pk_bytes) bad_key_bytes

  unfoldable pub save_eth_key : SecretKey → PublicKey → Exec PublicKey
  save_eth_key sk pk = do _ ← write_eth_key (eth_pk_to_hex pk) (eth_sk_to_hex sk); pure pk

  -- `new_eth_key` is `generate_keypair`
  unfoldable pub eth_key_gen : ℕ → Exec PublicKey
  eth_key_gen entropy = let pair = generate_keypair entropy in save_eth_key pair.0 pair.1

  unfoldable pub fetch_eth_key : Text → Exec SecretKey
  fetch_eth_key pk_hex = do
    sk_bytes ← read_eth_key hex (strip_0x_prefix pk_hex)
    lift (eth_sk_from_bytes secp sk_bytes)

  unfoldable pub envelope_decrypt_from_saved_sk : Text → Bytes → Exec Bytes
  envelope_decrypt_from_saved_sk eth_pk_hex encrypted_message = do
    secret_key ← fetch_eth_key eth_pk_hex
    lift (envelope_decrypt secp secret_key encrypted_message)
