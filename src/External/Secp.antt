-- ===== src/External/Secp.antt =====
-- The crates `ecies`, `libsecp256k1` and `sha3`: keys and signatures over secp256k1, envelope
-- encryption, and Keccak-256.
use validator_guardian.Prelude.{ℕ, ◌≡◌, Bool, Option, some, length}
use validator_guardian.Text.{Bytes}
use validator_guardian.External.Hex.{IsBytes}

-- `none` is an `Err`. The last argument of `generate_keypair` and of `encrypt` is what the random
-- number generator yields.
pub record Secp : Type 1 where
  pub SecretKey : Type 0
  pub PublicKey : Type 0
  pub Signature : Type 0
  pub Message : Type 0
  pub generate_keypair : ℕ → SecretKey × PublicKey
  pub serialize_secret_key : SecretKey → Bytes
  pub serialize : PublicKey → Bytes
  pub serialize_compressed : PublicKey → Bytes
  pub parse : Bytes → Option PublicKey
  pub parse_compressed : Bytes → Option PublicKey
  pub parse_secret_key : Bytes → Option SecretKey
  pub parse_message : Bytes → Option Message
  pub parse_signature : Bytes → Option Signature
  pub sign : Message → SecretKey → Signature
  pub verify : Message → Signature → PublicKey → Bool
  pub encrypt : Bytes → Bytes → ℕ → Option Bytes
  pub decrypt : Bytes → Bytes → Option Bytes
  pub keccak256 : Bytes → Bytes

-- Serialised keys are byte strings of fixed lengths, which parse back to the key.
pub record IsSecp (secp : Secp) : Type 0 where
  pub parse-serialize : (k : secp.PublicKey) → secp.parse (secp.serialize k) ≡ some k
  pub parse_compressed-serialize_compressed :
      (k : secp.PublicKey) → secp.parse_compressed (secp.serialize_compressed k) ≡ some k
  pub parse-serialize_secret_key :
      (k : secp.SecretKey) → secp.parse_secret_key (secp.serialize_secret_key k) ≡ some k
  pub length-serialize : (k : secp.PublicKey) → length (secp.serialize k) ≡ 65
  pub length-serialize_compressed : (k : secp.PublicKey) → length (secp.serialize_compressed k) ≡ 33
  pub serialize-IsBytes : (k : secp.PublicKey) → IsBytes (secp.serialize k)
  pub serialize_compressed-IsBytes : (k : secp.PublicKey) → IsBytes (secp.serialize_compressed k)
  pub serialize_secret_key-IsBytes : (k : secp.SecretKey) → IsBytes (secp.serialize_secret_key k)
