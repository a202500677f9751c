-- ===== src/External/Hex.antt =====
-- The crate `hex`.
use validator_guardian.Prelude.{◌*◌, ◌<◌, ◌≤◌, ◌≡◌, ◌⊎◌, Option, some, [], ◌∷◌, length, All}
use validator_guardian.Text.{Bytes, Text, strip_0x_prefix}

-- `hex::encode` and `hex::decode`; `none` is a `FromHexError`
pub record Hex : Type 0 where
  pub encode : Bytes → Text
  pub decode : Text → Option Bytes

-- what a `Vec<u8>` holds
abbrev pub IsBytes : Bytes → Type 0
IsBytes [] = Unit
IsBytes (b ∷ bs) = (b < 256) × IsBytes bs

-- Encoding writes two lower-case digits for each byte, and decoding reads them back.
pub record IsHex (hex : Hex) : Type 0 where
  pub decode-encode : (b : Bytes) → IsBytes b → hex.decode (hex.encode b) ≡ some b
  pub length-encode : (b : Bytes) → length (hex.encode b) ≡ 2 * length b
  pub strip_0x_prefix-encode : (b : Bytes) → strip_0x_prefix (hex.encode b) ≡ hex.encode b

-- The digits are 0 to 9 and a to f.
pub record IsHexText (hex : Hex) : Type 0 where
  pub encode-digits : (b : Bytes) → All (λ c. (48 ≤ c × c ≤ 57) ⊎ (97 ≤ c × c ≤ 102)) (hex.encode b)
