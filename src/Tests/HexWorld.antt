-- ===== src/Tests/HexWorld.antt =====
-- Hexadecimal text as the crate `hex` documents it.
use validator_guardian.Prelude.{
  ℕ, ◌+◌, ◌-◌, ◌*◌, ◌/◌, ◌%◌, ◌<◌, ◌≡◌, refl, ap, ◌&&◌, Option, none, some, [], ◌∷◌, arith, ltb,
  leb, if◌then◌else◌, length, ◌≤◌, ◌⊎◌, inl, inr, Bool-cases, All,
}
use validator_guardian.Text.{Bytes, Text, strip_0x_prefix}
use validator_guardian.External.Hex.{Hex, IsHex, IsHexText, IsBytes}

unfoldable pub digit : ℕ → ℕ
digit n = if ltb n 10 then n + 48 else n + 87

unfoldable pub value : ℕ → Option ℕ
value c =
    if leb 48 c && leb c 57
    then some (c - 48)
    else if leb 97 c && leb c 102
    then some (c - 87)
    else if leb 65 c && leb c 70
    then some (c - 55)
    else none

value-digit : (n : ℕ) → n < 16 → value (digit n) ≡ some n
unfolding value digit
value-digit n h = ground arith

unfoldable pub encode : Bytes → Text
encode [] = []
encode (b ∷ bs) = digit (b / 16 % 16) ∷ digit (b % 16) ∷ encode bs

-- one byte in front of what the rest decodes to
unfoldable pub byte_of : Option ℕ → Option ℕ → Option Bytes → Option Bytes
byte_of (some h) (some l) (some bs) = some ((h * 16 + l) ∷ bs)
byte_of _ _ _ = none

unfoldable pub decode : Text → Option Bytes
decode [] = some []
decode (c ∷ []) = none
decode (c ∷ d ∷ t) = byte_of (value c) (value d) (decode t)

decode-encode : (b : Bytes) → IsBytes b → decode (encode b) ≡ some b
unfolding decode encode
decode-encode [] h = refl
decode-encode (b ∷ bs) h =
    rw
      (
        value-digit (b / 16 % 16) (omega arith),
        value-digit (b % 16) (omega arith),
        decode-encode bs h.1,
      )
      (unfold byte_of in ap (λ n. some (n ∷ bs)) (byte_split b h.0))
  where
    byte_split : (n : ℕ) → n < 256 → n / 16 % 16 * 16 + n % 16 ≡ n
    byte_split n h = omega arith

length-encode : (b : Bytes) → length (encode b) ≡ 2 * length b
unfolding encode
length-encode [] = refl
length-encode (b ∷ bs) = omega (arith, length-encode bs)

strip_0x_prefix-encode : (b : Bytes) → strip_0x_prefix (encode b) ≡ encode b
unfolding encode strip_0x_prefix digit
strip_0x_prefix-encode [] = refl
strip_0x_prefix-encode (b ∷ bs) = ground arith

abbrev pub hex_world : Hex
hex_world = record { encode = encode; decode = decode }

pub hex_world-IsHex : IsHex hex_world
hex_world-IsHex = record {
  decode-encode = decode-encode;
  length-encode = length-encode;
  strip_0x_prefix-encode = strip_0x_prefix-encode;
}

digit-digits : (n : ℕ) → n < 16 → ((48 ≤ digit n × digit n ≤ 57) ⊎ (97 ≤ digit n × digit n ≤ 102))
unfolding digit
digit-digits n h = elim (Bool-cases (ltb n 10)) [
  | inl small ↦ inl (ground arith)
  | inr large ↦ inr (ground arith)
]

encode-digits : (b : Bytes) → All (λ c. (48 ≤ c × c ≤ 57) ⊎ (97 ≤ c × c ≤ 102)) (encode b)
unfolding encode
encode-digits [] = tt
encode-digits (b ∷ bs) = (
  digit-digits (b / 16 % 16) (omega arith),
  (digit-digits (b % 16) (omega arith), encode-digits bs),
)

pub hex_world-IsHexText : IsHexText hex_world
hex_world-IsHexText = record { encode-digits = encode-digits }
