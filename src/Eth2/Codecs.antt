-- ===== src/Eth2/Codecs.antt =====
-- src/eth2/eth_types.rs: the custom (de)serialisers of fields, from the string that the JSON holds
-- and to it.
pub mod Decimals
pub mod Hexes
use validator_guardian.Prelude.{
  ℕ, zero, suc, ◌+◌, ◌*◌, ◌/◌, ◌%◌, ◌≡◌, not, Option, none, some, List, [], ◌∷◌, ◌++◌, ◌==◌, leb,
  length, map, if◌then◌else◌,
}
use validator_guardian.Text.{Text, Bytes, strip_0x_prefix}
use validator_guardian.Outcome.{
  Outcome, ok, err, panic, ◌>>=◌, or_err, bail_if, assert, invalid_hex, invalid_length,
  invalid_decimal, serialization, deserialization,
}
use validator_guardian.External.Hex.{Hex}
use validator_guardian.External.BigUint.{BigUint}
use validator_guardian.External.Ssz.{Ssz}
use validator_guardian.Eth2.Types.{U256, Root}

-- `"0x".to_string() + &t`
abbrev pub prefix_0x : Text → Text
prefix_0x t = b'0' ∷ b'x' ∷ t

module _ (hex : Hex) where
  -- `from` is `T::from`
  unfoldable pub from_hex_to_ssz_type : {T : Type 0} → (Bytes → T) → Text → Outcome T
  from_hex_to_ssz_type from hex_str = do
    bytes ← or_err (hex.decode (strip_0x_prefix hex_str)) invalid_hex
    ok (from bytes)

  unfoldable pub to_hex_from_ssz_type : {T : Type 0} → (T → Bytes) → T → Text
  to_hex_from_ssz_type as_ssz_bytes t = prefix_0x (hex.encode (as_ssz_bytes t))

  -- `from_ssz` is `T::from_ssz_bytes`; `as_ssz_bytes` of a vector of bytes is the vector
  unfoldable pub from_hex_to_ssz_bits_type : {T : Type 0} → (Bytes → Option T) → Text → Outcome T
  from_hex_to_ssz_bits_type from_ssz hex_str = do
    bytes ← or_err (hex.decode (strip_0x_prefix hex_str)) invalid_hex
    or_err (from_ssz bytes) deserialization

  -- the loop; `FixedVector::new` wants 48 bytes
  unfoldable pub from_hexes : List Text → Outcome (List Bytes)
  from_hexes [] = ok []
  from_hexes (hex_str ∷ strs) = do
    bytes ← or_err (hex.decode (strip_0x_prefix hex_str)) invalid_hex
    _ ← bail_if (not (length bytes == 48)) invalid_length
    res ← from_hexes strs
    ok (bytes ∷ res)

  -- `none` is a field that is no list of strings, where `expect` panics; `max` is `N`, above which
  -- the `unwrap` of `VariableList::new` panics
  unfoldable pub from_hex_vec_to_ssz_type : ℕ → Option (List Text) → Outcome (List Bytes)
  from_hex_vec_to_ssz_type max none = panic
  from_hex_vec_to_ssz_type max (some hex_string_vec) = do
    res ← from_hexes hex_string_vec
    _ ← assert (leb (length res) max)
    ok res

  unfoldable pub to_hex_vec_from_ssz_type : List Bytes → List Text
  to_hex_vec_from_ssz_type vectors = map (λ d. prefix_0x (hex.encode d)) vectors

  -- `strict_from_hex` is `SerHex::<StrictPfx>::from_hex` for 32 bytes
  unfoldable pub de_signing_root : (Text → Option Root) → Text → Outcome (Option Root)
  de_signing_root strict_from_hex [] = ok none
  de_signing_root strict_from_hex (c ∷ hex_string) = do
    bytes ← or_err (strict_from_hex (c ∷ hex_string)) invalid_hex
    ok (some bytes)

  unfoldable pub se_signing_root : Option Root → Outcome Text
  se_signing_root none = err serialization
  se_signing_root (some v) = ok (hex.encode v)

-- the `n` bytes of a number, the least first
unfoldable pub le_bytes : ℕ → ℕ → Bytes
le_bytes zero x = []
le_bytes (suc n) x = (x % 256) ∷ le_bytes n (x / 256)

-- `as_ssz_bytes` of a vector of `u64`
unfoldable pub u64s_as_ssz_bytes : List ℕ → Bytes
u64s_as_ssz_bytes [] = []
u64s_as_ssz_bytes (d ∷ ds) = le_bytes 8 d ++ u64s_as_ssz_bytes ds

module _ (big : BigUint) (ssz : Ssz) where
  unfoldable pub from_u256_string : Text → Outcome U256
  from_u256_string decimal_str = do
    u ← or_err (big.parse_bytes decimal_str) invalid_decimal
    let bytes = big.to_u64_digits u
    _ ← bail_if (not (length bytes == 4)) invalid_length
    ok (ssz.fixed_vector 4 bytes)

module _ (big : BigUint) where
  unfoldable pub to_u256_string : U256 → Text
  to_u256_string num = big.to_str_radix (big.from_bytes_le (u64s_as_ssz_bytes num))
