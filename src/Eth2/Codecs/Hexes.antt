-- ===== src/Eth2/Codecs/Hexes.antt =====
-- src/eth2/eth_types.rs: fields in hexadecimal.
use validator_guardian.Prelude.{
  ℕ, ◌≡◌, refl, arith, some, List, [], ◌∷◌, length, leb, if◌then◌else◌, All,
}
use validator_guardian.Text.{Text, Bytes, strip_0x_prefix}
use validator_guardian.Outcome.{ok, panic}
use validator_guardian.External.Hex.{Hex, IsHex, IsBytes}
use validator_guardian.External.Ssz.{Ssz, IsSsz}
use validator_guardian.Eth2.Codecs.{
  prefix_0x, from_hex_to_ssz_type, to_hex_from_ssz_type, from_hexes, from_hex_vec_to_ssz_type,
  to_hex_vec_from_ssz_type,
}

strip_0x_prefix-prefix_0x : (t : Text) → strip_0x_prefix (prefix_0x t) ≡ t
unfolding strip_0x_prefix
strip_0x_prefix-prefix_0x t = refl

-- a vector of 48 bytes
abbrev pub IsVector : Bytes → Type 0
IsVector b = IsBytes b × (length b ≡ 48)

module _ (hex : Hex) (is_hex : IsHex hex) where
  -- Bytes of the right number are read back from what is written for them, and the prefix may be
  -- left off.
  pub from_hex_to_ssz_type-to_hex_from_ssz_type :
      (ssz : Ssz)
      → IsSsz ssz
      → (n : ℕ) (b : Bytes) → IsBytes b
      → length b ≡ n
      → (from_hex_to_ssz_type hex (ssz.fixed_vector n) (to_hex_from_ssz_type hex (λ v. v) b) ≡ ok b)
        × (from_hex_to_ssz_type hex (ssz.fixed_vector n) (hex.encode b) ≡ ok b)
  unfolding from_hex_to_ssz_type to_hex_from_ssz_type
  from_hex_to_ssz_type-to_hex_from_ssz_type ssz is_ssz n b is_bytes has_length = (
    ground (
      arith,
      strip_0x_prefix-prefix_0x (hex.encode b),
      is_hex.decode-encode b is_bytes,
      is_ssz.fixed_vector-eq n b has_length,
    ),
    ground (
      arith,
      is_hex.strip_0x_prefix-encode b,
      is_hex.decode-encode b is_bytes,
      is_ssz.fixed_vector-eq n b has_length,
    ),
  )

  from_hexes-to_hex_vec_from_ssz_type :
      (vectors : List Bytes)
      → All IsVector vectors
      → from_hexes hex (to_hex_vec_from_ssz_type hex vectors) ≡ ok vectors
  unfolding from_hexes to_hex_vec_from_ssz_type
  from_hexes-to_hex_vec_from_ssz_type [] h = refl
  from_hexes-to_hex_vec_from_ssz_type (b ∷ bs) ((is_bytes, has_length), h) = ground (
    arith,
    strip_0x_prefix-prefix_0x (hex.encode b),
    is_hex.decode-encode b is_bytes,
    has_length,
    from_hexes-to_hex_vec_from_ssz_type bs h,
  )

  -- A list of vectors of 48 bytes is read back from what is written for it if it is no longer than
  -- the limit of the field, and reading it panics if it is longer.
  pub from_hex_vec_to_ssz_type-to_hex_vec_from_ssz_type :
      (max : ℕ) (vectors : List Bytes)
      → All IsVector vectors
      → from_hex_vec_to_ssz_type hex max (some (to_hex_vec_from_ssz_type hex vectors))
        ≡ (if leb (length vectors) max then ok vectors else panic)
  unfolding from_hex_vec_to_ssz_type
  from_hex_vec_to_ssz_type-to_hex_vec_from_ssz_type max vectors h =
      ground (arith, from_hexes-to_hex_vec_from_ssz_type vectors h)
