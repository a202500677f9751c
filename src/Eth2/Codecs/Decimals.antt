-- ===== src/Eth2/Codecs/Decimals.antt =====
-- src/eth2/eth_types.rs: 256-bit numbers in decimal.
use validator_guardian.Prelude.{
  ℕ, ◌+◌, ◌*◌, ◌^◌, ◌<◌, ◌≤◌, ◌≡◌, refl, ap, ◌∙◌, ◌⊎◌, inl, inr, arith, List, [], ◌∷◌, ◌++◌, ◌==◌,
  length, All, Bool-cases, ==_iff, false,
}
use validator_guardian.Text.{Bytes}
use validator_guardian.Outcome.{ok, err, invalid_length}
use validator_guardian.External.BigUint.{BigUint, IsBigUint, of_digits, AreDigits}
use validator_guardian.External.Ssz.{Ssz, IsSsz}
use validator_guardian.Eth2.Types.{U256}
use validator_guardian.Eth2.Codecs.{le_bytes, u64s_as_ssz_bytes, from_u256_string, to_u256_string}

-- the value of digits in front of the bytes of a rest
of_digits-le_bytes :
    (d : ℕ) (rest : Bytes)
    → d < 2 ^ 64
    → of_digits 256 (le_bytes 8 d ++ rest) ≡ d + 2 ^ 64 * of_digits 256 rest
unfolding of_digits le_bytes
of_digits-le_bytes d rest h = omega arith

of_digits-u64s_as_ssz_bytes :
    (ds : List ℕ)
    → All (λ d. d < 2 ^ 64) ds
    → of_digits 256 (u64s_as_ssz_bytes ds) ≡ of_digits (2 ^ 64) ds
unfolding of_digits u64s_as_ssz_bytes
of_digits-u64s_as_ssz_bytes [] h = refl
of_digits-u64s_as_ssz_bytes (d ∷ ds) h =
    of_digits-le_bytes d (u64s_as_ssz_bytes ds) h.0
    ∙ ap (λ n. d + 2 ^ 64 * n) (of_digits-u64s_as_ssz_bytes ds h.1)

AreDigits-positive : (d : ℕ) (ds : List ℕ) → AreDigits (d ∷ ds) → 0 < of_digits (2 ^ 64) (d ∷ ds)
unfolding of_digits
AreDigits-positive d [] h = omega arith
AreDigits-positive d (e ∷ ds) h = omega (arith, AreDigits-positive e ds h.1)

AreDigits-All : (ds : List ℕ) → AreDigits ds → All (λ d. d < 2 ^ 64) ds
AreDigits-All [] h = tt
AreDigits-All (d ∷ []) h = (h.1, tt)
AreDigits-All (d ∷ e ∷ ds) h = (h.0, AreDigits-All (e ∷ ds) h.1)

AreDigits-tail : (d : ℕ) (ds : List ℕ) → AreDigits (d ∷ ds) → AreDigits ds
AreDigits-tail d [] h = tt
AreDigits-tail d (e ∷ ds) h = h.1

AreDigits-head : (d : ℕ) (ds : List ℕ) → AreDigits (d ∷ ds) → d < 2 ^ 64
AreDigits-head d [] h = h.1
AreDigits-head d (e ∷ ds) h = h.0

-- digits are determined by the number that they stand for
AreDigits-unique :
    (ds es : List ℕ)
    → AreDigits ds
    → AreDigits es
    → of_digits (2 ^ 64) ds ≡ of_digits (2 ^ 64) es
    → ds ≡ es
unfolding of_digits
AreDigits-unique [] [] h k e = refl
AreDigits-unique [] (b ∷ bt) h k e = absurd (omega (arith, AreDigits-positive b bt k))
AreDigits-unique (a ∷ at) [] h k e = absurd (omega (arith, AreDigits-positive a at h))
AreDigits-unique (a ∷ at) (b ∷ bt) h k e =
    let ha = AreDigits-head a at h in
    let hb = AreDigits-head b bt k in
    let here : a ≡ b = omega arith in
    let there : of_digits (2 ^ 64) at ≡ of_digits (2 ^ 64) bt = omega arith in
    let rest = AreDigits-unique at bt (AreDigits-tail a at h) (AreDigits-tail b bt k) there in cc

-- four digits stand for the numbers from 2 ^ 192 on and below 2 ^ 256
AreDigits-four :
    (ds : List ℕ)
    → AreDigits ds
    → length ds ≡ 4
    → (2 ^ 192 ≤ of_digits (2 ^ 64) ds) × (of_digits (2 ^ 64) ds < 2 ^ 256)
unfolding of_digits
AreDigits-four (a ∷ b ∷ c ∷ d ∷ []) h e = omega arith
AreDigits-four [] h e = cc
AreDigits-four (a ∷ []) h e = absurd (omega arith)
AreDigits-four (a ∷ b ∷ []) h e = absurd (omega arith)
AreDigits-four (a ∷ b ∷ c ∷ []) h e = absurd (omega arith)
AreDigits-four (a ∷ b ∷ c ∷ d ∷ f ∷ ds) h e = absurd (omega arith)

AreDigits-not_four :
    (ds : List ℕ)
    → AreDigits ds
    → (length ds == 4) ≡ false
    → (of_digits (2 ^ 64) ds < 2 ^ 192) ⊎ (2 ^ 256 ≤ of_digits (2 ^ 64) ds)
unfolding of_digits
AreDigits-not_four [] h e = inl (omega arith)
AreDigits-not_four (a ∷ []) h e = inl (omega arith)
AreDigits-not_four (a ∷ b ∷ []) h e = inl (omega arith)
AreDigits-not_four (a ∷ b ∷ c ∷ []) h e = inl (omega arith)
AreDigits-not_four (a ∷ b ∷ c ∷ d ∷ []) h e = cc
AreDigits-not_four (a ∷ b ∷ c ∷ d ∷ f ∷ ds) h e =
    inr (omega (arith, AreDigits-positive f ds h.1.1.1.1))

module _ (big : BigUint) (ssz : Ssz) (is_big : IsBigUint big) (is_ssz : IsSsz ssz) where
  -- The decimal of a number is read exactly if the number lies from 2 ^ 192 on and below 2 ^ 256,
  -- and then as four digits that stand for it; any other number is refused for its length.
  pub from_u256_string_cases :
      (n : ℕ)
      → ((from_u256_string big ssz (big.to_str_radix n) ≡ err invalid_length)
          × ((n < 2 ^ 192) ⊎ (2 ^ 256 ≤ n)))
        ⊎ ((num : U256) × (from_u256_string big ssz (big.to_str_radix n) ≡ ok num)
            × (of_digits (2 ^ 64) num ≡ n)
            × (2 ^ 192 ≤ n)
            × (n < 2 ^ 256))
  unfolding from_u256_string
  from_u256_string_cases n =
      let ds = big.to_u64_digits n in
      let parses = is_big.parse_bytes-to_str_radix n in
      let same = is_big.of_digits-to_u64_digits n in
      let digits = is_big.to_u64_digits-AreDigits n in
      elim (Bool-cases (length ds == 4)) [
        | inl four ↦
            let bounds = AreDigits-four ds digits ((==_iff (length ds) 4).0 four) in
            inr (
              ds,
              ground (arith, parses, four, is_ssz.fixed_vector-eq 4 ds (ground arith)),
              same,
              omega (arith, bounds.0),
              omega (arith, bounds.1),
            )
        | inr other ↦ inl (
          ground (arith, parses, other),
          elim (AreDigits-not_four ds digits other) [
            | inl small ↦ inl (omega arith)
            | inr large ↦ inr (omega arith)
          ],
        )
      ]

  -- Four digits of which the greatest is not 0 are read back from what is written for them.
  pub from_u256_string-to_u256_string :
      (num : U256)
      → AreDigits num
      → length num ≡ 4
      → from_u256_string big ssz (to_u256_string big num) ≡ ok num
  unfolding from_u256_string to_u256_string
  from_u256_string-to_u256_string num digits four =
      let bytes = u64s_as_ssz_bytes num in
      let n = big.from_bytes_le bytes in
      let value : n ≡ of_digits (2 ^ 64) num =
        is_big.from_bytes_le-eq bytes
        ∙ of_digits-u64s_as_ssz_bytes num (AreDigits-All num digits) in
      let same : big.to_u64_digits n ≡ num =
        AreDigits-unique (big.to_u64_digits n) num (is_big.to_u64_digits-AreDigits n) digits
          (is_big.of_digits-to_u64_digits n ∙ value) in
      ground
        (arith, is_big.parse_bytes-to_str_radix n, same, four, is_ssz.fixed_vector-eq 4 num four)
