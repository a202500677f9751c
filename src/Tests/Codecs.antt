-- ===== src/Tests/Codecs.antt =====
-- Fields written and read back, with 64-bit digits by division.
use validator_guardian.Prelude.{
  ℕ, zero, suc, ◌+◌, ◌*◌, ◌/◌, ◌%◌, ◌^◌, ◌<◌, ◌≤◌, ◌≡◌, refl, ◌⊎◌, inl, inr, arith, some, none,
  Option, List, [], ◌∷◌, ◌==◌, Bool-cases, ==_iff, if◌then◌else◌, replicate,
}
use validator_guardian.Text.{Text}
use validator_guardian.Outcome.{ok, err, panic, invalid_length}
use validator_guardian.External.BigUint.{BigUint, IsBigUint, of_digits, AreDigits}
use validator_guardian.Eth2.Types.{U256}
use validator_guardian.Eth2.Codecs.{
  from_u256_string, to_u256_string, from_hex_to_ssz_type, to_hex_from_ssz_type,
  from_hex_vec_to_ssz_type, to_hex_vec_from_ssz_type,
}
use validator_guardian.Eth2.Codecs.Decimals.{
  from_u256_string_cases, from_u256_string-to_u256_string,
}
use validator_guardian.Eth2.Codecs.Hexes.{
  from_hex_to_ssz_type-to_hex_from_ssz_type, from_hex_vec_to_ssz_type-to_hex_vec_from_ssz_type,
}
use validator_guardian.Tests.HexWorld.{hex_world, hex_world-IsHex}
use validator_guardian.Tests.CustodyWorld.{ssz_world, ssz_world-IsSsz, zeros-IsBytes}

-- `n` is fuel
digits_of : ℕ → ℕ → List ℕ
digits_of zero x = []
digits_of (suc n) x =
    let rest = (x % 2 ^ 64) ∷ digits_of n (x / 2 ^ 64) in if x == 0 then [] else rest

of_digits-digits_of : (n x : ℕ) → x ≤ n → of_digits (2 ^ 64) (digits_of n x) ≡ x
unfolding of_digits digits_of
of_digits-digits_of zero x h = omega arith
of_digits-digits_of (suc n) x h = elim (Bool-cases (x == 0)) [
  | inl done ↦ ground (arith, done, (==_iff x 0).0 done)
  | inr more ↦
      let smaller : x / 2 ^ 64 ≤ n = omega arith in
      let same = of_digits-digits_of n (x / 2 ^ 64) smaller in rw more (omega (arith, same))
]

-- a digit in front of digits
AreDigits-cons :
    (d : ℕ) (ds : List ℕ)
    → d < 2 ^ 64
    → AreDigits ds
    → 0 < d + 2 ^ 64 * of_digits (2 ^ 64) ds
    → AreDigits (d ∷ ds)
unfolding of_digits
AreDigits-cons d [] small h positive = (omega arith, small)
AreDigits-cons d (e ∷ ds) small h positive = (small, h)

digits_of-AreDigits : (n x : ℕ) → x ≤ n → AreDigits (digits_of n x)
unfolding digits_of
digits_of-AreDigits zero x h = tt
digits_of-AreDigits (suc n) x h = elim (Bool-cases (x == 0)) [
  | inl done ↦ rw done tt
  | inr more ↦ rw more (
      AreDigits-cons (x % 2 ^ 64) (digits_of n (x / 2 ^ 64)) (omega arith)
        (digits_of-AreDigits n (x / 2 ^ 64) (omega arith))
        (ground (arith, of_digits-digits_of n (x / 2 ^ 64) (omega arith))))
]

-- A number is written as one character, of that code.
abbrev single : Text → Option ℕ
single (c ∷ []) = some c
single _ = none

abbrev big_world : BigUint
big_world = record {
  parse_bytes = single;
  to_str_radix = λ n. n ∷ [];
  to_u64_digits = λ n. digits_of n n;
  from_bytes_le = of_digits 256;
}

big_world-IsBigUint : IsBigUint big_world
big_world-IsBigUint = record {
  parse_bytes-to_str_radix = λ n. refl;
  of_digits-to_u64_digits = λ n. of_digits-digits_of n n (omega arith);
  to_u64_digits-AreDigits = λ n. digits_of-AreDigits n n (omega arith);
  from_bytes_le-eq = λ b. refl;
}

from_u256_string_cases_example :
    ((from_u256_string big_world ssz_world (7 ∷ []) ≡ err invalid_length)
      × ((7 < 2 ^ 192) ⊎ (2 ^ 256 ≤ 7)))
    ⊎ ((num : U256) × (from_u256_string big_world ssz_world (7 ∷ []) ≡ ok num)
        × (of_digits (2 ^ 64) num ≡ 7)
        × (2 ^ 192 ≤ 7)
        × (7 < 2 ^ 256))
from_u256_string_cases_example =
    from_u256_string_cases big_world ssz_world big_world-IsBigUint ssz_world-IsSsz 7

from_u256_string-to_u256_string_example :
    from_u256_string big_world ssz_world (to_u256_string big_world (5 ∷ 0 ∷ 6 ∷ 7 ∷ []))
    ≡ ok (5 ∷ 0 ∷ 6 ∷ 7 ∷ [])
from_u256_string-to_u256_string_example =
    from_u256_string-to_u256_string big_world ssz_world big_world-IsBigUint ssz_world-IsSsz
      (5 ∷ 0 ∷ 6 ∷ 7 ∷ []) (omega arith) refl

from_hex_to_ssz_type-to_hex_from_ssz_type_example :
    (from_hex_to_ssz_type hex_world
        (ssz_world.fixed_vector 20)
        (to_hex_from_ssz_type hex_world (λ v. v) (replicate 20 0))
      ≡ ok (replicate 20 0))
    × (from_hex_to_ssz_type hex_world
          (ssz_world.fixed_vector 20)
          (hex_world.encode (replicate 20 0))
        ≡ ok (replicate 20 0))
from_hex_to_ssz_type-to_hex_from_ssz_type_example =
    from_hex_to_ssz_type-to_hex_from_ssz_type hex_world hex_world-IsHex ssz_world ssz_world-IsSsz 20
      (replicate 20 0) (zeros-IsBytes 20) refl

from_hex_vec_to_ssz_type-to_hex_vec_from_ssz_type_example :
    from_hex_vec_to_ssz_type hex_world 1
      (some (to_hex_vec_from_ssz_type hex_world (replicate 48 0 ∷ replicate 48 0 ∷ [])))
    ≡ panic
from_hex_vec_to_ssz_type-to_hex_vec_from_ssz_type_example =
    from_hex_vec_to_ssz_type-to_hex_vec_from_ssz_type hex_world hex_world-IsHex 1
      (replicate 48 0 ∷ replicate 48 0 ∷ [])
      ((zeros-IsBytes 48, refl), ((zeros-IsBytes 48, refl), tt))
