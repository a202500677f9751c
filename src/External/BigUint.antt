-- ===== src/External/BigUint.antt =====
-- The crate `num_bigint`: natural numbers of any size in radix 10, in bytes and in 64-bit digits,
-- the least first.
use validator_guardian.Prelude.{ℕ, ◌+◌, ◌*◌, ◌^◌, ◌<◌, ◌≡◌, Option, some, List, [], ◌∷◌}
use validator_guardian.Text.{Text, Bytes}

-- `parse_bytes` and `to_str_radix` at radix 10
pub record BigUint : Type 0 where
  pub parse_bytes : Text → Option ℕ
  pub to_str_radix : ℕ → Text
  pub to_u64_digits : ℕ → List ℕ
  pub from_bytes_le : Bytes → ℕ

-- the number that digits stand for, the least first
unfoldable pub of_digits : ℕ → List ℕ → ℕ
of_digits base [] = 0
of_digits base (d ∷ ds) = d + base * of_digits base ds

-- 64-bit digits of which the greatest is not 0
abbrev pub AreDigits : List ℕ → Type 0
AreDigits [] = Unit
AreDigits (d ∷ []) = (0 < d) × (d < 2 ^ 64)
AreDigits (d ∷ e ∷ ds) = (d < 2 ^ 64) × AreDigits (e ∷ ds)

pub record IsBigUint (big : BigUint) : Type 0 where
  pub parse_bytes-to_str_radix : (n : ℕ) → big.parse_bytes (big.to_str_radix n) ≡ some n
  pub of_digits-to_u64_digits : (n : ℕ) → of_digits (2 ^ 64) (big.to_u64_digits n) ≡ n
  pub to_u64_digits-AreDigits : (n : ℕ) → AreDigits (big.to_u64_digits n)
  pub from_bytes_le-eq : (b : Bytes) → big.from_bytes_le b ≡ of_digits 256 b
