-- ===== src/External/Ssz.antt =====
-- The crate `ssz_types`: `fixed_vector n` is `FixedVector::from` on a vector of bytes, which cuts
-- it or fills it with zeros to `n` bytes.
use validator_guardian.Prelude.{ℕ, ◌≡◌, length}
use validator_guardian.Text.{Bytes}

pub record Ssz : Type 0 where
  pub fixed_vector : ℕ → Bytes → Bytes

-- A vector of the right length stays.
pub record IsSsz (ssz : Ssz) : Type 0 where
  pub fixed_vector-eq : (n : ℕ) (b : Bytes) → length b ≡ n → ssz.fixed_vector n b ≡ b
