-- ===== src/Eth2/SlashProtection/Latest.antt =====
-- The greatest key of a list, as `max_by_key` finds it.
use validator_guardian.Prelude.{
  ℕ, ◌≤◌, ◌≡◌, refl, Bool, true, false, List, [], ◌∷◌, ◌++◌, arith, ltb, if◌then◌else◌, All,
  All-append, All-append_right,
}
use validator_guardian.Eth2.SlashProtection.{max_from, max_by_key, latest, push_or_overwrite}

module _ {ℓ} {A : Type ℓ} (key : A → ℕ) where
  abbrev pub IsAtMost : ℕ → A → Type 0
  IsAtMost n x = key x ≤ n

  IsAtMost-mono : {m n : ℕ} (xs : List A) → m ≤ n → All (IsAtMost m) xs → All (IsAtMost n) xs
  IsAtMost-mono [] h all = tt
  IsAtMost-mono (x ∷ xs) h all = (omega arith, IsAtMost-mono xs h all.1)

  le-max_from : (best : A) (xs : List A) → key best ≤ key (max_from key best xs)
  unfolding max_from
  le-max_from best [] = omega arith
  le-max_from best (x ∷ xs) =
      ground (arith, le-max_from (if ltb (key x) (key best) then best else x) xs)

  max_from_bounds : (best : A) (xs : List A) → All (IsAtMost (key (max_from key best xs))) xs
  unfolding max_from
  max_from_bounds best [] = tt
  max_from_bounds best (x ∷ xs) =
      let next = if ltb (key x) (key best) then best else x in
      (ground (arith, le-max_from next xs), max_from_bounds next xs)

  max_from-le :
      (best : A) (xs : List A) {n : ℕ}
      → key best ≤ n
      → All (IsAtMost n) xs
      → key (max_from key best xs) ≤ n
  unfolding max_from
  max_from-le best [] h all = h
  max_from-le best (x ∷ xs) h all =
      max_from-le (if ltb (key x) (key best) then best else x) xs (ground arith) all.1

  -- No element lies above the latest key.
  pub latest_bounds : (xs : List A) → All (IsAtMost (latest key xs)) xs
  unfolding latest max_by_key
  latest_bounds [] = tt
  latest_bounds (x ∷ xs) = (le-max_from x xs, max_from_bounds x xs)

  -- The latest key lies below every bound of the elements.
  pub latest-le : (xs : List A) {n : ℕ} → All (IsAtMost n) xs → latest key xs ≤ n
  unfolding latest max_by_key
  latest-le [] all = omega arith
  latest-le (x ∷ xs) all = max_from-le x xs all.0 all.1

  le-latest_last : (xs : List A) (x : A) → key x ≤ latest key (xs ++ x ∷ [])
  le-latest_last xs x =
      (All-append_right (IsAtMost (latest key (xs ++ x ∷ []))) xs (x ∷ [])
        (latest_bounds (xs ++ x ∷ []))).0

  -- An element with a key no less than the latest takes its place, in a list that grows and in
  -- one that does not.
  pub latest-push_or_overwrite :
      (growable : Bool) (xs : List A) (x : A)
      → latest key xs ≤ key x
      → latest key (push_or_overwrite growable xs x) ≡ key x
  unfolding push_or_overwrite
  latest-push_or_overwrite growable [] x h = unfold latest max_by_key max_from in refl
  latest-push_or_overwrite true (y ∷ ys) x h =
      let all = IsAtMost-mono (y ∷ ys) h (latest_bounds (y ∷ ys)) in
      let upper =
        latest-le ((y ∷ ys) ++ x ∷ [])
          (All-append (IsAtMost (key x)) (y ∷ ys) (x ∷ []) all (omega arith)) in
      let lower = le-latest_last (y ∷ ys) x in omega arith
  latest-push_or_overwrite false (y ∷ ys) x h =
      let all = IsAtMost-mono (y ∷ ys) h (latest_bounds (y ∷ ys)) in
      let upper = latest-le (x ∷ ys) {n = key x} (omega arith, all.1) in
      let lower = (latest_bounds (x ∷ ys)).0 in omega arith
