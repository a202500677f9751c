-- ===== src/Outcome.antt =====
-- How a call of the program ends: `Ok`, an `anyhow` error, or a panic. The errors are those that
-- the source raises by `bail!`, `anyhow!` and `?`; one constructor stands for each place or for
-- each kind of failing callee, without its message.
use validator_guardian.Prelude.{
  arith, not, ◌≡◌, refl, ◌⊎◌, inl, inr, Option, none, some, Bool, true, false,
}

pub data Error : Type 0 where
  invalid_hex : Error
  invalid_length : Error
  invalid_decimal : Error
  invalid_utf8 : Error
  io_failure : Error
  serialization : Error
  deserialization : Error
  slashable_block : Error
  slashable_attestation : Error
  not_slashable_type : Error
  bad_key_bytes : Error
  key_mismatch : Error
  aggregation_failure : Error
  bad_index : Error
  encryption_failure : Error
  decryption_failure : Error
  signing_failure : Error
  attestation_failure : Error
  missing_eth_key : Error
  missing_session_field : Error
  missing_variable : Error
  invalid_address : Error
  registry_failure : Error
  session_rejected : Error
  workload_mismatch : Error
  invalid_deposit_signature : Error
  invalid_deposit_data_root : Error
  unmatched_public_key : Error
  no_share_found : Error
  http_failure : Error
  bad_json : Error

pub data Outcome {ℓ} (A : Type ℓ) : Type ℓ where
  ok : A → Outcome A
  err : Error → Outcome A
  panic : Outcome A

infixl 5 ◌>>=◌
abbrev pub ◌>>=◌ {ℓ κ} : {A : Type ℓ} {B : Type κ} → Outcome A → (A → Outcome B) → Outcome B
ok a >>= f = f a
err e >>= f = err e
panic >>= f = panic

-- `?` on the result of a call that is not modelled further
abbrev pub or_err {ℓ} : {A : Type ℓ} → Option A → Error → Outcome A
or_err none e = err e
or_err (some a) e = ok a

-- `assert!`, and `copy_from_slice` of a slice of the wrong length
abbrev pub assert : Bool → Outcome (Unit {0})
assert true = ok tt
assert false = panic

-- `bail!` under an `if`
abbrev pub bail_if : Bool → Error → Outcome (Unit {0})
bail_if true e = err e
bail_if false e = ok tt

pub Outcome-cases {ℓ} :
    {A : Type ℓ} (o : Outcome A)
    → ((a : A) × (o ≡ ok a)) ⊎ (((e : Error) × (o ≡ err e)) ⊎ (o ≡ panic))
Outcome-cases (ok a) = inl (a, refl)
Outcome-cases (err e) = inr (inl (e, refl))
Outcome-cases panic = inr (inr refl)

pub ok_inj {ℓ} : {A : Type ℓ} {a b : A} → ok a ≡ ok b → a ≡ b
ok_inj h = cc

-- A chain that succeeds has a first call that succeeds.
pub first_ok {ℓ κ} :
    {B : Type κ} {b : B} {A : Type ℓ} (next : A → Outcome B) (first : Outcome A)
    → first >>= next ≡ ok b
    → (a : A) × (next a ≡ ok b) × (first ≡ ok a)
first_ok next (ok a) h = (a, h, refl)
first_ok next (err e) h = cc
first_ok next panic h = cc

-- `?` on a result that is there
pub or_err_ok {ℓ} : {A : Type ℓ} (o : Option A) (e : Error) {a : A} → or_err o e ≡ ok a → o ≡ some a
or_err_ok none e h = cc
or_err_ok (some b) e h = ground (arith, h)

pub assert_ok : (b : Bool) {u : Unit {0}} → assert b ≡ ok u → b ≡ true
assert_ok true h = refl
assert_ok false h = cc

pub bail_if-not : (b : Bool) (e : Error) {u : Unit {0}} → bail_if (not b) e ≡ ok u → b ≡ true
bail_if-not true e h = refl
bail_if-not false e h = cc
