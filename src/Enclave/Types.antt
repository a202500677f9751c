-- ===== src/Enclave/Types.antt =====
-- src/enclave/types.rs: what the endpoints answer; and the answers of `axum`, a status code with
-- the body of a success. The text that goes with a failure is left out.
use validator_guardian.Prelude.{Option, none, some, ◌∷◌}
use validator_guardian.Text.{Text, Bytes}
use validator_guardian.Outcome.{Outcome, Error, ok, err, panic}
use validator_guardian.Disk.{Exec, Disk}
use validator_guardian.External.Hex.{Hex}

pub data StatusCode : Type 0 where
  status_ok : StatusCode
  created : StatusCode
  bad_request : StatusCode
  precondition_failed : StatusCode
  internal_server_error : StatusCode

pub record Response (A : Type 0) : Type 0 where
  pub status : StatusCode
  pub body : Option A

abbrev pub respond : {A : Type 0} → StatusCode → Exec (Response A)
respond code disk = (ok (record { status = code; body = none }), disk)

abbrev pub respond_with : {A : Type 0} → StatusCode → A → Exec (Response A)
respond_with code a disk = (ok (record { status = code; body = some a }), disk)

-- `match m { Ok(a) => f(a), Err(e) => g(e) }`, by how `m` ended
abbrev pub match_ended :
    {A B : Type 0} → Outcome A × Disk → (A → Exec B) → (Error → Exec B) → Outcome B × Disk
match_ended s f g = elim s.0 [ ok a ↦ f a s.1 | err e ↦ g e s.1 | panic ↦ (panic, s.1) ]

abbrev pub match_result : {A B : Type 0} → Exec A → (A → Exec B) → (Error → Exec B) → Exec B
match_result m f g disk = match_ended (m disk) f g

pub record SignatureResponse : Type 0 where
  pub signature : Text

unfoldable pub new_signature_response : Hex → Bytes → SignatureResponse
new_signature_response hex sig = record { signature = b'0' ∷ b'x' ∷ hex.encode sig }
