-- ===== src/Enclave/Shared/Interleaved.antt =====
-- src/enclave/shared/mod.rs: the signing endpoint in steps. The server answers requests on several
-- threads and takes no lock, so that the file accesses of two requests may come in any order. A
-- step is one access with what is computed after it, and the write of a record is one access.
pub mod Races
use validator_guardian.Prelude.{
  ◌≡◌, refl, inl, inr, arith, none, some, if◌then◌else◌, Bool-cases, true, false, length, ◌==◌,
  List, [], ◌∷◌,
}
use validator_guardian.Text.{Text}
use validator_guardian.Outcome.{Outcome, ok, err, panic, Outcome-cases}
use validator_guardian.Disk.{Disk}
use validator_guardian.External.Hex.{Hex}
use validator_guardian.External.TreeHash.{TreeHash}
use validator_guardian.External.Bls.{Bls}
use validator_guardian.Eth2.SlashProtection.{SlashingProtectionData}
use validator_guardian.Eth2.SlashProtection.Storage.{Serde, read}
use validator_guardian.Eth2.Signing.{BlsSignMsg, can_be_slashed, to_signing_root}
use validator_guardian.Crypto.BlsKeys.{sanitize_bls_pk_hex}
use validator_guardian.Enclave.Types.{
  StatusCode, Response, SignatureResponse, bad_request, precondition_failed, internal_server_error,
}
use validator_guardian.Enclave.Shared.{
  AppState, verdict, save, is_slashable, update_slash_protection_db, is_deposit_upper, sign_root,
  record_and_sign, check_and_sign, sign_validator_message,
}
use validator_guardian.Enclave.Shared.Records.{read_cases}

-- how far a request has come
pub data Phase : Type 0 where
  arrived : Phase
  checked : Text → Phase
  loaded : Text → SlashingProtectionData → Phase
  saved : Text → Phase
  answered : Outcome (Response SignatureResponse) → Phase

abbrev pub refuse : StatusCode → Phase
refuse code = answered (ok (record { status = code; body = none }))

module _ (hex : Hex) (serde : Serde) (tree : TreeHash) (bls : Bls) (pk_hex : Text)
    (state : AppState) (req : BlsSignMsg) where
  -- what comes after the record was read for the check
  unfoldable pub after_check : Text → Outcome SlashingProtectionData → Phase
  after_check k (ok db) =
      if verdict db req
      then refuse precondition_failed
      else if can_be_slashed req
      then checked k
      else saved k
  after_check k (err e) = refuse internal_server_error
  after_check k panic = answered panic

  unfoldable pub after_load : Text → Outcome SlashingProtectionData → Phase
  after_load k (ok db) = loaded k db
  after_load k (err e) = refuse internal_server_error
  after_load k panic = answered panic

  unfoldable pub after_save : Text → Outcome (Unit {0}) → Phase
  after_save k (ok u) = saved k
  after_save k (err e) = refuse internal_server_error
  after_save k panic = answered panic

  unfoldable pub step : Phase → Disk → Phase × Disk
  step arrived disk =
      if is_deposit_upper req
      then (refuse bad_request, disk)
      else elim (sanitize_bls_pk_hex pk_hex) [
        | ok k ↦ (after_check k (read serde k disk).0, (read serde k disk).1)
        | err e ↦ (refuse bad_request, disk)
        | panic ↦ (answered panic, disk)
      ]
  step (checked k) disk = (after_load k (read serde k disk).0, (read serde k disk).1)
  step (loaded k db) disk =
      let run = save hex serde db req (to_signing_root tree req none) disk in
      (after_save k run.0, run.1)
  step (saved k) disk =
      let run =
        sign_root hex bls k (to_signing_root tree req (some state.genesis_fork_version)) disk in
      (answered run.0, run.1)
  step (answered r) disk = (answered r, disk)

  unfoldable pub steps : Phase × Disk → Phase × Disk
  steps s = step s.0 s.1

  -- four steps without another in between
  abbrev pub alone : Phase → Disk → Phase × Disk
  alone phase disk = steps (steps (steps (step phase disk)))

-- whose request takes the next step
pub data Turn : Type 0 where
  first : Turn
  second : Turn

module _ (hex : Hex) (serde : Serde) (tree : TreeHash) (bls : Bls) (pk_hex : Text)
    (state : AppState) (a b : BlsSignMsg) where
  -- two requests for one key, with their steps in the order of the turns
  unfoldable pub together : List Turn → Phase × (Phase × Disk) → Phase × (Phase × Disk)
  together [] s = s
  together (first ∷ turns) (p, (q, disk)) =
      let t = step hex serde tree bls pk_hex state a p disk in together turns (t.0, (q, t.1))
  together (second ∷ turns) (p, (q, disk)) =
      let t = step hex serde tree bls pk_hex state b q disk in together turns (p, (t.0, t.1))

abbrev pub in_turns : List Turn
in_turns = first ∷ second ∷ first ∷ second ∷ first ∷ second ∷ first ∷ second ∷ []
