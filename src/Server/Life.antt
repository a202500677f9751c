-- ===== src/Server/Life.antt =====
-- src/bin: a server as a function from calls to answers, over any sequence of calls.
use validator_guardian.Prelude.{◌≡◌, refl, sym, subst, List, [], ◌++◌}
use validator_guardian.Outcome.{Outcome}
use validator_guardian.Disk.{Disk, Exec}
use validator_guardian.External.Hex.{Hex}
use validator_guardian.External.TreeHash.{TreeHash}
use validator_guardian.External.Bls.{Bls}
use validator_guardian.Eth2.SlashProtection.Storage.{Serde}
use validator_guardian.Enclave.Shared.Records.{IsSerde}
use validator_guardian.Enclave.Shared.Update.{WellNamed}
use validator_guardian.Enclave.Shared.History.{
  Signed, IsSafe, Step, Run, Step-Kept, Run-IsSafe, elsewhere,
}
use validator_guardian.Server.Keeps.{Keeps, Keeps-refl}
use validator_guardian.Server.Quiet.{answered, answered_disk}

module _ (hex : Hex) (serde : Serde) (tree : TreeHash) (bls : Bls) where
  pub quiet-Keeps :
      (disk disk' : Disk)
      → WellNamed hex serde disk.files
      → disk' ≡ disk
      → Keeps hex serde disk.files disk'.files
  quiet-Keeps disk disk' named same =
      subst (λ d. Keeps hex serde disk.files d.files) (sym same)
        (Keeps-refl hex serde disk.files named)

  pub answered-Step :
      {A B : Type 0} (con : A → B) (m : Disk → Outcome A × Disk) (disk : Disk)
      → Keeps hex serde disk.files (m disk).1.files
      → Step hex serde tree bls disk [] (answered con m disk).1
  answered-Step con m disk kept =
      subst (λ d. Step hex serde tree bls disk [] d) (sym (answered_disk con m disk))
        (elsewhere (kept.grows) (kept.well_named) refl)

-- `entry` is what an answered call adds to the log of signatures, and `IsFreshCall` what is asked of
-- a call.
module _ {Call Answer : Type 0} (serve : Call → Exec Answer)
    (entry : Call → Outcome Answer → List Signed) (IsFreshCall : Call → Disk → Type 0) where
  -- a sequence of calls, each answered whole before the next, and what is signed in it
  pub data Life : Disk → List Signed → Disk → Type 0 where
    here : {disk : Disk} → Life disk [] disk
    next :
        {disk disk'' : Disk} {rest : List Signed} (call : Call)
        → IsFreshCall call disk
        → Life (serve call disk).1 rest disk''
        → Life disk (entry call (serve call disk).0 ++ rest) disk''

  module _ (hex : Hex) (serde : Serde) (tree : TreeHash) (bls : Bls) (is_serde : IsSerde serde)
      (call-Step : (call : Call) (disk : Disk)
        → WellNamed hex serde disk.files
        → IsFreshCall call disk
        → Step hex serde tree bls disk (entry call (serve call disk).0) (serve call disk).1) where
    pub Step-Keeps :
        (call : Call) (disk : Disk)
        → WellNamed hex serde disk.files
        → IsFreshCall call disk
        → Keeps hex serde disk.files (serve call disk).1.files
    Step-Keeps call disk named fresh =
        let kept = Step-Kept hex serde tree bls is_serde named (call-Step call disk named fresh) in
        record { grows = kept.grows; well_named = kept.well_named }

    Life-Run :
        {disk disk' : Disk} {log : List Signed}
        → WellNamed hex serde disk.files
        → Life disk log disk'
        → Run hex serde tree bls disk log disk'
    Life-Run named here = Run.here
    Life-Run {disk} named (next call fresh life) =
        Run.next (call-Step call disk named fresh)
          (Life-Run (Keeps.well_named (Step-Keeps call disk named fresh)) life)

    pub Steps-IsSafe :
        {disk disk' : Disk} {log : List Signed}
        → WellNamed hex serde disk.files
        → Life disk log disk'
        → IsSafe log
    Steps-IsSafe named life = Run-IsSafe hex serde tree bls is_serde named (Life-Run named life)
