-- ===== src/Enclave/Shared/History.antt =====
-- Everything that is signed over a life of the server, against the slashing conditions of the
-- consensus layer.
use validator_guardian.Prelude.{
  ◌<◌, ◌≡◌, ◌≢◌, refl, subst, ◌⊎◌, inl, inr, none, some, List, [], ◌∷◌, ◌++◌, arith, All,
  Option-cases,
}
use validator_guardian.Text.{Text, strip_0x_prefix}
use validator_guardian.Outcome.{Outcome, ok, err, panic}
use validator_guardian.Disk.{Files, Disk}
use validator_guardian.External.Hex.{Hex}
use validator_guardian.External.TreeHash.{TreeHash}
use validator_guardian.External.Bls.{Bls}
use validator_guardian.Eth2.SlashProtection.Storage.{Serde}
use validator_guardian.Eth2.Signing.{BlsSignMsg}
use validator_guardian.Enclave.Types.{Response, SignatureResponse}
use validator_guardian.Enclave.Shared.{AppState, sign_validator_message}
use validator_guardian.Enclave.Shared.Records.{IsSerde, recorded}
use validator_guardian.Enclave.Shared.Levels.{
  Statement, proposal, vote, statement_of, Level, level_of, LevelLe, IsAbove, Covers,
}
use validator_guardian.Enclave.Shared.Update.{WellNamed, Grows}
use validator_guardian.Enclave.Shared.Guard.{
  Grows-refl, sign_validator_message-Guarded, sign_validator_message_keeps,
}

-- A signature that was given out: the stripped public key of the request, and what was signed.
pub record Signed : Type 0 where
  pub key : Text
  pub statement : Statement

-- Two proposals of one validator differ in their slot; two votes differ in their target, and
-- neither surrounds the other.
abbrev pub NotSlashable : Statement → Statement → Type 0
NotSlashable (proposal a) (proposal b) = a ≢ b
NotSlashable (vote s t) (vote s' t') = (t ≢ t') × ¬ ((s < s') × (t' < t)) × ¬ ((s' < s) × (t < t'))
NotSlashable _ _ = Unit

abbrev pub Compatible : Signed → Signed → Type 0
Compatible a b = a.key ≡ b.key → NotSlashable a.statement b.statement

-- No two of the signatures are slashable together.
abbrev pub IsSafe : List Signed → Type 0
IsSafe [] = Unit
IsSafe (x ∷ log) = All (Compatible x) log × IsSafe log

-- the log entry of an answered request
unfoldable pub logged : Text → BlsSignMsg → Outcome (Response SignatureResponse) → List Signed
logged pk_hex req (ok resp) = elim (statement_of req) [
  | none ↦ []
  | some s ↦ elim resp.body [
    | none ↦ []
    | some sig ↦ record { key = strip_0x_prefix pk_hex; statement = s } ∷ []
  ]
]
logged pk_hex req (err e) = []
logged pk_hex req panic = []

Covers-above : (l : Level) (s t : Statement) → Covers l s → IsAbove l t → NotSlashable s t
Covers-above l (proposal a) (proposal b) c h = omega arith
Covers-above l (vote a b) (vote a' b') c h = (omega arith, λ p. omega arith, λ p. omega arith)
Covers-above l (proposal a) (vote a' b') c h = tt
Covers-above l (vote a b) (proposal a') c h = tt

IsAbove-mono : (l m : Level) (s : Statement) → LevelLe l m → IsAbove m s → IsAbove l s
IsAbove-mono l m (proposal a) le h = omega arith
IsAbove-mono l m (vote a b) le h = omega arith

module _ (hex : Hex) (serde : Serde) (tree : TreeHash) (bls : Bls) where
  -- What changes the disk between two moments, with what it signs: a request at the signing
  -- endpoint, answered whole before the next; or anything else, other endpoints and the
  -- environment included, that signs nothing here, lets no record fall back and keeps every record
  -- in the file of its own key.
  pub data Step (disk : Disk) (log : List Signed) (disk' : Disk) : Type 0 where
    request :
        (pk_hex : Text) (state : AppState) (req : BlsSignMsg)
        (answer : Outcome (Response SignatureResponse))
        → sign_validator_message hex serde tree bls pk_hex state req disk ≡ (answer, disk')
        → log ≡ logged pk_hex req answer
        → Step disk log disk'
    elsewhere :
        Grows serde disk.files disk'.files
        → WellNamed hex serde disk'.files
        → log ≡ []
        → Step disk log disk'

  pub data Run : Disk → List Signed → Disk → Type 0 where
    here : {disk : Disk} → Run disk [] disk
    next :
        {disk disk' disk'' : Disk} {log rest : List Signed}
        → Step disk log disk'
        → Run disk' rest disk''
        → Run disk (log ++ rest) disk''

abbrev pub IsBeyond : Serde → Files → Signed → Type 0
IsBeyond serde files x = IsAbove (level_of (recorded serde files x.key)) x.statement

module _ (hex : Hex) (serde : Serde) (tree : TreeHash) (bls : Bls) (is_serde : IsSerde serde) where
  -- what one step has done to the records
  pub record Kept (log : List Signed) (files files' : Files) : Type 0 where
    pub grows : Grows serde files files'
    pub well_named : WellNamed hex serde files'
    pub entries :
        (log ≡ [])
        ⊎ ((x : Signed) × (log ≡ x ∷ [])
            × IsBeyond serde files x
            × Covers (level_of (recorded serde files' x.key)) x.statement)

  logged-none :
      (pk_hex : Text) (req : BlsSignMsg) (answer : Outcome (Response SignatureResponse))
      → statement_of req ≡ none
      → logged pk_hex req answer ≡ []
  unfolding logged
  logged-none pk_hex req (ok resp) h = ground arith
  logged-none pk_hex req (err e) h = refl
  logged-none pk_hex req panic h = refl

  request-Kept :
      (disk : Disk) (pk_hex : Text) (state : AppState) (req : BlsSignMsg)
      → WellNamed hex serde disk.files
      → let r = sign_validator_message hex serde tree bls pk_hex state req disk in
        Kept (logged pk_hex req r.0) disk.files r.1.files
  unfolding logged
  request-Kept disk pk_hex state req named =
      let r = sign_validator_message hex serde tree bls pk_hex state req disk in
      elim (Option-cases (statement_of req)) [
        | inl h ↦
            let same = sign_validator_message_keeps hex serde tree bls pk_hex state req disk h in
            record {
              grows = rw same (Grows-refl serde disk.files);
              well_named = rw same named;
              entries = inl (logged-none pk_hex req r.0 h);
            }
        | inr (s, h) ↦
            elim (sign_validator_message-Guarded hex serde tree bls is_serde pk_hex state req disk s
              h named) [
                | inl ((code, e), grows, well_named) ↦ record {
                  grows = grows;
                  well_named = well_named;
                  entries = inl (ground (arith, h, e));
                }
                | inr ((sk, _, _, e), taken) ↦ record {
                  grows = taken.grows;
                  well_named = taken.well_named;
                  entries = inr (
                    record { key = strip_0x_prefix pk_hex; statement = s },
                    ground (arith, h, e),
                    taken.above,
                    taken.covers,
                  );
                }
              ]
      ]

  pub Step-Kept :
      {disk disk' : Disk} {log : List Signed}
      → WellNamed hex serde disk.files
      → Step hex serde tree bls disk log disk'
      → Kept log disk.files disk'.files
  Step-Kept {disk} {disk'} {log} named (request pk_hex state req answer e l) =
      let r = sign_validator_message hex serde tree bls pk_hex state req disk in
      let kept : Kept (logged pk_hex req r.0) disk.files r.1.files =
        request-Kept disk pk_hex state req named in
      rw l (
        subst
          (λ (q : Outcome (Response SignatureResponse) × Disk).
            Kept (logged pk_hex req q.0) disk.files q.1.files)
          e kept)
  Step-Kept named (elsewhere grows well_named l) = record {
    grows = grows;
    well_named = well_named;
    entries = inl l;
  }

  All-IsBeyond-mono :
      (files files' : Files) (log : List Signed)
      → Grows serde files files'
      → All (IsBeyond serde files') log
      → All (IsBeyond serde files) log
  All-IsBeyond-mono files files' [] grows h = tt
  All-IsBeyond-mono files files' (x ∷ log) grows h =
      (IsAbove-mono _ _ x.statement (grows x.key) h.0, All-IsBeyond-mono files files' log grows h.1)

  -- an entry that the records cover is compatible with all that is signed from there on
  Covers-Compatible :
      (files : Files) (x : Signed) (log : List Signed)
      → Covers (level_of (recorded serde files x.key)) x.statement
      → All (IsBeyond serde files) log
      → All (Compatible x) log
  Covers-Compatible files x [] c h = tt
  Covers-Compatible files x (y ∷ log) c h = (
    λ same.
        Covers-above (level_of (recorded serde files x.key)) x.statement y.statement c
          (rw same (h.0)),
    Covers-Compatible files x log c h.1,
  )

  extend_run :
      (files files' : Files) (log rest : List Signed)
      → Kept log files files'
      → All (IsBeyond serde files') rest
      → IsSafe rest
      → All (IsBeyond serde files) (log ++ rest) × IsSafe (log ++ rest)
  extend_run files files' log rest kept beyond safe =
      let below = All-IsBeyond-mono files files' rest kept.grows beyond in
      elim kept.entries [
        | inl none_signed ↦ rw none_signed (below, safe)
        | inr (x, one, over, covers) ↦
            rw one ((over, below), (Covers-Compatible files' x rest covers beyond, safe))
      ]

  Run-IsBeyond :
      {disk disk' : Disk} {log : List Signed}
      → WellNamed hex serde disk.files
      → Run hex serde tree bls disk log disk'
      → All (IsBeyond serde disk.files) log × IsSafe log
  Run-IsBeyond named here = (tt, tt)
  Run-IsBeyond {disk} named (next {disk' = mid} {log = log} {rest = rest} step run) =
      let kept = Step-Kept named step in
      let (beyond, safe) = Run-IsBeyond kept.well_named run in
      extend_run disk.files mid.files log rest kept beyond safe

  -- From a disk on which every record stands in the file of its own key, over any run of requests
  -- and of other changes that let no record fall back: no two signatures that the endpoint gave out
  -- under one public key are a double proposal, a double vote or a surrounding vote.
  pub Run-IsSafe :
      {disk disk' : Disk} {log : List Signed}
      → WellNamed hex serde disk.files
      → Run hex serde tree bls disk log disk'
      → IsSafe log
  Run-IsSafe named run = (Run-IsBeyond named run).1
