-- ===== src/Server/Quiet.antt =====
-- src/enclave: actions that leave the disk or its records alone.
use validator_guardian.Prelude.{◌≡◌, refl, inl, inr, arith, false}
use validator_guardian.Text.{Text, text_eq}
use validator_guardian.Outcome.{Outcome-cases}
use validator_guardian.Disk.{Disk, Exec, ◌>>=◌, pure}
use validator_guardian.Server.Paths.{recorded-insert_apart}
use validator_guardian.Eth2.SlashProtection.Storage.{Serde}
use validator_guardian.Io.KeyManagement.{write_key}
use validator_guardian.Io.KeyManagement.Laws.{write_key_cases}
use validator_guardian.Enclave.Types.{StatusCode, respond, respond_with, match_result}
use validator_guardian.Enclave.Shared.Records.{path_of, recorded}

-- an endpoint under the constructor of its answers
abbrev pub answered : {A B : Type 0} → (A → B) → Exec A → Exec B
answered con m = m >>= λ r. pure (con r)

-- what follows an action and changes no file
pub bind_quiet :
    {A B : Type 0} (m : Exec A) (next : A → Exec B) (disk : Disk)
    → ((a : A) (d : Disk) → (next a d).1 ≡ d)
    → ((m >>= next) disk).1 ≡ (m disk).1
bind_quiet m next disk quiet = elim (Outcome-cases (m disk).0) [
  | inl (a, e) ↦ ground (arith, e, quiet a (m disk).1)
  | inr (inl (x, e)) ↦ ground (arith, e)
  | inr (inr e) ↦ ground (arith, e)
]

pub answered_disk :
    {A B : Type 0} (con : A → B) (m : Exec A) (disk : Disk) → (answered con m disk).1 ≡ (m disk).1
answered_disk con m disk = bind_quiet m (λ a. pure (con a)) disk (λ a d. refl)

-- an answer changes no file
pub responded_disk :
    {A B : Type 0} (m : Exec A) (code other : StatusCode) (f : A → B) (disk : Disk)
    → (match_result m (λ a. respond_with code (f a)) (λ e. respond other) disk).1 ≡ (m disk).1
responded_disk m code other f disk = elim (Outcome-cases (m disk).0) [
  | inl (a, e) ↦ ground (arith, e)
  | inr (inl (x, e)) ↦ ground (arith, e)
  | inr (inr e) ↦ ground (arith, e)
]

module _ (serde : Serde) where
  -- the key files leave the records
  pub write_key-same :
      (path text : Text) (disk : Disk)
      → ((k : Text) → text_eq path (path_of k) ≡ false)
      → (k : Text)
      → recorded serde (write_key path text disk).1.files k ≡ recorded serde disk.files k
  write_key-same path text disk apart k = elim (write_key_cases path text disk) [
    | inl (e, disk', failed, same) ↦ ground (arith, failed, same)
    | inr (disk', done, files) ↦
        ground (arith, done, files, recorded-insert_apart serde path text k disk.files (apart k))
  ]
