-- ===== src/Enclave/Shared/Guard.antt =====
-- The signing endpoint on every branch: when it answers with a signature, and what it has recorded
-- by then.
use validator_guardian.Prelude.{
  ◌*◌, ◌≡◌, refl, sym, ◌⊎◌, inl, inr, true, false, none, some, arith, Bool-cases, length, ◌==◌,
  subst,
}
use validator_guardian.Text.{Text, strip_0x_prefix}
use validator_guardian.Outcome.{Outcome, Error, ok, err}
use validator_guardian.Disk.{Files, Disk}
use validator_guardian.Constants.{bls_pub_key_bytes}
use validator_guardian.External.Hex.{Hex}
use validator_guardian.External.TreeHash.{TreeHash}
use validator_guardian.External.Bls.{Bls}
use validator_guardian.Eth2.Types.{Root}
use validator_guardian.Eth2.SlashProtection.Storage.{Serde}
use validator_guardian.Eth2.Signing.{
  BlsSignMsg, block_upper, block, block_v2_upper, block_v2, attestation_upper, attestation,
  deposit_upper, can_be_slashed, to_signing_root,
}
use validator_guardian.Crypto.BlsKeys.{sanitize_bls_pk_hex}
use validator_guardian.Crypto.BlsKeys.Stored.{stored_key, hex_of, sign_saved_cases}
use validator_guardian.Enclave.Types.{
  StatusCode, Response, SignatureResponse, status_ok, bad_request, precondition_failed,
  internal_server_error, new_signature_response,
}
use validator_guardian.Enclave.Shared.{
  AppState, verdict, is_slashable, update_slash_protection_db, is_deposit_upper, sign_root,
  record_and_sign, check_and_sign, sign_validator_message,
}
use validator_guardian.Enclave.Shared.Records.{IsSerde, read_cases}
use validator_guardian.Enclave.Shared.Levels.{Statement, statement_of, LevelLe-refl}
use validator_guardian.Enclave.Shared.Update.{WellNamed, Grows, Recorded, update_cases}

-- An answer with no signature.
abbrev pub IsRefusal : Outcome (Response SignatureResponse) → Type 0
IsRefusal r = (code : StatusCode) × (r ≡ ok (record { status = code; body = none }))

pub Grows-refl : (serde : Serde) (files : Files) → Grows serde files files
Grows-refl serde files k = LevelLe-refl _

pub is_deposit_upper-of_statement :
    (m : BlsSignMsg) {s : Statement} → statement_of m ≡ some s → is_deposit_upper m ≡ false
unfolding statement_of is_deposit_upper
is_deposit_upper-of_statement (deposit_upper m) h = cc
is_deposit_upper-of_statement _ h = refl

pub can_be_slashed-of_statement :
    (m : BlsSignMsg) {s : Statement} → statement_of m ≡ some s → can_be_slashed m ≡ true
unfolding statement_of can_be_slashed
can_be_slashed-of_statement (block m) h = refl
can_be_slashed-of_statement (block_upper m) h = refl
can_be_slashed-of_statement (block_v2 m) h = refl
can_be_slashed-of_statement (block_v2_upper m) h = refl
can_be_slashed-of_statement (attestation m) h = refl
can_be_slashed-of_statement (attestation_upper m) h = refl
can_be_slashed-of_statement _ h = cc

module _ (hex : Hex) (bls : Bls) where
  -- The answer carries the signature of the key that is asked for.
  abbrev pub IsSignature : Files → Text → Root → Outcome (Response SignatureResponse) → Type 0
  IsSignature files pk root r =
      (sk : bls.SecretKeySet) × (stored_key hex bls files pk ≡ some sk)
      × (pk ≡ hex_of hex bls sk)
      × (r
          ≡ ok (record {
            status = status_ok;
            body = some (
                new_signature_response hex
                  (bls.signature_to_bytes (bls.sign (bls.secret_key sk) root)));
          }))

  sign_root_cases :
      (pk : Text) (root : Root) (disk : Disk)
      → ((sign_root hex bls pk root disk).1 ≡ disk)
        × (IsRefusal (sign_root hex bls pk root disk).0
            ⊎ IsSignature disk.files pk root (sign_root hex bls pk root disk).0)
  unfolding sign_root
  sign_root_cases pk root disk = elim (sign_saved_cases hex bls pk root disk) [
    | inl ((e, failed), _) ↦
        (ground (arith, failed), inl (internal_server_error, ground (arith, failed)))
    | inr (sk, found, same, signed) ↦
        (ground (arith, signed), inr (sk, found, same, ground (arith, signed)))
  ]

module _ (hex : Hex) (serde : Serde) (tree : TreeHash) (bls : Bls) (is_serde : IsSerde serde) where
  -- A refusal, with no record fallen back, or a signature, with the statement recorded.
  abbrev pub Guarded :
      Text → Statement → Root → Disk → Outcome (Response SignatureResponse) × Disk → Type 0
  Guarded k s root disk r =
      IsRefusal r.0 × Grows serde disk.files r.1.files × WellNamed hex serde r.1.files
      ⊎ IsSignature hex bls r.1.files k root r.0
        × Recorded hex serde is_serde k s disk.files r.1.files

  module _ (k : Text) (state : AppState) (req : BlsSignMsg) (disk : Disk) (s : Statement)
      (states : statement_of req ≡ some s) (named : WellNamed hex serde disk.files) where
    abbrev root_of : Root
    root_of = to_signing_root tree req (some state.genesis_fork_version)

    signed_after :
        (disk' : Disk)
        → Recorded hex serde is_serde k s disk.files disk'.files
        → Guarded k s root_of disk (sign_root hex bls k root_of disk')
    signed_after disk' done =
        let (kept, answer) = sign_root_cases hex bls k root_of disk' in
        elim answer [
          | inl refusal ↦ inl (refusal, rw kept (done.grows), rw kept (done.well_named))
          | inr signature ↦ inr (rw kept signature, rw kept done)
        ]

    refused_with :
        (disk' : Disk) (code : StatusCode)
        → disk'.files ≡ disk.files
        → Guarded k s root_of disk (ok (record { status = code; body = none }), disk')
    refused_with disk' code same =
        inl ((code, refl), rw same (Grows-refl serde disk.files), rw same named)

    by_equation :
        (r r' : Outcome (Response SignatureResponse) × Disk)
        → r ≡ r'
        → Guarded k s root_of disk r'
        → Guarded k s root_of disk r
    by_equation r r' e h = subst (λ q. Guarded k s root_of disk q) (sym e) h

    -- a message that states something is recorded before it is signed
    record_and_sign_steps :
        (disk' : Disk)
        → update_slash_protection_db hex serde tree k req disk ≡ (ok tt, disk')
        → record_and_sign hex serde tree bls k state req disk ≡ sign_root hex bls k root_of disk'
    unfolding record_and_sign
    record_and_sign_steps disk' done = ground (arith, done, can_be_slashed-of_statement req states)

    record_and_sign_fails :
        (e : Error) (disk' : Disk)
        → update_slash_protection_db hex serde tree k req disk ≡ (err e, disk')
        → record_and_sign hex serde tree bls k state req disk
          ≡ (ok (record { status = internal_server_error; body = none }), disk')
    unfolding record_and_sign
    record_and_sign_fails e disk' failed =
        ground (arith, failed, can_be_slashed-of_statement req states)

    record_and_sign-Guarded :
        Guarded k s root_of disk (record_and_sign hex serde tree bls k state req disk)
    record_and_sign-Guarded =
        let r = record_and_sign hex serde tree bls k state req disk in
        elim (update_cases hex serde is_serde tree k req disk states named) [
          | inl (e, disk', failed, same) ↦
              by_equation r _ (record_and_sign_fails e disk' failed)
                (refused_with disk' internal_server_error same)
          | inr (disk', done, taken) ↦
              by_equation r _ (record_and_sign_steps disk' done) (signed_after disk' taken)
        ]

    check_and_sign_eq :
        (check_and_sign hex serde tree bls k state req disk
          ≡ record_and_sign hex serde tree bls k state req disk)
        ⊎ ((code : StatusCode) × (check_and_sign hex serde tree bls k state req disk
              ≡ (ok (record { status = code; body = none }), disk)))
    unfolding check_and_sign is_slashable
    check_and_sign_eq = elim (read_cases serde k disk) [
      | inl (_, (e, unread)) ↦ inr (internal_server_error, ground (arith, unread))
      | inr (db, found, was_read) ↦ elim (Bool-cases (verdict db req)) [
        | inl slashable ↦ inr (precondition_failed, ground (arith, was_read))
        | inr fine ↦ inl (ground (arith, was_read))
      ]
    ]

    check_and_sign-Guarded :
        Guarded k s root_of disk (check_and_sign hex serde tree bls k state req disk)
    check_and_sign-Guarded = elim check_and_sign_eq [
      | inl e ↦ by_equation _ _ e record_and_sign-Guarded
      | inr (code, e) ↦ by_equation _ _ e (refused_with disk code refl)
    ]

  -- For a block or an attestation, where every record stands in the file of its own key: the
  -- endpoint answers without a signature, and no record has fallen back; or the stripped key in the
  -- request is the public key of a key set on the disk, the answer is that key set's signature over
  -- the signing root, the statement lay beyond the record of the key, and it is in the record now.
  -- Either way every record still stands in the file of its own key.
  pub sign_validator_message-Guarded :
      (pk_hex : Text) (state : AppState) (req : BlsSignMsg) (disk : Disk) (s : Statement)
      → statement_of req ≡ some s
      → WellNamed hex serde disk.files
      → Guarded
          (strip_0x_prefix pk_hex)
          s
          (to_signing_root tree req (some state.genesis_fork_version))
          disk
          (sign_validator_message hex serde tree bls pk_hex state req disk)
  unfolding sign_validator_message sanitize_bls_pk_hex
  sign_validator_message-Guarded pk_hex state req disk s states named =
      let k = strip_0x_prefix pk_hex in
      rw (is_deposit_upper-of_statement req states)
        (elim (Bool-cases (length k == 2 * bls_pub_key_bytes)) [
          | inl fits ↦ rw fits (check_and_sign-Guarded k state req disk s states named)
          | inr misfit ↦
              rw misfit (refused_with k state req disk s states named disk bad_request refl)
        ])

can_be_slashed-none : (m : BlsSignMsg) → statement_of m ≡ none → can_be_slashed m ≡ false
unfolding statement_of can_be_slashed
can_be_slashed-none (block m) h = cc
can_be_slashed-none (block_upper m) h = cc
can_be_slashed-none (block_v2 m) h = cc
can_be_slashed-none (block_v2_upper m) h = cc
can_be_slashed-none (attestation m) h = cc
can_be_slashed-none (attestation_upper m) h = cc
can_be_slashed-none _ h = refl

module _ (hex : Hex) (serde : Serde) (tree : TreeHash) (bls : Bls) where
  check_and_sign_keeps :
      (k : Text) (state : AppState) (req : BlsSignMsg) (disk : Disk)
      → can_be_slashed req ≡ false
      → (check_and_sign hex serde tree bls k state req disk).1 ≡ disk
  unfolding check_and_sign is_slashable record_and_sign
  check_and_sign_keeps k state req disk other =
      let root = to_signing_root tree req (some state.genesis_fork_version) in
      let signs = (sign_root_cases hex bls k root disk).0 in
      elim (read_cases serde k disk) [
        | inl (_, (e, unread)) ↦ ground (arith, unread)
        | inr (db, found, was_read) ↦ ground (arith, was_read, signs)
      ]

  -- A message that is neither a block nor an attestation leaves the disk as it is.
  pub sign_validator_message_keeps :
      (pk_hex : Text) (state : AppState) (req : BlsSignMsg) (disk : Disk)
      → statement_of req ≡ none
      → (sign_validator_message hex serde tree bls pk_hex state req disk).1 ≡ disk
  unfolding sign_validator_message sanitize_bls_pk_hex
  sign_validator_message_keeps pk_hex state req disk h =
      let k = strip_0x_prefix pk_hex in
      let kept = check_and_sign_keeps k state req disk (can_be_slashed-none req h) in
      elim (Bool-cases (is_deposit_upper req)) [
        | inl deposit ↦ rw deposit
        | inr other ↦ rw other (elim (Bool-cases (length k == 2 * bls_pub_key_bytes)) [
          | inl fits ↦ rw fits kept
          | inr misfit ↦ rw misfit
        ])
      ]
