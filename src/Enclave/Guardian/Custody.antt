-- ===== src/Enclave/Guardian/Custody.antt =====
-- src/enclave/guardian/mod.rs: the outcomes of verify_and_sign_custody_received.
use validator_guardian.Prelude.{
  ◌≡◌, refl, sym, subst, ◌⊎◌, inl, inr, true, some, arith, length, if◌then◌else◌, ◌∙◌,
}
use validator_guardian.Text.{Text, strip_0x_prefix}
use validator_guardian.Outcome.{
  Outcome, Error, ok, err, panic, Outcome-cases, ok_inj, missing_eth_key,
}
use validator_guardian.Disk.{Disk, insert, join}
use validator_guardian.Constants.{bls_keys_dir}
use validator_guardian.External.Hex.{Hex}
use validator_guardian.External.Ssz.{Ssz}
use validator_guardian.External.Secp.{Secp}
use validator_guardian.External.Bls.{Bls}
use validator_guardian.External.TreeHash.{TreeHash}
use validator_guardian.External.Ethers.{Ethers}
use validator_guardian.External.Session.{Registry}
use validator_guardian.Io.KeyManagement.{write_bls_key}
use validator_guardian.Io.KeyManagement.Laws.{write_key_cases}
use validator_guardian.Crypto.EthKeys.{eth_pk_to_hex}
use validator_guardian.Crypto.EthKeys.Stored.{stored_eth_key, fetch_eth_key_cases}
use validator_guardian.Enclave.Session.{verify_session_evidence}
use validator_guardian.Enclave.Guardian.{
  ValidateCustodyRequest, ValidateCustodyResponse, verify_deposit_message, verify_custody,
  checked_share, approve_custody, save_share, fetch_guardian_key, verify_and_sign_custody_received,
}
use validator_guardian.Enclave.Guardian.Share.{FirstOpens, public_key_set_iff, verify_custody_cases}
use validator_guardian.Enclave.Guardian.Deposit.{IsDeposit, verify_deposit_message-IsDeposit}

module _ (hex : Hex) (ssz : Ssz) (tree : TreeHash) (secp : Secp) (bls : Bls) (ethers : Ethers)
    (registry : Registry) (request : ValidateCustodyRequest secp) where
  open bls use {PublicKeySet, SecretKeyShare, public_key, public_key_to_hex}
  open request use {keygen_payload, guardian_enclave_public_key, workload_id, validator_index}

  -- The session is verified where that is asked for, the deposit is signed by the key that the
  -- payload states, and `share` is the first share that opens under the guardian's key.
  pub record Checked (sk : secp.SecretKey) (share : SecretKeyShare) : Type 0 where
    pub session :
        request.verify_session ≡ true
        → verify_session_evidence hex ssz secp bls registry keygen_payload workload_id ≡ ok tt
    pub pk_set : PublicKeySet
    pub deposit : IsDeposit hex tree bls keygen_payload pk_set
    pub matched : public_key_to_hex (public_key pk_set) ≡ strip_0x_prefix keygen_payload.bls_pub_key
    pub opened :
        FirstOpens hex secp bls keygen_payload sk pk_set 0
          (length keygen_payload.bls_enc_priv_key_shares)
          share

  abbrev session_check : Outcome (Unit {0})
  session_check =
      if request.verify_session
      then verify_session_evidence hex ssz secp bls registry keygen_payload workload_id
      else ok tt

  session_check_ok :
      session_check ≡ ok tt
      → request.verify_session ≡ true
      → verify_session_evidence hex ssz secp bls registry keygen_payload workload_id ≡ ok tt
  session_check_ok h asked = ground arith

  Checked-of :
      (sk : secp.SecretKey) (share : SecretKeyShare)
      → session_check ≡ ok tt
      → (pk_set : PublicKeySet) × IsDeposit hex tree bls keygen_payload pk_set
      → verify_custody hex secp bls keygen_payload sk ≡ ok share
      → Checked sk share
  Checked-of sk share passed (pk_set, deposit) h =
      elim (verify_custody_cases hex secp bls keygen_payload sk) [
        | inl ((e, failed), shut) ↦ absurd (cc (failed, h))
        | inr (pk_set', share', found, parses, matched, first) ↦ record {
          session = session_check_ok passed;
          pk_set = pk_set';
          deposit =
              subst (λ p. IsDeposit hex tree bls keygen_payload p)
                (ok_inj (
                  sym deposit.parses
                  ∙ (public_key_set_iff hex secp bls keygen_payload sk pk_set').1 parses))
                deposit;
          matched = matched;
          opened =
              subst
                (λ s.
                  FirstOpens hex secp bls keygen_payload sk pk_set' 0
                    (length keygen_payload.bls_enc_priv_key_shares) s)
                (ok_inj (sym found ∙ h)) first;
        }
      ]

  -- A share that passes the checks has all of that.
  checked_share-Checked :
      (sk : secp.SecretKey) (share : SecretKeyShare)
      → checked_share hex ssz tree secp bls ethers registry request sk ≡ ok share
      → Checked sk share
  unfolding checked_share
  checked_share-Checked sk share h = elim (Outcome-cases session_check) [
    | inl (tt, passed) ↦ elim (Outcome-cases (verify_deposit_message hex tree bls keygen_payload)) [
      | inl (tt, signed) ↦
          Checked-of sk share passed
            (verify_deposit_message-IsDeposit hex tree bls keygen_payload signed)
            (ground (arith, passed, signed, h))
      | inr (inl (e, bad)) ↦ absurd (ground (arith, passed, bad, h))
      | inr (inr bad) ↦ absurd (ground (arith, passed, bad, h))
    ]
    | inr (inl (e, bad)) ↦ absurd (ground (arith, bad, h))
    | inr (inr bad) ↦ absurd (ground (arith, bad, h))
  ]

  -- the file of a share, and what it holds
  abbrev pub share_path : SecretKeyShare → Text
  share_path share = join bls_keys_dir (
      strip_0x_prefix
        (hex.encode (bls.public_key_share_to_bytes (bls.derive_public_key_share share))))

  abbrev pub share_text : SecretKeyShare → Text
  share_text share = strip_0x_prefix (hex.encode (bls.secret_key_share_to_bytes share))

  save_share_cases :
      (share : SecretKeyShare) (disk : Disk)
      → ((e : Error) × (disk' : Disk) × (save_share hex tree secp bls ethers share disk
            ≡ (err e, disk'))
          × (disk'.files ≡ disk.files))
        ⊎ ((disk' : Disk) × (save_share hex tree secp bls ethers share disk ≡ (ok tt, disk'))
            × (disk'.files ≡ insert (share_path share) (share_text share) disk.files))
  unfolding save_share write_bls_key
  save_share_cases share disk = write_key_cases (share_path share) (share_text share) disk

  fetch_guardian_key_cases :
      (pk : secp.PublicKey) (disk : Disk)
      → ((e : Error) × (fetch_guardian_key hex tree secp bls ethers pk disk ≡ (err e, disk)))
        ⊎ ((sk : secp.SecretKey) × (stored_eth_key hex secp disk.files (eth_pk_to_hex hex secp pk)
              ≡ some sk)
            × (fetch_guardian_key hex tree secp bls ethers pk disk ≡ (ok sk, disk)))
  unfolding fetch_guardian_key
  fetch_guardian_key_cases pk disk =
      elim (fetch_eth_key_cases hex secp (eth_pk_to_hex hex secp pk) disk) [
        | inl (missing, (e, failed)) ↦ inl (missing_eth_key, ground (arith, failed))
        | inr (sk, stored, fetched) ↦ inr (sk, stored, ground (arith, fetched))
      ]

  abbrev pub answer : Text → ValidateCustodyResponse
  answer approval = record {
    enclave_signature = approval;
    bls_pub_key = keygen_payload.bls_pub_key;
    withdrawal_credentials = keygen_payload.withdrawal_credentials;
    deposit_signature = keygen_payload.signature;
    deposit_data_root = keygen_payload.deposit_data_root;
  }

  abbrev pub IsFailure : Outcome ValidateCustodyResponse → Type 0
  IsFailure o = (resp : ValidateCustodyResponse) → ¬ (o ≡ ok resp)

  -- no answer, and no file changed
  abbrev pub Untouched : Disk → Outcome ValidateCustodyResponse × Disk → Type 0
  Untouched disk r = IsFailure r.0 × (r.1.files ≡ disk.files)

  -- The share is saved, by a guardian with a key on the disk, after all checks; the answer is the
  -- approval, if there is one.
  pub record InCustody (disk : Disk) (r : Outcome ValidateCustodyResponse × Disk) : Type 0 where
    pub sk : secp.SecretKey
    pub share : SecretKeyShare
    pub stored :
        stored_eth_key hex secp disk.files (eth_pk_to_hex hex secp guardian_enclave_public_key)
        ≡ some sk
    pub checked : Checked sk share
    pub saved : r.1.files ≡ insert (share_path share) (share_text share) disk.files
    pub approved :
        IsFailure r.0
        ⊎ ((approval : Text) × (approve_custody hex tree secp bls ethers keygen_payload sk
                validator_index
              ≡ ok approval)
            × (r.0 ≡ ok (answer approval)))

  abbrev run : Disk → Outcome ValidateCustodyResponse × Disk
  run disk = verify_and_sign_custody_received hex ssz tree secp bls ethers registry request disk

  -- a run that ends without an answer
  fails :
      (disk disk' : Disk) (o : Outcome ValidateCustodyResponse)
      → run disk ≡ (o, disk')
      → IsFailure o
      → disk'.files ≡ disk.files
      → Untouched disk (run disk) ⊎ InCustody disk (run disk)
  fails disk disk' o e failure files = inl (subst (λ r. Untouched disk r) (sym e) (failure, files))

  module _ (disk : Disk) (sk : secp.SecretKey) (share : SecretKeyShare) where
    -- a run that saves the share
    saves :
        (disk' : Disk) (o : Outcome ValidateCustodyResponse)
        → stored_eth_key hex secp disk.files (eth_pk_to_hex hex secp guardian_enclave_public_key)
          ≡ some sk
        → checked_share hex ssz tree secp bls ethers registry request sk ≡ ok share
        → disk'.files ≡ insert (share_path share) (share_text share) disk.files
        → run disk ≡ (o, disk')
        → IsFailure o
          ⊎ ((approval : Text) × (approve_custody hex tree secp bls ethers keygen_payload sk
                  validator_index
                ≡ ok approval)
              × (o ≡ ok (answer approval)))
        → Untouched disk (run disk) ⊎ InCustody disk (run disk)
    saves disk' o stored checked saved e approved = inr (
        subst (λ r. InCustody disk r) (sym e)
          (record {
            sk = sk;
            share = share;
            stored = stored;
            checked = checked_share-Checked sk share checked;
            saved = saved;
            approved = approved;
          }))

    save_and_approve :
        stored_eth_key hex secp disk.files (eth_pk_to_hex hex secp guardian_enclave_public_key)
          ≡ some sk
        → checked_share hex ssz tree secp bls ethers registry request sk ≡ ok share
        → fetch_guardian_key hex tree secp bls ethers guardian_enclave_public_key disk
          ≡ (ok sk, disk)
        → Untouched disk (run disk) ⊎ InCustody disk (run disk)
    unfolding verify_and_sign_custody_received
    save_and_approve stored checked fetched = elim (save_share_cases share disk) [
      | inl (e, disk', unsaved, files) ↦
          fails disk disk' (err e) (ground (arith, fetched, checked, unsaved)) (λ resp h. cc h)
            files
      | inr (disk', saved, files) ↦
          elim (Outcome-cases
            (approve_custody hex tree secp bls ethers keygen_payload sk validator_index)) [
              | inl (approval, approved) ↦
                  saves disk' (ok (answer approval)) stored checked files
                    (ground (arith, fetched, checked, saved, approved))
                    (inr (approval, approved, refl))
              | inr (inl (e, failed)) ↦
                  saves disk' (err e) stored checked files
                    (ground (arith, fetched, checked, saved, failed)) (inl λ resp h. cc h)
              | inr (inr failed) ↦
                  saves disk' panic stored checked files
                    (ground (arith, fetched, checked, saved, failed)) (inl λ resp h. cc h)
            ]
    ]

  -- A custody request ends without an answer and with all files as they were; or the guardian's
  -- key is on the disk, the session, the deposit and the share have been checked, the share is
  -- saved under its name and no other file is changed, and the request then ends without an answer
  -- or with the payload's fields under the guardian's approval.
  pub verify_and_sign_custody_received_cases :
      (disk : Disk) → Untouched disk (run disk) ⊎ InCustody disk (run disk)
  unfolding verify_and_sign_custody_received
  verify_and_sign_custody_received_cases disk =
      elim (fetch_guardian_key_cases guardian_enclave_public_key disk) [
        | inl (e, no_key) ↦ fails disk disk (err e) (ground (arith, no_key)) (λ resp h. cc h) refl
        | inr (sk, stored, fetched) ↦
            elim (Outcome-cases (checked_share hex ssz tree secp bls ethers registry request sk)) [
              | inl (share, checked) ↦ save_and_approve disk sk share stored checked fetched
              | inr (inl (e, bad)) ↦
                  fails disk disk (err e) (ground (arith, fetched, bad)) (λ resp h. cc h) refl
              | inr (inr bad) ↦
                  fails disk disk panic (ground (arith, fetched, bad)) (λ resp h. cc h) refl
            ]
      ]
