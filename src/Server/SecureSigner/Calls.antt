-- ===== src/Server/SecureSigner/Calls.antt =====
-- src/bin/secure-signer.rs: what each call leaves of the records of all keys.
use validator_guardian.Prelude.{◌≡◌, refl, ◌∙◌, inl, inr, arith, Bool-cases, some, none}
use validator_guardian.Text.{Text}
use validator_guardian.Outcome.{Outcome-cases}
use validator_guardian.Disk.{Disk, ◌>>=◌, read_dir, lift}
use validator_guardian.Enclave.SecureSigner.{validator_deposit_handler}
use validator_guardian.Enclave.Keys.{
  list_bls_keys_handler, list_bls_keys_for_vc_handler, list_eth_keys_handler,
  new_list_keys_response,
}
use validator_guardian.Io.KeyManagement.{
  list_bls_keys, list_eth_keys, list_fnames, file_names, bls_key_exists,
}
use validator_guardian.Crypto.BlsKeys.{sanitize_bls_pk_hex}
use validator_guardian.Crypto.BlsKeys.Stored.{sign_saved_cases}
use validator_guardian.Eth2.Deposit.{get_deposit_signature, secure_sign}
use validator_guardian.Eth2.Types.{
  DepositRequest, DepositResponse, DepositMessage, Version, domain_deposit,
}
use validator_guardian.Eth2.Signing.{compute_domain, compute_signing_root}
use validator_guardian.Enclave.Types.{
  status_ok, internal_server_error, respond, respond_with, match_result,
}
use validator_guardian.External.Bls.{Bls}
use validator_guardian.External.TreeHash.{TreeHash}
use validator_guardian.External.Hex.{Hex}
use validator_guardian.Constants.{eth_keys_dir, bls_keys_dir}
use validator_guardian.Server.Quiet.{responded_disk, bind_quiet}

read_dir_disk : (dir : Text) (disk : Disk) → (read_dir dir disk).1 ≡ disk
unfolding read_dir
read_dir_disk dir disk = ground arith

list_fnames_disk : (dir : Text) (disk : Disk) → (list_fnames dir disk).1 ≡ disk
unfolding list_fnames
list_fnames_disk dir disk =
    bind_quiet (read_dir dir) (λ paths. lift (file_names paths)) disk (λ paths d. refl)
    ∙ read_dir_disk dir disk

listed_disk :
    (dir : Text) (disk : Disk)
    → (match_result
        (list_fnames dir)
        (λ names. lift (new_list_keys_response names) >>= λ resp. respond_with status_ok resp)
        (λ e. respond internal_server_error)
        disk).1
      ≡ disk
listed_disk dir disk =
    let same = list_fnames_disk dir disk in
    elim (Outcome-cases (list_fnames dir disk).0) [
      | inl (names, e) ↦ elim (Outcome-cases (new_list_keys_response names)) [
        | inl (resp, f) ↦ ground (arith, e, f, same)
        | inr (inl (x, f)) ↦ ground (arith, e, f, same)
        | inr (inr f) ↦ ground (arith, e, f, same)
      ]
      | inr (inl (x, e)) ↦ ground (arith, e, same)
      | inr (inr e) ↦ ground (arith, e, same)
    ]

pub list_bls_keys_disk : (disk : Disk) → (list_bls_keys_handler disk).1 ≡ disk
unfolding list_bls_keys_handler list_bls_keys
list_bls_keys_disk disk = listed_disk bls_keys_dir disk

pub list_bls_keys_for_vc_disk : (disk : Disk) → (list_bls_keys_for_vc_handler disk).1 ≡ disk
unfolding list_bls_keys_for_vc_handler list_bls_keys
list_bls_keys_for_vc_disk disk =
    let same = list_fnames_disk bls_keys_dir disk in
    elim (Outcome-cases (list_fnames bls_keys_dir disk).0) [
      | inl (names, e) ↦ ground (arith, e, same)
      | inr (inl (x, e)) ↦ ground (arith, e, same)
      | inr (inr e) ↦ ground (arith, e, same)
    ]

pub list_eth_keys_disk : (disk : Disk) → (list_eth_keys_handler disk).1 ≡ disk
unfolding list_eth_keys_handler list_eth_keys
list_eth_keys_disk disk = listed_disk eth_keys_dir disk

module _ (hex : Hex) (tree : TreeHash) (bls : Bls) where
  get_deposit_signature_disk :
      (pk_hex : Text) (m : DepositMessage) (version : Version) (disk : Disk)
      → (get_deposit_signature hex tree bls pk_hex m version disk).1 ≡ disk
  unfolding get_deposit_signature secure_sign
  get_deposit_signature_disk pk_hex m version disk =
      elim (sign_saved_cases hex bls pk_hex
        (compute_signing_root tree (tree.hash_deposit_message m)
          (compute_domain tree domain_deposit (some version) none))
        disk) [
          | inl ((e, refused), _) ↦ ground (arith, refused)
          | inr (sk, _, _, done) ↦ ground (arith, done)
        ]

  pub validator_deposit_disk :
      (req : DepositRequest) (disk : Disk)
      → (validator_deposit_handler hex tree bls req disk).1 ≡ disk
  unfolding validator_deposit_handler
  validator_deposit_disk req disk =
      let name = hex.encode req.deposit.pubkey in
      elim (Outcome-cases (sanitize_bls_pk_hex name)) [
        | inl (pk, clean) ↦
            let same = get_deposit_signature_disk pk req.deposit req.genesis_fork_version disk in
            elim (Bool-cases (bls_key_exists pk disk)) [
              | inl there ↦
                  let ended =
                    responded_disk
                      (get_deposit_signature hex tree bls pk req.deposit req.genesis_fork_version)
                      status_ok internal_server_error (λ (resp : DepositResponse). resp) disk in
                  ground (arith, clean, there, same, ended)
              | inr missing ↦ ground (arith, clean, missing)
            ]
        | inr (inl (e, bad)) ↦ ground (arith, bad)
        | inr (inr bad) ↦ ground (arith, bad)
      ]
