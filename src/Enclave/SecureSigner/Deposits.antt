-- ===== src/Enclave/SecureSigner/Deposits.antt =====
-- src/enclave/secure_signer/handlers/validator_deposit.rs: every answer of the endpoint.
use validator_guardian.Prelude.{
  ◌≡◌, ◌≢◌, ◌⊎◌, inl, inr, arith, some, none, length, ◌==◌, Bool-cases, ==_iff, true, false, ◌*◌,
}
use validator_guardian.Text.{Text, strip_0x_prefix}
use validator_guardian.Outcome.{ok}
use validator_guardian.Disk.{Disk, join}
use validator_guardian.Constants.{bls_pub_key_bytes, bls_keys_dir}
use validator_guardian.External.Hex.{Hex}
use validator_guardian.External.TreeHash.{TreeHash}
use validator_guardian.External.Bls.{Bls}
use validator_guardian.Eth2.Types.{Root, DepositRequest, DepositResponse, domain_deposit}
use validator_guardian.Eth2.Signing.{compute_domain, compute_signing_root}
use validator_guardian.Eth2.Deposit.{secure_sign, get_deposit_signature, deposit_response}
use validator_guardian.Disk.Resolve.{exists}
use validator_guardian.Io.KeyManagement.{bls_key_exists, key_exists}
use validator_guardian.Crypto.BlsKeys.{sanitize_bls_pk_hex}
use validator_guardian.Crypto.BlsKeys.Stored.{stored_key, hex_of, sign_saved_cases}
use validator_guardian.Enclave.Types.{
  StatusCode, status_ok, bad_request, precondition_failed, internal_server_error,
}
use validator_guardian.Enclave.SecureSigner.{validator_deposit_handler}

module _ (hex : Hex) (tree : TreeHash) (bls : Bls) (req : DepositRequest) (disk : Disk) where
  -- the file name that is asked for
  abbrev pub name_of : Text
  name_of = strip_0x_prefix (hex.encode req.deposit.pubkey)

  abbrev pub key_file : Text
  key_file = join bls_keys_dir (strip_0x_prefix name_of)

  -- what is signed: the root of the deposit message under the domain of deposits
  abbrev pub root_of : Root
  root_of = tree.hash_signing_data (record {
    object_root = tree.hash_deposit_message req.deposit;
    domain = compute_domain tree domain_deposit (some req.genesis_fork_version) none;
  })

  -- the deposit with the signature of a key set, and its two roots
  abbrev pub signed_deposit : bls.SecretKeySet → DepositResponse
  signed_deposit sk =
      let sig = bls.signature_to_bytes (bls.sign (bls.secret_key sk) root_of) in
      record {
        pubkey = hex.encode req.deposit.pubkey;
        withdrawal_credentials = hex.encode req.deposit.withdrawal_credentials;
        amount = req.deposit.amount;
        signature = hex.encode sig;
        deposit_message_root = hex.encode (tree.hash_deposit_message req.deposit);
        deposit_data_root = hex.encode (
            tree.hash_deposit_data (record {
              pubkey = req.deposit.pubkey;
              withdrawal_credentials = req.deposit.withdrawal_credentials;
              amount = req.deposit.amount;
              signature = sig;
            }));
      }

  -- no signature, and the disk as it was
  abbrev pub RefusesWith : StatusCode → Type 0
  RefusesWith code =
      validator_deposit_handler hex tree bls req disk
      ≡ (ok (record { status = code; body = none }), disk)

  abbrev pub Answers : Type 0
  Answers =
      (length name_of ≢ 96) × RefusesWith bad_request
      ⊎ ((length name_of ≡ 96) × (exists key_file disk ≡ false) × RefusesWith precondition_failed
          ⊎ ((length name_of ≡ 96)
                × (exists key_file disk ≡ true)
                × ((sk : bls.SecretKeySet)
                    → stored_key hex bls disk.files name_of ≡ some sk
                    → ¬ (name_of ≡ hex_of hex bls sk))
                × RefusesWith internal_server_error
              ⊎ ((sk : bls.SecretKeySet) × (length name_of ≡ 96)
                  × (stored_key hex bls disk.files name_of ≡ some sk)
                  × (name_of ≡ hex_of hex bls sk)
                  × (validator_deposit_handler hex tree bls req disk ≡ (
                    ok (record { status = status_ok; body = some (signed_deposit sk) }),
                    disk,
                  )))))

  -- The endpoint answers 400 to a public key whose hex has not 96 digits; 412 if there is no key
  -- file of that name; 500 if the file holds no key set of that public key; and else 200, with the
  -- deposit, its two roots and the signature of that key set. It never changes the disk.
  pub validator_deposit_handler_cases : Answers
  unfolding validator_deposit_handler sanitize_bls_pk_hex get_deposit_signature secure_sign
      deposit_response compute_signing_root bls_key_exists key_exists
  validator_deposit_handler_cases = elim (Bool-cases (length name_of == 2 * bls_pub_key_bytes)) [
    | inr misfit ↦ inl (ground (arith, misfit), ground (arith, misfit))
    | inl fits ↦
        let has_length = (==_iff (length name_of) 96).0 fits in
        elim (Bool-cases (exists key_file disk)) [
          | inr missing ↦ inr (inl (has_length, missing, ground (arith, fits, missing)))
          | inl there ↦ elim (sign_saved_cases hex bls name_of root_of disk) [
            | inl ((e, refused), nobody) ↦
                inr (inr (inl (has_length, there, nobody, ground (arith, fits, there, refused))))
            | inr (sk, found, same, signed) ↦
                inr (inr (inr (sk, has_length, found, same, ground (arith, fits, there, signed))))
          ]
        ]
  ]
