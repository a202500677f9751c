-- ===== src/Enclave/Shared/Deposits.antt =====
-- The two spellings of a deposit at the signing endpoint.
use validator_guardian.Prelude.{◌≡◌, ◌⊎◌, ◌∷◌, refl, inl, inr, none, some, arith, length}
use validator_guardian.Text.{Text, strip_0x_prefix}
use validator_guardian.Outcome.{ok}
use validator_guardian.Disk.{Disk}
use validator_guardian.External.Hex.{Hex}
use validator_guardian.External.TreeHash.{TreeHash}
use validator_guardian.External.Bls.{Bls}
use validator_guardian.Eth2.Types.{Root, DepositRequest, domain_deposit}
use validator_guardian.Eth2.SlashProtection.{SlashingProtectionData}
use validator_guardian.Eth2.SlashProtection.Storage.{Serde}
use validator_guardian.Eth2.Signing.{
  deposit_upper, deposit, can_be_slashed, compute_signing_root, compute_domain, to_signing_root,
}
use validator_guardian.Crypto.BlsKeys.{sanitize_bls_pk_hex}
use validator_guardian.Crypto.BlsKeys.Stored.{stored_key, hex_of, sign_saved_cases}
use validator_guardian.Enclave.Types.{
  status_ok, bad_request, internal_server_error, new_signature_response,
}
use validator_guardian.Enclave.Shared.{
  AppState, verdict, is_slashable, is_deposit_upper, sign_root, record_and_sign, check_and_sign,
  sign_validator_message,
}
use validator_guardian.Enclave.Shared.Records.{recorded, read_cases}

module _ (hex : Hex) (serde : Serde) (tree : TreeHash) (bls : Bls) where
  -- the root of a deposit message under the domain of deposits
  abbrev pub deposit_root : DepositRequest → Root
  deposit_root m = tree.hash_signing_data (record {
    object_root = tree.hash_deposit_message m.deposit;
    domain = compute_domain tree domain_deposit (some m.genesis_fork_version) none;
  })

  -- the answers to a deposit under its two tags
  abbrev pub DepositAnswers : Text → AppState → DepositRequest → Disk → Type 0
  DepositAnswers pk_hex state m disk =
      (sign_validator_message hex serde tree bls pk_hex state (deposit_upper m) disk
        ≡ (ok (record { status = bad_request; body = none }), disk))
      × (((sk : bls.SecretKeySet) × (stored_key hex bls disk.files (strip_0x_prefix pk_hex)
              ≡ some sk)
            × (strip_0x_prefix pk_hex ≡ hex_of hex bls sk)
            × (sign_validator_message hex serde tree bls pk_hex state (deposit m) disk ≡ (
              ok (record {
                status = status_ok;
                body = some (record {
                  signature =
                      b'0'
                      ∷ b'x'
                      ∷ hex.encode
                          (bls.signature_to_bytes (bls.sign (bls.secret_key sk) (deposit_root m)));
                });
              }),
              disk,
            )))
          ⊎ (((sk : bls.SecretKeySet)
                → stored_key hex bls disk.files (strip_0x_prefix pk_hex) ≡ some sk
                → ¬ (strip_0x_prefix pk_hex ≡ hex_of hex bls sk))
              × (sign_validator_message hex serde tree bls pk_hex state (deposit m) disk
                  ≡ (ok (record { status = internal_server_error; body = none }), disk))))

  -- A deposit under the tag `DEPOSIT` is refused as a bad request on every disk; the same deposit
  -- under the tag `deposit`, for a key of 96 digits that has a record, is answered with the status
  -- 200 and the signature of the saved key set over the deposit's root if a key set of that public
  -- key is saved, and with the status 500 if none is. The disk stays as it was.
  pub sign_validator_message_deposits :
      (pk_hex : Text) (state : AppState) (m : DepositRequest) (disk : Disk)
      (db : SlashingProtectionData)
      → length (strip_0x_prefix pk_hex) ≡ 96
      → recorded serde disk.files (strip_0x_prefix pk_hex) ≡ some db
      → DepositAnswers pk_hex state m disk
  unfolding sign_validator_message sanitize_bls_pk_hex is_deposit_upper check_and_sign is_slashable
      verdict record_and_sign can_be_slashed to_signing_root sign_root new_signature_response
      compute_signing_root
  sign_validator_message_deposits pk_hex state m disk db fits found =
      elim (read_cases serde (strip_0x_prefix pk_hex) disk) [
        | inl (missing, _) ↦ absurd (cc (missing, found))
        | inr (db', _, was_read) ↦ (
          refl,
          elim (sign_saved_cases hex bls (strip_0x_prefix pk_hex) (deposit_root m) disk) [
            | inl ((e, refused), nobody) ↦ inr (nobody, rw fits (ground (arith, was_read, refused)))
            | inr (sk, stored, same, signed) ↦
                inl (sk, stored, same, rw fits (ground (arith, was_read, signed)))
          ],
        )
      ]
