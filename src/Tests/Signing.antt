-- ===== src/Tests/Signing.antt =====
-- The signing endpoint in the concrete world.
use validator_guardian.Prelude.{
  ◌≡◌, refl, none, some, List, [], ◌++◌, length, replicate, ◌⊎◌, ◌≢◌, take, ◌∷◌, arith,
}
use validator_guardian.Text.{strip_0x_prefix, text_eq, Text}
use validator_guardian.Outcome.{Outcome, ok}
use validator_guardian.Disk.{
  Disk, join, parent, has_slash, read_file, write_file, create_dir_all, lookup, insert,
}
use validator_guardian.Io.KeyManagement.{read_key, read_bls_key}
use validator_guardian.Crypto.BlsKeys.{
  sanitize_bls_pk_hex, bls_agg_sign_from_saved_sk, fetch_bls_sk, bls_agg_sign,
}
use validator_guardian.Eth2.SlashProtection.Storage.{read, write, file_path}
use validator_guardian.Eth2.Types.{
  SigningData, domain_deposit, genesis_fork_version, DepositRequest,
}
use validator_guardian.Eth2.Signing.{
  can_be_slashed, compute_signing_root, compute_fork_data_root, compute_domain, get_domain,
  to_signing_root,
}
use validator_guardian.Eth2.Signing.Domains.{version_at, compute_domain-eq, get_domain-eq}
use validator_guardian.Eth2.Signing.Separation.{domain_type_of, domain_separation}
use validator_guardian.Eth2.SlashProtection.{
  new_block, new_attestation, is_slashable_block_slot, is_slashable_attestation_epochs,
  get_latest_signed_block_slot, get_latest_signed_attestation_epochs, latest, max_by_key, max_from,
  push_or_overwrite, SlashingProtectionData,
}
use validator_guardian.Enclave.Types.{
  Response, SignatureResponse, new_signature_response, status_ok,
}
use validator_guardian.Enclave.Shared.{
  sign_validator_message, update_slash_protection_db, check_and_sign, record_and_sign, is_slashable,
  verdict, save, sign_root, is_deposit_upper,
}
use validator_guardian.Enclave.Shared.Levels.{proposal, vote, statement_of, level_of}
use validator_guardian.Enclave.Shared.Update.{Failed, Recorded, update_cases}
use validator_guardian.Enclave.Shared.Guard.{
  Guarded, sign_validator_message-Guarded, sign_validator_message_keeps,
}
use validator_guardian.Enclave.Shared.History.{Signed, IsSafe, logged, Step, Run, Run-IsSafe}
use validator_guardian.Enclave.Shared.Availability.{sign_validator_message_signs}
use validator_guardian.Enclave.Shared.Deposits.{DepositAnswers, sign_validator_message_deposits}
use validator_guardian.Enclave.Shared.Records.{recorded}
use validator_guardian.Crypto.BlsKeys.Stored.{stored_key}
use validator_guardian.Io.KeyManagement.Laws.{key_bytes}
use validator_guardian.Tests.SerdeWorld.{
  text_of, serde_world, serde_world-IsSerde, print, parse, put_bytes, get_bytes, put_items,
  get_items, put_block, get_block, put_attestation, get_attestation, put_root, get_root,
}
use validator_guardian.Tests.World.{
  fresh, tree_world, tree_world-IsTreeHash, bls_world, disk, disk-WellNamed, pk_hex, state,
  block_at, vote_from, randao_at, selection_at, fork_info,
}
use validator_guardian.Tests.HexWorld.{hex_world, encode, decode, digit, value, byte_of}

abbrev Answer : Type 0
Answer = Outcome (Response SignatureResponse) × Disk

abbrev after_block : Answer
after_block =
    sign_validator_message hex_world serde_world tree_world bls_world pk_hex state (block_at 5) disk

abbrev after_vote : Answer
after_vote =
    sign_validator_message hex_world serde_world tree_world bls_world pk_hex state (vote_from 1 2)
      after_block.1

abbrev history : List Signed
history =
    logged pk_hex (block_at 5) after_block.0 ++ (logged pk_hex (vote_from 1 2) after_vote.0 ++ [])

abbrev life : Run hex_world serde_world tree_world bls_world disk history after_vote.1
life =
    Run.next {disk' = after_block.1}
      (Step.request pk_hex state (block_at 5) after_block.0 refl refl)
      (Run.next (Step.request pk_hex state (vote_from 1 2) after_vote.0 refl refl) Run.here)

Run-IsSafe_example : IsSafe history
Run-IsSafe_example =
    Run-IsSafe hex_world serde_world tree_world bls_world serde_world-IsSerde disk-WellNamed life

-- Both requests were answered with a signature.
length-history : length history ≡ 2
unfolding sign_validator_message check_and_sign record_and_sign is_slashable verdict save
    update_slash_protection_db sign_root is_deposit_upper sanitize_bls_pk_hex strip_0x_prefix logged
    statement_of can_be_slashed read write file_path join parent has_slash read_file write_file
    create_dir_all lookup insert text_eq new_block new_attestation get_latest_signed_block_slot
    get_latest_signed_attestation_epochs is_slashable_block_slot is_slashable_attestation_epochs
    latest max_by_key max_from push_or_overwrite to_signing_root print parse put_bytes get_bytes
    put_items get_items put_block get_block put_attestation get_attestation put_root get_root
    bls_agg_sign_from_saved_sk fetch_bls_sk read_bls_key read_key bls_agg_sign encode decode digit
    value byte_of compute_signing_root new_signature_response
length-history = refl

sign_validator_message-Guarded_example :
    Guarded hex_world serde_world tree_world bls_world serde_world-IsSerde
      (strip_0x_prefix pk_hex)
      (proposal 5)
      (to_signing_root tree_world (block_at 5) (some state.genesis_fork_version))
      disk
      (sign_validator_message hex_world serde_world tree_world bls_world pk_hex state
        (block_at 5)
        disk)
unfolding statement_of
sign_validator_message-Guarded_example =
    sign_validator_message-Guarded hex_world serde_world tree_world bls_world serde_world-IsSerde
      pk_hex state (block_at 5) disk (proposal 5) refl disk-WellNamed

sign_validator_message_keeps_example :
    (sign_validator_message hex_world serde_world tree_world bls_world pk_hex state
      (randao_at 4)
      disk).1
    ≡ disk
unfolding statement_of
sign_validator_message_keeps_example =
    sign_validator_message_keeps hex_world serde_world tree_world bls_world pk_hex state
      (randao_at 4) disk refl

update_cases_example :
    Failed hex_world serde_world disk
      (update_slash_protection_db hex_world serde_world tree_world pk_hex (vote_from 1 2) disk)
    ⊎ ((disk' : Disk) × (update_slash_protection_db hex_world serde_world tree_world pk_hex
            (vote_from 1 2)
            disk
          ≡ (ok tt, disk'))
        × Recorded hex_world serde_world serde_world-IsSerde pk_hex
            (vote 1 2)
            disk.files
            disk'.files)
unfolding statement_of
update_cases_example =
    update_cases hex_world serde_world serde_world-IsSerde tree_world pk_hex (vote_from 1 2) disk
      refl disk-WellNamed

domain_separation_example :
    (a b : SigningData) × (a ≢ b)
    × (tree_world.hash_signing_data a ≡ tree_world.hash_signing_data b)
unfolding domain_type_of to_signing_root compute_signing_root
domain_separation_example =
    domain_separation tree_world tree_world-IsTreeHash (randao_at 9) (selection_at 9) none none
      (λ e. cc e) refl

compute_domain-eq_example :
    compute_domain tree_world domain_deposit none none
    ≡ domain_deposit
      ++ take 28 (compute_fork_data_root tree_world genesis_fork_version (replicate 32 0))
compute_domain-eq_example =
    compute_domain-eq tree_world tree_world-IsTreeHash domain_deposit none none refl

get_domain-eq_example :
    get_domain tree_world fork_info domain_deposit (some 0)
    ≡ domain_deposit
      ++ take 28 (
          compute_fork_data_root tree_world
            (version_at fork_info (some 0))
            fork_info.genesis_validators_root)
get_domain-eq_example =
    get_domain-eq tree_world tree_world-IsTreeHash fork_info domain_deposit (some 0) refl

-- serialisation of records is total, and nothing is refused
pub serde_total :
    (d : SlashingProtectionData) → (json : Text) × (serde_world.to_string d ≡ some json)
unfolding print
serde_total d = (text_of d, refl)

sign_validator_message_signs_example :
    (disk' : Disk) × (sign_validator_message hex_world serde_world tree_world bls_world pk_hex state
        (block_at 5)
        disk
      ≡ (
        ok (record {
          status = status_ok;
          body = some (
              new_signature_response hex_world (
                bls_world.signature_to_bytes (
                  bls_world.sign
                    (bls_world.secret_key (1, 7))
                    (to_signing_root tree_world (block_at 5) (some state.genesis_fork_version)))));
        }),
        disk',
      ))
unfolding statement_of strip_0x_prefix recorded lookup text_eq parse get_bytes get_items get_block
    get_attestation get_root level_of get_latest_signed_block_slot latest max_by_key max_from
    file_path join stored_key key_bytes encode decode digit value byte_of print put_bytes put_items
    put_block put_attestation put_root
sign_validator_message_signs_example =
    sign_validator_message_signs hex_world serde_world tree_world bls_world disk serde_total
      (λ path. refl) pk_hex state (block_at 5) fresh (1, 7) (proposal 5) refl refl refl
      (omega arith) refl refl refl refl

abbrev pub deposit_request : DepositRequest
deposit_request = record {
  signing_root = none;
  deposit = record {
    pubkey = replicate 48 7;
    withdrawal_credentials = replicate 32 1;
    amount = 32;
  };
  genesis_fork_version = 0 ∷ 0 ∷ 0 ∷ 0 ∷ [];
}

sign_validator_message_deposits_example :
    DepositAnswers hex_world serde_world tree_world bls_world pk_hex state deposit_request disk
unfolding strip_0x_prefix recorded lookup text_eq parse get_bytes get_items get_block
    get_attestation get_root file_path join encode decode digit value byte_of print put_bytes
    put_items put_block put_attestation put_root
sign_validator_message_deposits_example =
    sign_validator_message_deposits hex_world serde_world tree_world bls_world pk_hex state
      deposit_request disk fresh refl refl
