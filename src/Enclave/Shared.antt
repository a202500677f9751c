-- ===== src/Enclave/Shared.antt =====
-- src/enclave/shared/mod.rs: the signing endpoint of the secure signer and of the validator, with
-- its slashing protection.
pub mod Records
pub mod Levels
pub mod Update
pub mod Guard
pub mod History
pub mod Attestation
pub mod Saving
pub mod Availability
pub mod Deposits
pub mod Interleaved
use validator_guardian.Prelude.{Bool, true, false, some, none, if◌then◌else◌, Option}
use validator_guardian.Text.{Text}
use validator_guardian.Outcome.{err, not_slashable_type}
use validator_guardian.Disk.{Exec, ◌>>=◌, lift, pure}
use validator_guardian.Constants.{allow_growable_slash_protection_db}
use validator_guardian.External.Hex.{Hex}
use validator_guardian.External.TreeHash.{TreeHash}
use validator_guardian.External.Bls.{Bls}
use validator_guardian.Eth2.Types.{Root, Version, BlockRequest, BlockV2Request, AttestationRequest}
use validator_guardian.Eth2.SlashProtection.{
  SlashingProtectionData, SignedBlockSlot, SignedAttestationEpochs, is_slashable_block_slot,
  new_block, is_slashable_attestation_epochs, new_attestation,
}
use validator_guardian.Eth2.SlashProtection.Storage.{Serde, write, read}
use validator_guardian.Eth2.Signing.{
  BlsSignMsg, block_upper, block, block_v2_upper, block_v2, attestation_upper, attestation,
  deposit_upper, can_be_slashed, to_signing_root,
}
use validator_guardian.Crypto.BlsKeys.{sanitize_bls_pk_hex, bls_agg_sign_from_saved_sk}
use validator_guardian.Enclave.Types.{
  Response, SignatureResponse, status_ok, bad_request, precondition_failed, internal_server_error,
  respond, respond_with, match_result, new_signature_response,
}

pub record AppState : Type 0 where
  pub genesis_fork_version : Version

-- the arms of `is_slashable`, on the record that was read
unfoldable pub verdict : SlashingProtectionData → BlsSignMsg → Bool
verdict db (block_upper m) = is_slashable_block_slot db m.block.slot
verdict db (block m) = is_slashable_block_slot db m.block.slot
verdict db (block_v2_upper m) = is_slashable_block_slot db m.beacon_block.block_header.slot
verdict db (block_v2 m) = is_slashable_block_slot db m.beacon_block.block_header.slot
verdict db (attestation_upper m) =
    is_slashable_attestation_epochs db m.attestation.source.epoch m.attestation.target.epoch
verdict db (attestation m) =
    is_slashable_attestation_epochs db m.attestation.source.epoch m.attestation.target.epoch
verdict db _ = false

-- the record that must exist is read for every message
unfoldable pub is_slashable : Serde → Text → BlsSignMsg → Exec Bool
is_slashable serde bls_pk_hex signing_data = do
  db ← read serde bls_pk_hex
  pure (verdict db signing_data)

module _ (hex : Hex) (serde : Serde) where
  save_block : SlashingProtectionData → SignedBlockSlot → Exec Unit
  save_block db b = do
    db' ← lift (new_block db b allow_growable_slash_protection_db)
    write hex serde db'

  save_attestation : SlashingProtectionData → SignedAttestationEpochs → Exec Unit
  save_attestation db a = do
    db' ← lift (new_attestation db a allow_growable_slash_protection_db)
    write hex serde db'

  -- the arms of `update_slash_protection_db`, on the record that was read and the signing root
  unfoldable pub save : SlashingProtectionData → BlsSignMsg → Root → Exec Unit
  unfolding save_block save_attestation
  save db (block_upper m) root =
      save_block db (record { slot = m.block.slot; signing_root = some root })
  save db (block m) root = save_block db (record { slot = m.block.slot; signing_root = some root })
  save db (block_v2_upper m) root =
      save_block db (record { slot = m.beacon_block.block_header.slot; signing_root = some root })
  save db (block_v2 m) root =
      save_block db (record { slot = m.beacon_block.block_header.slot; signing_root = some root })
  save db (attestation_upper m) root = save_attestation db (record {
    source_epoch = m.attestation.source.epoch;
    target_epoch = m.attestation.target.epoch;
    signing_root = some root;
  })
  save db (attestation m) root = save_attestation db (record {
    source_epoch = m.attestation.source.epoch;
    target_epoch = m.attestation.target.epoch;
    signing_root = some root;
  })
  save db _ root = lift (err not_slashable_type)

  unfoldable pub update_slash_protection_db : TreeHash → Text → BlsSignMsg → Exec Unit
  update_slash_protection_db tree bls_pk_hex signing_data = do
    db ← read serde bls_pk_hex
    save db signing_data (to_signing_root tree signing_data none)

-- `if let BLSSignMsg::DEPOSIT(_) = req`
unfoldable pub is_deposit_upper : BlsSignMsg → Bool
is_deposit_upper (deposit_upper m) = true
is_deposit_upper _ = false

module _ (hex : Hex) (bls : Bls) where
  -- the last `match` of the endpoint
  unfoldable pub sign_root : Text → Root → Exec (Response SignatureResponse)
  sign_root bls_pk_hex signing_root =
      match_result (bls_agg_sign_from_saved_sk hex bls bls_pk_hex signing_root)
        (λ sig. respond_with status_ok (new_signature_response hex (bls.signature_to_bytes sig)))
        (λ e. respond internal_server_error)

module _ (hex : Hex) (serde : Serde) (tree : TreeHash) (bls : Bls) where
  -- the endpoint after the check for slashable messages
  unfoldable pub record_and_sign : Text → AppState → BlsSignMsg → Exec (Response SignatureResponse)
  record_and_sign bls_pk_hex state req =
      let signing_root = to_signing_root tree req (some state.genesis_fork_version) in
      if can_be_slashed req
      then match_result (update_slash_protection_db hex serde tree bls_pk_hex req)
          (λ _. sign_root hex bls bls_pk_hex signing_root) (λ e. respond internal_server_error)
      else sign_root hex bls bls_pk_hex signing_root

  -- the endpoint from the check for slashable messages on
  unfoldable pub check_and_sign : Text → AppState → BlsSignMsg → Exec (Response SignatureResponse)
  check_and_sign bls_pk_hex state req =
      match_result (is_slashable serde bls_pk_hex req)
        (λ slashable.
          if slashable then respond precondition_failed else record_and_sign bls_pk_hex state req)
        (λ e. respond internal_server_error)

  unfoldable pub sign_validator_message :
      Text → AppState → BlsSignMsg → Exec (Response SignatureResponse)
  sign_validator_message bls_pk_hex state req =
      if is_deposit_upper req
      then respond bad_request
      else match_result (lift (sanitize_bls_pk_hex bls_pk_hex)) (λ pk. check_and_sign pk state req)
          (λ e. respond bad_request)
