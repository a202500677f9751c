-- ===== src/Eth2/Signing.antt =====
-- src/eth2/eth_signing.rs: domains, signing roots and the messages that a client asks to sign.
pub mod Domains
pub mod Separation
use validator_guardian.Prelude.{
  ℕ, ◌/◌, Option, none, some, List, [], ◌∷◌, ltb, if◌then◌else◌, take, drop, replicate, Bool, true,
  false,
}
use validator_guardian.External.TreeHash.{TreeHash}
use validator_guardian.Eth2.Types.{
  Root, Slot, Epoch, Version, DomainType, Domain, SigningData, ForkData, ForkInfo, BlockRequest,
  BlockV2Request, AttestationRequest, RandaoRevealRequest, AggregateAndProofRequest,
  AggregationSlotRequest, DepositRequest, VoluntaryExitRequest, SyncCommitteeMessageRequest,
  SyncCommitteeSelectionProofRequest, SyncCommitteeContributionAndProofRequest,
  ValidatorRegistrationRequest, genesis_fork_version, slots_per_epoch, domain_beacon_proposer,
  domain_beacon_attester, domain_randao, domain_deposit, domain_voluntary_exit,
  domain_selection_proof, domain_aggregate_and_proof, domain_sync_committee,
  domain_sync_committee_selection_proof, domain_contribution_and_proof, domain_application_builder,
}

unfoldable pub compute_epoch_at_slot : Slot → Epoch
compute_epoch_at_slot slot = slot / slots_per_epoch

abbrev pub unwrap_or {ℓ} : {A : Type ℓ} → Option A → A → A
unwrap_or none d = d
unwrap_or (some a) d = a

-- `d[i] = *v` for the bytes of `src` in turn, and `iter_mut().zip(src)`: the rest of `dst` stays
unfoldable pub copy_over : List ℕ → List ℕ → List ℕ
copy_over [] dst = dst
copy_over (v ∷ src) [] = []
copy_over (v ∷ src) (d ∷ dst) = v ∷ copy_over src dst

-- `copy_over` at the slice that begins at `i`
unfoldable pub copy_over_from : ℕ → List ℕ → List ℕ → List ℕ
copy_over_from ℕ.zero src dst = copy_over src dst
copy_over_from (ℕ.suc i) src [] = []
copy_over_from (ℕ.suc i) src (d ∷ dst) = d ∷ copy_over_from i src dst

module _ (tree : TreeHash) where
  open tree use {hash_signing_data, hash_fork_data}

  -- the hash of the object, `ssz_object.tree_hash_root()`, comes from the caller
  unfoldable pub compute_signing_root : Root → Domain → Root
  compute_signing_root object_root domain =
      hash_signing_data (record { object_root = object_root; domain = domain })

  unfoldable pub compute_fork_data_root : Version → Root → Root
  compute_fork_data_root current_version genesis_validators_root = hash_fork_data (record {
    current_version = current_version;
    genesis_validators_root = genesis_validators_root;
  })

  unfoldable pub compute_domain : DomainType → Option Version → Option Root → Domain
  compute_domain domain_type fork_version genesis_validators_root =
      let fv = unwrap_or fork_version genesis_fork_version in
      let gvr = unwrap_or genesis_validators_root (replicate 32 0) in
      let fork_data_root = compute_fork_data_root fv gvr in
      let d = copy_over domain_type (replicate 32 0) in copy_over_from 4 (take 28 fork_data_root) d

  unfoldable pub get_domain : ForkInfo → DomainType → Option Epoch → Domain
  get_domain fork_info domain_type epoch =
      let epoch' = unwrap_or epoch fork_info.fork.epoch in
      let fork_version =
        if ltb epoch' fork_info.fork.epoch
        then fork_info.fork.previous_version
        else fork_info.fork.current_version in
      compute_domain domain_type (some fork_version) (some fork_info.genesis_validators_root)

-- A kind of message has two spellings of its `type` tag; `block_upper` is `BLOCK`.
pub data BlsSignMsg : Type 0 where
  block_upper block : BlockRequest → BlsSignMsg
  block_v2_upper block_v2 : BlockV2Request → BlsSignMsg
  attestation_upper attestation : AttestationRequest → BlsSignMsg
  randao_reveal_upper randao_reveal : RandaoRevealRequest → BlsSignMsg
  aggregate_and_proof_upper aggregate_and_proof : AggregateAndProofRequest → BlsSignMsg
  aggregation_slot_upper aggregation_slot : AggregationSlotRequest → BlsSignMsg
  deposit_upper deposit : DepositRequest → BlsSignMsg
  voluntary_exit_upper voluntary_exit : VoluntaryExitRequest → BlsSignMsg
  sync_committee_message_upper sync_committee_message : SyncCommitteeMessageRequest → BlsSignMsg
  sync_committee_selection_proof_upper sync_committee_selection_proof :
      SyncCommitteeSelectionProofRequest → BlsSignMsg
  sync_committee_contribution_and_proof_upper sync_committee_contribution_and_proof :
      SyncCommitteeContributionAndProofRequest → BlsSignMsg
  validator_registration_upper validator_registration : ValidatorRegistrationRequest → BlsSignMsg

unfoldable pub can_be_slashed : BlsSignMsg → Bool
can_be_slashed (block_upper m) = true
can_be_slashed (block m) = true
can_be_slashed (block_v2_upper m) = true
can_be_slashed (block_v2 m) = true
can_be_slashed (attestation_upper m) = true
can_be_slashed (attestation m) = true
can_be_slashed _ = false

module _ (tree : TreeHash) where
  open tree use {
    hash_block, hash_block_header, hash_attestation_data, hash_u64, hash_bytes32,
    hash_aggregate_and_proof, hash_deposit_message, hash_voluntary_exit, hash_selection_data,
    hash_contribution_and_proof, hash_registration,
  }

  -- the arms of `to_signing_root`
  block_root : BlockRequest → Root
  block_root m = compute_signing_root tree (hash_block m.block) (
      get_domain tree m.fork_info domain_beacon_proposer
        (some (compute_epoch_at_slot m.block.slot)))

  block_v2_root : BlockV2Request → Root
  block_v2_root m = compute_signing_root tree (hash_block_header m.beacon_block.block_header) (
      get_domain tree m.fork_info domain_beacon_proposer
        (some (compute_epoch_at_slot m.beacon_block.block_header.slot)))

  attestation_root : AttestationRequest → Root
  attestation_root m =
      compute_signing_root tree (hash_attestation_data m.attestation)
        (get_domain tree m.fork_info domain_beacon_attester (some m.attestation.target.epoch))

  randao_reveal_root : RandaoRevealRequest → Root
  randao_reveal_root m =
      compute_signing_root tree (hash_u64 m.randao_reveal.epoch)
        (get_domain tree m.fork_info domain_randao (some m.randao_reveal.epoch))

  aggregate_and_proof_root : AggregateAndProofRequest → Root
  aggregate_and_proof_root m =
      let epoch = compute_epoch_at_slot m.aggregate_and_proof.aggregate.attestation_data.slot in
      compute_signing_root tree (hash_aggregate_and_proof m.aggregate_and_proof)
        (get_domain tree m.fork_info domain_aggregate_and_proof (some epoch))

  aggregation_slot_root : AggregationSlotRequest → Root
  aggregation_slot_root m =
      let epoch = compute_epoch_at_slot m.aggregation_slot.slot in
      compute_signing_root tree (hash_u64 m.aggregation_slot.slot)
        (get_domain tree m.fork_info domain_selection_proof (some epoch))

  deposit_root : DepositRequest → Root
  deposit_root m =
      compute_signing_root tree (hash_deposit_message m.deposit)
        (compute_domain tree domain_deposit (some m.genesis_fork_version) none)

  voluntary_exit_root : VoluntaryExitRequest → Root
  voluntary_exit_root m =
      compute_signing_root tree (hash_voluntary_exit m.voluntary_exit)
        (get_domain tree m.fork_info domain_voluntary_exit (some m.voluntary_exit.epoch))

  sync_committee_message_root : SyncCommitteeMessageRequest → Root
  sync_committee_message_root m =
      let epoch = compute_epoch_at_slot m.sync_committee_message.slot in
      compute_signing_root tree (hash_bytes32 m.sync_committee_message.beacon_block_root)
        (get_domain tree m.fork_info domain_sync_committee (some epoch))

  selection_proof_root : SyncCommitteeSelectionProofRequest → Root
  selection_proof_root m =
      let epoch = compute_epoch_at_slot m.sync_aggregator_selection_data.slot in
      compute_signing_root tree (hash_selection_data m.sync_aggregator_selection_data)
        (get_domain tree m.fork_info domain_sync_committee_selection_proof (some epoch))

  contribution_root : SyncCommitteeContributionAndProofRequest → Root
  contribution_root m =
      let epoch = compute_epoch_at_slot m.contribution_and_proof.contribution.slot in
      compute_signing_root tree (hash_contribution_and_proof m.contribution_and_proof)
        (get_domain tree m.fork_info domain_contribution_and_proof (some epoch))

  registration_root : ValidatorRegistrationRequest → Option Version → Root
  registration_root m version =
      compute_signing_root tree (hash_registration m.validator_registration)
        (compute_domain tree domain_application_builder version none)

  unfoldable pub to_signing_root : BlsSignMsg → Option Version → Root
  unfolding block_root block_v2_root attestation_root randao_reveal_root aggregate_and_proof_root
      aggregation_slot_root deposit_root voluntary_exit_root sync_committee_message_root
      selection_proof_root contribution_root registration_root
  to_signing_root (block_upper m) v = block_root m
  to_signing_root (block m) v = block_root m
  to_signing_root (block_v2_upper m) v = block_v2_root m
  to_signing_root (block_v2 m) v = block_v2_root m
  to_signing_root (attestation_upper m) v = attestation_root m
  to_signing_root (attestation m) v = attestation_root m
  to_signing_root (randao_reveal_upper m) v = randao_reveal_root m
  to_signing_root (randao_reveal m) v = randao_reveal_root m
  to_signing_root (aggregate_and_proof_upper m) v = aggregate_and_proof_root m
  to_signing_root (aggregate_and_proof m) v = aggregate_and_proof_root m
  to_signing_root (aggregation_slot_upper m) v = aggregation_slot_root m
  to_signing_root (aggregation_slot m) v = aggregation_slot_root m
  to_signing_root (deposit_upper m) v = deposit_root m
  to_signing_root (deposit m) v = deposit_root m
  to_signing_root (voluntary_exit_upper m) v = voluntary_exit_root m
  to_signing_root (voluntary_exit m) v = voluntary_exit_root m
  to_signing_root (sync_committee_message_upper m) v = sync_committee_message_root m
  to_signing_root (sync_committee_message m) v = sync_committee_message_root m
  to_signing_root (sync_committee_selection_proof_upper m) v = selection_proof_root m
  to_signing_root (sync_committee_selection_proof m) v = selection_proof_root m
  to_signing_root (sync_committee_contribution_and_proof_upper m) v = contribution_root m
  to_signing_root (sync_committee_contribution_and_proof m) v = contribution_root m
  to_signing_root (validator_registration_upper m) v = registration_root m v
  to_signing_root (validator_registration m) v = registration_root m v
