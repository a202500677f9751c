-- ===== src/Eth2/Types/Requests.antt =====
-- src/eth2/eth_types.rs: the bodies of the signing requests. The optional root that a client may
-- send along, `signingRoot`, is decoded and never read.
use validator_guardian.Prelude.{Option}
use validator_guardian.Text.{Text}
use validator_guardian.Eth2.Types.Basic.{
  Root, Slot, Version, Gwei, ForkInfo, AttestationData, BeaconBlockHeader, RandaoReveal,
  DepositMessage, VoluntaryExit, ValidatorRegistration,
}
use validator_guardian.Eth2.Types.Block.{
  BeaconBlock, AggregateAndProof, AggregationSlot, SyncAggregatorSelectionData,
  ContributionAndProof,
}

pub record BlockRequest : Type 0 where
  pub fork_info : ForkInfo
  pub signing_root : Option Root
  pub block : BeaconBlock

pub record BlockV2RequestWrapper : Type 0 where
  pub version : Text
  pub block_header : BeaconBlockHeader

pub record BlockV2Request : Type 0 where
  pub fork_info : ForkInfo
  pub signing_root : Option Root
  pub beacon_block : BlockV2RequestWrapper

pub record AttestationRequest : Type 0 where
  pub fork_info : ForkInfo
  pub signing_root : Option Root
  pub attestation : AttestationData

pub record RandaoRevealRequest : Type 0 where
  pub fork_info : ForkInfo
  pub signing_root : Option Root
  pub randao_reveal : RandaoReveal

pub record AggregateAndProofRequest : Type 0 where
  pub fork_info : ForkInfo
  pub signing_root : Option Root
  pub aggregate_and_proof : AggregateAndProof

pub record AggregationSlotRequest : Type 0 where
  pub fork_info : ForkInfo
  pub signing_root : Option Root
  pub aggregation_slot : AggregationSlot

pub record DepositRequest : Type 0 where
  pub signing_root : Option Root
  pub deposit : DepositMessage
  pub genesis_fork_version : Version

pub record DepositResponse : Type 0 where
  pub pubkey : Text
  pub withdrawal_credentials : Text
  pub amount : Gwei
  pub signature : Text
  pub deposit_message_root : Text
  pub deposit_data_root : Text

pub record VoluntaryExitRequest : Type 0 where
  pub fork_info : ForkInfo
  pub signing_root : Option Root
  pub voluntary_exit : VoluntaryExit

pub record SyncCommitteeMessageRequestWrapper : Type 0 where
  pub slot : Slot
  pub beacon_block_root : Root

pub record SyncCommitteeMessageRequest : Type 0 where
  pub fork_info : ForkInfo
  pub signing_root : Option Root
  pub sync_committee_message : SyncCommitteeMessageRequestWrapper

pub record SyncCommitteeSelectionProofRequest : Type 0 where
  pub fork_info : ForkInfo
  pub signing_root : Option Root
  pub sync_aggregator_selection_data : SyncAggregatorSelectionData

pub record SyncCommitteeContributionAndProofRequest : Type 0 where
  pub fork_info : ForkInfo
  pub signing_root : Option Root
  pub contribution_and_proof : ContributionAndProof

pub record ValidatorRegistrationRequest : Type 0 where
  pub signing_root : Option Root
  pub validator_registration : ValidatorRegistration
