-- ===== src/Eth2/Types/Block.antt =====
-- src/eth2/eth_types.rs: the beacon block, its body, and the containers of aggregation and of the
-- sync committees.
use validator_guardian.Prelude.{ℕ, List, Bool}
use validator_guardian.Text.{Bytes}
use validator_guardian.Eth2.Types.Basic.{
  Root, Slot, ValidatorIndex, Gwei, BlsSignature, BlsPubkey, ExecutionAddress, U256, Eth1Data,
  ProposerSlashing, AttesterSlashing, Attestation, Deposit, SignedVoluntaryExit, SyncAggregate,
}

pub record Withdrawal : Type 0 where
  pub index : ℕ
  pub validator_index : ValidatorIndex
  pub address : ExecutionAddress
  pub amount : Gwei

pub record ExecutionPayload : Type 0 where
  pub parent_hash : Root
  pub fee_recipient : ExecutionAddress
  pub state_root : Root
  pub receipts_root : Root
  pub logs_bloom : Bytes
  pub prev_randao : Root
  pub block_number : ℕ
  pub gas_limit : ℕ
  pub gas_used : ℕ
  pub timestamp : ℕ
  pub extra_data : Bytes
  pub base_fee_per_gas : U256
  pub block_hash : Root
  pub transactions : List Bytes
  pub withdrawals : List Withdrawal
  pub excess_data_gas : U256

pub record BlsToExecutionChange : Type 0 where
  pub validator_index : ValidatorIndex
  pub from_bls_pubkey : BlsPubkey
  pub to_execution_address : ExecutionAddress

pub record SignedBlsToExecutionChange : Type 0 where
  pub message : BlsToExecutionChange
  pub signature : BlsSignature

pub record BeaconBlockBody : Type 0 where
  pub randao_reveal : BlsSignature
  pub eth1_data : Eth1Data
  pub graffiti : Bytes
  pub proposer_slashings : List ProposerSlashing
  pub attester_slashings : List AttesterSlashing
  pub attestations : List Attestation
  pub deposits : List Deposit
  pub voluntary_exits : List SignedVoluntaryExit
  pub sync_aggregate : SyncAggregate
  pub execution_payload : ExecutionPayload
  pub bls_to_execution_changes : List SignedBlsToExecutionChange
  pub blob_kzg_commitments : List Bytes

pub record BeaconBlock : Type 0 where
  pub slot : Slot
  pub proposer_index : ValidatorIndex
  pub parent_root : Root
  pub state_root : Root
  pub body : BeaconBlockBody

pub record AggregateAndProof : Type 0 where
  pub aggregator_index : ValidatorIndex
  pub aggregate : Attestation
  pub selection_proof : BlsSignature

pub record SyncCommitteeContribution : Type 0 where
  pub slot : Slot
  pub beacon_block_root : Root
  pub subcommittee_index : ℕ
  pub aggregation_bits : List Bool
  pub signature : BlsSignature

pub record ContributionAndProof : Type 0 where
  pub aggregator_index : ValidatorIndex
  pub contribution : SyncCommitteeContribution
  pub selection_proof : BlsSignature

pub record SyncAggregatorSelectionData : Type 0 where
  pub slot : Slot
  pub subcommittee_index : ℕ

pub record AggregationSlot : Type 0 where
  pub slot : Slot
