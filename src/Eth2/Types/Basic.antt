-- ===== src/Eth2/Types/Basic.antt =====
-- src/eth2/eth_types.rs: the aliases, the domain constants and the phase 0 containers.
use validator_guardian.Prelude.{ℕ, [], ◌∷◌, List, Bool}
use validator_guardian.Text.{Bytes}

abbrev pub Root : Type 0
Root = Bytes

abbrev pub Slot : Type 0
Slot = ℕ

abbrev pub Epoch : Type 0
Epoch = ℕ

abbrev pub ValidatorIndex : Type 0
ValidatorIndex = ℕ

abbrev pub CommitteeIndex : Type 0
CommitteeIndex = ℕ

abbrev pub Gwei : Type 0
Gwei = ℕ

abbrev pub BlsSignature : Type 0
BlsSignature = Bytes

abbrev pub BlsPubkey : Type 0
BlsPubkey = Bytes

abbrev pub Version : Type 0
Version = Bytes

abbrev pub DomainType : Type 0
DomainType = Bytes

abbrev pub Domain : Type 0
Domain = Bytes

abbrev pub ExecutionAddress : Type 0
ExecutionAddress = Bytes

-- four 64-bit digits, the least first
abbrev pub U256 : Type 0
U256 = List ℕ

abbrev pub domain_beacon_proposer : DomainType
domain_beacon_proposer = 0 ∷ 0 ∷ 0 ∷ 0 ∷ []

abbrev pub domain_beacon_attester : DomainType
domain_beacon_attester = 1 ∷ 0 ∷ 0 ∷ 0 ∷ []

abbrev pub domain_randao : DomainType
domain_randao = 2 ∷ 0 ∷ 0 ∷ 0 ∷ []

abbrev pub domain_deposit : DomainType
domain_deposit = 3 ∷ 0 ∷ 0 ∷ 0 ∷ []

abbrev pub domain_voluntary_exit : DomainType
domain_voluntary_exit = 4 ∷ 0 ∷ 0 ∷ 0 ∷ []

abbrev pub domain_selection_proof : DomainType
domain_selection_proof = 5 ∷ 0 ∷ 0 ∷ 0 ∷ []

abbrev pub domain_aggregate_and_proof : DomainType
domain_aggregate_and_proof = 6 ∷ 0 ∷ 0 ∷ 0 ∷ []

abbrev pub domain_sync_committee : DomainType
domain_sync_committee = 7 ∷ 0 ∷ 0 ∷ 0 ∷ []

abbrev pub domain_sync_committee_selection_proof : DomainType
domain_sync_committee_selection_proof = 8 ∷ 0 ∷ 0 ∷ 0 ∷ []

abbrev pub domain_contribution_and_proof : DomainType
domain_contribution_and_proof = 9 ∷ 0 ∷ 0 ∷ 0 ∷ []

abbrev pub domain_application_builder : DomainType
domain_application_builder = 0 ∷ 0 ∷ 0 ∷ 1 ∷ []

abbrev pub genesis_fork_version : Version
genesis_fork_version = 0 ∷ 0 ∷ 0 ∷ 0 ∷ []

abbrev pub slots_per_epoch : ℕ
slots_per_epoch = 32

pub record SigningData : Type 0 where
  pub object_root : Root
  pub domain : Domain

pub record Fork : Type 0 where
  pub previous_version : Version
  pub current_version : Version
  pub epoch : Epoch

pub record ForkData : Type 0 where
  pub current_version : Version
  pub genesis_validators_root : Root

pub record ForkInfo : Type 0 where
  pub fork : Fork
  pub genesis_validators_root : Root

pub record Checkpoint : Type 0 where
  pub epoch : Epoch
  pub root : Root

pub record RandaoReveal : Type 0 where
  pub epoch : Epoch

pub record AttestationData : Type 0 where
  pub slot : Slot
  pub index : CommitteeIndex
  pub beacon_block_root : Root
  pub source : Checkpoint
  pub target : Checkpoint

pub record BeaconBlockHeader : Type 0 where
  pub slot : Slot
  pub proposer_index : ValidatorIndex
  pub parent_root : Root
  pub state_root : Root
  pub body_root : Root

pub record SignedBeaconBlockHeader : Type 0 where
  pub message : BeaconBlockHeader
  pub signature : BlsSignature

pub record ProposerSlashing : Type 0 where
  pub signed_header_1 : SignedBeaconBlockHeader
  pub signed_header_2 : SignedBeaconBlockHeader

-- the field `data` of the source is `attestation_data` here
pub record IndexedAttestation : Type 0 where
  pub attesting_indices : List ValidatorIndex
  pub attestation_data : AttestationData
  pub signature : BlsSignature

pub record AttesterSlashing : Type 0 where
  pub attestation_1 : IndexedAttestation
  pub attestation_2 : IndexedAttestation

pub record Eth1Data : Type 0 where
  pub deposit_root : Root
  pub deposit_count : ℕ
  pub block_hash : Bytes

pub record DepositMessage : Type 0 where
  pub pubkey : BlsPubkey
  pub withdrawal_credentials : Bytes
  pub amount : Gwei

pub record DepositData : Type 0 where
  pub pubkey : BlsPubkey
  pub withdrawal_credentials : Bytes
  pub amount : Gwei
  pub signature : BlsSignature

pub record Deposit : Type 0 where
  pub proof : List Bytes
  pub deposit_data : DepositData

pub record VoluntaryExit : Type 0 where
  pub epoch : Epoch
  pub validator_index : ValidatorIndex

pub record SignedVoluntaryExit : Type 0 where
  pub message : VoluntaryExit
  pub signature : BlsSignature

pub record ValidatorRegistration : Type 0 where
  pub fee_recipient : ExecutionAddress
  pub gas_limit : ℕ
  pub timestamp : ℕ
  pub pubkey : BlsPubkey

pub record Attestation : Type 0 where
  pub aggregation_bits : List Bool
  pub attestation_data : AttestationData
  pub signature : BlsSignature

pub record SyncAggregate : Type 0 where
  pub sync_committee_bits : List Bool
  pub sync_committee_signature : BlsSignature
