-- ===== src/External/TreeHash.antt =====
-- The crates `tree_hash` and `tree_hash_derive`: `tree_hash_root().to_fixed_bytes()` of each
-- container that the program hashes.
use validator_guardian.External.Hex.{IsBytes}
use validator_guardian.Prelude.{ℕ, ◌≡◌, length}
use validator_guardian.Eth2.Types.{
  Root, SigningData, ForkData, BeaconBlock, BeaconBlockHeader, AttestationData, AggregateAndProof,
  DepositMessage, DepositData, VoluntaryExit, SyncAggregatorSelectionData, ContributionAndProof,
  ValidatorRegistration,
}

pub record TreeHash : Type 0 where
  pub hash_signing_data : SigningData → Root
  pub hash_fork_data : ForkData → Root
  pub hash_block : BeaconBlock → Root
  pub hash_block_header : BeaconBlockHeader → Root
  pub hash_attestation_data : AttestationData → Root
  pub hash_u64 : ℕ → Root
  pub hash_bytes32 : Root → Root
  pub hash_aggregate_and_proof : AggregateAndProof → Root
  pub hash_deposit_message : DepositMessage → Root
  pub hash_deposit_data : DepositData → Root
  pub hash_voluntary_exit : VoluntaryExit → Root
  pub hash_selection_data : SyncAggregatorSelectionData → Root
  pub hash_contribution_and_proof : ContributionAndProof → Root
  pub hash_registration : ValidatorRegistration → Root

-- A root is an `H256`.
pub record IsTreeHash (tree : TreeHash) : Type 0 where
  pub length-hash_fork_data : (f : ForkData) → length (tree.hash_fork_data f) ≡ 32

-- The root of deposit data is an `H256`.
pub record IsDepositHash (tree : TreeHash) : Type 0 where
  pub length-hash_deposit_data : (d : DepositData) → length (tree.hash_deposit_data d) ≡ 32
  pub hash_deposit_data-IsBytes : (d : DepositData) → IsBytes (tree.hash_deposit_data d)
