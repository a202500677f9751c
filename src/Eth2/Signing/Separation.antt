-- ===== src/Eth2/Signing/Separation.antt =====
-- src/eth2/eth_signing.rs: the signing roots of different kinds of messages.
use validator_guardian.Prelude.{◌≡◌, ◌≢◌, refl, ap, sym, ◌∙◌, Option, take, true}
use validator_guardian.External.TreeHash.{TreeHash, IsTreeHash}
use validator_guardian.Eth2.Types.{
  Version, DomainType, SigningData, domain_beacon_proposer, domain_beacon_attester, domain_randao,
  domain_deposit, domain_voluntary_exit, domain_selection_proof, domain_aggregate_and_proof,
  domain_sync_committee, domain_sync_committee_selection_proof, domain_contribution_and_proof,
  domain_application_builder,
}
use validator_guardian.Eth2.Signing.{
  BlsSignMsg, block_upper, block, block_v2_upper, block_v2, attestation_upper, attestation,
  randao_reveal_upper, randao_reveal, aggregate_and_proof_upper, aggregate_and_proof,
  aggregation_slot_upper, aggregation_slot, deposit_upper, deposit, voluntary_exit_upper,
  voluntary_exit, sync_committee_message_upper, sync_committee_message,
  sync_committee_selection_proof_upper, sync_committee_selection_proof,
  sync_committee_contribution_and_proof_upper, sync_committee_contribution_and_proof,
  validator_registration_upper, validator_registration, can_be_slashed, compute_signing_root,
  get_domain, to_signing_root,
}
use validator_guardian.Eth2.Signing.Domains.{compute_domain_shape}

-- The domain type that the consensus specification gives each kind of message.
unfoldable pub domain_type_of : BlsSignMsg → DomainType
domain_type_of (block_upper m) = domain_beacon_proposer
domain_type_of (block m) = domain_beacon_proposer
domain_type_of (block_v2_upper m) = domain_beacon_proposer
domain_type_of (block_v2 m) = domain_beacon_proposer
domain_type_of (attestation_upper m) = domain_beacon_attester
domain_type_of (attestation m) = domain_beacon_attester
domain_type_of (randao_reveal_upper m) = domain_randao
domain_type_of (randao_reveal m) = domain_randao
domain_type_of (aggregate_and_proof_upper m) = domain_aggregate_and_proof
domain_type_of (aggregate_and_proof m) = domain_aggregate_and_proof
domain_type_of (aggregation_slot_upper m) = domain_selection_proof
domain_type_of (aggregation_slot m) = domain_selection_proof
domain_type_of (deposit_upper m) = domain_deposit
domain_type_of (deposit m) = domain_deposit
domain_type_of (voluntary_exit_upper m) = domain_voluntary_exit
domain_type_of (voluntary_exit m) = domain_voluntary_exit
domain_type_of (sync_committee_message_upper m) = domain_sync_committee
domain_type_of (sync_committee_message m) = domain_sync_committee
domain_type_of (sync_committee_selection_proof_upper m) = domain_sync_committee_selection_proof
domain_type_of (sync_committee_selection_proof m) = domain_sync_committee_selection_proof
domain_type_of (sync_committee_contribution_and_proof_upper m) = domain_contribution_and_proof
domain_type_of (sync_committee_contribution_and_proof m) = domain_contribution_and_proof
domain_type_of (validator_registration_upper m) = domain_application_builder
domain_type_of (validator_registration m) = domain_application_builder

-- The root of a message that can be slashed does not depend on the genesis fork version.
pub to_signing_root_version :
    (tree : TreeHash) (m : BlsSignMsg) (v w : Option Version)
    → can_be_slashed m ≡ true
    → to_signing_root tree m v ≡ to_signing_root tree m w
unfolding can_be_slashed to_signing_root
to_signing_root_version tree (validator_registration m) v w h = cc
to_signing_root_version tree (validator_registration_upper m) v w h = cc
to_signing_root_version tree _ v w h = refl

module _ (tree : TreeHash) (is_hash : IsTreeHash tree) where
  -- A root is the hash of signing data whose domain begins with the domain type.
  signing_data :
      (m : BlsSignMsg) (v : Option Version)
      → (d : SigningData) × (to_signing_root tree m v ≡ tree.hash_signing_data d)
        × (take 4 d.domain ≡ domain_type_of m)
  unfolding to_signing_root compute_signing_root get_domain domain_type_of
  signing_data (block m) v = (_, refl, (compute_domain_shape tree is_hash _ _ _ refl).1)
  signing_data _ v = (_, refl, (compute_domain_shape tree is_hash _ _ _ refl).1)

  -- Two messages whose kinds have different domain types have different signing roots, or they
  -- show a collision of the tree hash.
  pub domain_separation :
      (m n : BlsSignMsg) (v w : Option Version)
      → domain_type_of m ≢ domain_type_of n
      → to_signing_root tree m v ≡ to_signing_root tree n w
      → (a b : SigningData) × (a ≢ b) × (tree.hash_signing_data a ≡ tree.hash_signing_data b)
  domain_separation m n v w differ same =
      let (a, root_a, type_a) = signing_data m v in
      let (b, root_b, type_b) = signing_data n w in
      (
        a,
        b,
        λ e. differ (sym type_a ∙ ap (λ d. take 4 d.domain) e ∙ type_b),
        sym root_a ∙ same ∙ root_b,
      )
