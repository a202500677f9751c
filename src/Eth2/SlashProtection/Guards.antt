-- ===== src/Eth2/SlashProtection/Guards.antt =====
-- What the two guarded updates accept, and what they leave behind.
use validator_guardian.Prelude.{
  ◌≤◌, ◌<◌, ◌≡◌, refl, Bool, true, false, arith, leb, if◌then◌else◌, Bool-cases, inl, inr, ◌⊎◌,
}
use validator_guardian.Outcome.{ok, err, slashable_block, slashable_attestation}
use validator_guardian.Eth2.SlashProtection.{
  SlashingProtectionData, SignedBlockSlot, SignedAttestationEpochs, latest, push_or_overwrite,
  get_latest_signed_block_slot, is_slashable_block_slot, new_block,
  get_latest_signed_attestation_epochs, is_slashable_attestation_epochs, new_attestation,
}
use validator_guardian.Eth2.SlashProtection.Latest.{latest-push_or_overwrite}

-- The object `e` records the block beyond all that `d` records.
pub record RecordsBlock (d : SlashingProtectionData) (b : SignedBlockSlot)
    (e : SlashingProtectionData) : Type 0 where
  pub above : get_latest_signed_block_slot d < b.slot
  pub latest_slot : get_latest_signed_block_slot e ≡ b.slot
  pub pubkey : e.pubkey ≡ d.pubkey
  pub attestations : e.signed_attestations ≡ d.signed_attestations

pub record RecordsAttestation (d : SlashingProtectionData) (a : SignedAttestationEpochs)
    (e : SlashingProtectionData) : Type 0 where
  pub source_kept : (get_latest_signed_attestation_epochs d).0 ≤ a.source_epoch
  pub target_above : (get_latest_signed_attestation_epochs d).1 < a.target_epoch
  pub latest_epochs : get_latest_signed_attestation_epochs e ≡ (a.source_epoch, a.target_epoch)
  pub pubkey : e.pubkey ≡ d.pubkey
  pub blocks : e.signed_blocks ≡ d.signed_blocks

RecordsBlock-of :
    (d : SlashingProtectionData) (b : SignedBlockSlot) (growable : Bool)
    → leb b.slot (get_latest_signed_block_slot d) ≡ false
    → RecordsBlock d b (record d { signed_blocks = push_or_overwrite growable d.signed_blocks b })
unfolding get_latest_signed_block_slot
RecordsBlock-of d b growable accepted =
    let above : get_latest_signed_block_slot d < b.slot = ground arith in
    record {
      above = above;
      latest_slot = latest-push_or_overwrite (λ s. s.slot) growable d.signed_blocks b (omega arith);
      pubkey = refl;
      attestations = refl;
    }

-- `new_block` refuses exactly the slots that `is_slashable_block_slot` reports, and an accepted
-- block, with a list that grows or not, becomes the latest one and changes nothing else.
pub new_block_cases :
    (d : SlashingProtectionData) (b : SignedBlockSlot) (growable : Bool)
    → (is_slashable_block_slot d b.slot ≡ true) × (new_block d b growable ≡ err slashable_block)
      ⊎ (is_slashable_block_slot d b.slot ≡ false)
        × ((e : SlashingProtectionData) × (new_block d b growable ≡ ok e) × RecordsBlock d b e)
unfolding new_block is_slashable_block_slot
new_block_cases d b growable = elim (Bool-cases (leb b.slot (get_latest_signed_block_slot d))) [
  | inl refused ↦ inl (refused, rw refused)
  | inr accepted ↦ inr (
    accepted,
    (
      record d { signed_blocks = push_or_overwrite growable d.signed_blocks b },
      rw accepted,
      RecordsBlock-of d b growable accepted,
    ),
  )
]

RecordsAttestation-of :
    (d : SlashingProtectionData) (a : SignedAttestationEpochs) (growable : Bool)
    → is_slashable_attestation_epochs d a.source_epoch a.target_epoch ≡ false
    → RecordsAttestation d a
        (record d { signed_attestations = push_or_overwrite growable d.signed_attestations a })
unfolding get_latest_signed_attestation_epochs is_slashable_attestation_epochs
RecordsAttestation-of d a growable accepted =
    let xs = d.signed_attestations in
    let src : latest (λ s. s.source_epoch) xs ≤ a.source_epoch = ground arith in
    let tgt : latest (λ s. s.target_epoch) xs < a.target_epoch = ground arith in
    record {
      source_kept = src;
      target_above = tgt;
      latest_epochs = cc (
        latest-push_or_overwrite (λ s. s.source_epoch) growable xs a src,
        latest-push_or_overwrite (λ s. s.target_epoch) growable xs a (omega arith),
      );
      pubkey = refl;
      blocks = refl;
    }

new_attestation_of :
    (d : SlashingProtectionData) (a : SignedAttestationEpochs) (growable : Bool)
    → new_attestation d a growable ≡ (
        if is_slashable_attestation_epochs d a.source_epoch a.target_epoch
        then err slashable_attestation
        else ok
            (record d { signed_attestations = push_or_overwrite growable d.signed_attestations a }))
unfolding new_attestation is_slashable_attestation_epochs
new_attestation_of d a growable = ground arith

-- `new_attestation` refuses exactly the pairs of epochs that `is_slashable_attestation_epochs`
-- reports, and an accepted attestation, with a list that grows or not, has the latest source and
-- the latest target and changes nothing else.
pub new_attestation_cases :
    (d : SlashingProtectionData) (a : SignedAttestationEpochs) (growable : Bool)
    → (is_slashable_attestation_epochs d a.source_epoch a.target_epoch ≡ true)
        × (new_attestation d a growable ≡ err slashable_attestation)
      ⊎ (is_slashable_attestation_epochs d a.source_epoch a.target_epoch ≡ false)
        × ((e : SlashingProtectionData) × (new_attestation d a growable ≡ ok e)
            × RecordsAttestation d a e)
new_attestation_cases d a growable =
    elim (Bool-cases (is_slashable_attestation_epochs d a.source_epoch a.target_epoch)) [
      | inl refused ↦ inl (refused, rw (new_attestation_of, refused))
      | inr accepted ↦ inr (
        accepted,
        (
          record d { signed_attestations = push_or_overwrite growable d.signed_attestations a },
          rw (new_attestation_of, accepted),
          RecordsAttestation-of d a growable accepted,
        ),
      )
    ]
