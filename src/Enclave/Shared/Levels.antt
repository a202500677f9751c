-- ===== src/Enclave/Shared/Levels.antt =====
-- How far the records of the keys have come, and what one update does to them.
use validator_guardian.Prelude.{◌≤◌, ◌<◌, ◌≡◌, Option, none, some, arith}
use validator_guardian.External.Hex.{Hex}
use validator_guardian.Eth2.Types.{Slot, Epoch}
use validator_guardian.Eth2.SlashProtection.{
  SlashingProtectionData, SignedBlockSlot, SignedAttestationEpochs, get_latest_signed_block_slot,
  get_latest_signed_attestation_epochs,
}
use validator_guardian.Eth2.SlashProtection.Guards.{RecordsBlock, RecordsAttestation}
use validator_guardian.Eth2.SlashProtection.Storage.{file_path}
use validator_guardian.Eth2.Signing.{
  BlsSignMsg, block_upper, block, block_v2_upper, block_v2, attestation_upper, attestation,
}

-- What a signed message says that can be held against its signer.
pub data Statement : Type 0 where
  proposal : Slot → Statement
  vote : Epoch → Epoch → Statement

unfoldable pub statement_of : BlsSignMsg → Option Statement
statement_of (block_upper m) = some (proposal m.block.slot)
statement_of (block m) = some (proposal m.block.slot)
statement_of (block_v2_upper m) = some (proposal m.beacon_block.block_header.slot)
statement_of (block_v2 m) = some (proposal m.beacon_block.block_header.slot)
statement_of (attestation_upper m) =
    some (vote m.attestation.source.epoch m.attestation.target.epoch)
statement_of (attestation m) = some (vote m.attestation.source.epoch m.attestation.target.epoch)
statement_of _ = none

-- The latest slot, source and target of a record.
pub record Level : Type 0 where
  pub slot : Slot
  pub source : Epoch
  pub target : Epoch

unfoldable pub level_of : Option SlashingProtectionData → Level
level_of none = record { slot = 0; source = 0; target = 0 }
level_of (some d) = record {
  slot = get_latest_signed_block_slot d;
  source = (get_latest_signed_attestation_epochs d).0;
  target = (get_latest_signed_attestation_epochs d).1;
}

pub record LevelLe (a b : Level) : Type 0 where
  pub slot : a.slot ≤ b.slot
  pub source : a.source ≤ b.source
  pub target : a.target ≤ b.target

pub LevelLe-refl : (a : Level) → LevelLe a a
LevelLe-refl a = omega arith

pub LevelLe-trans : {a b c : Level} → LevelLe a b → LevelLe b c → LevelLe a c
LevelLe-trans h k = omega arith

-- The statement lies beyond the level: it may be signed.
abbrev pub IsAbove : Level → Statement → Type 0
IsAbove l (proposal slot) = l.slot < slot
IsAbove l (vote source target) = (l.source ≤ source) × (l.target < target)

-- The level takes the statement in.
abbrev pub Covers : Level → Statement → Type 0
Covers l (proposal slot) = slot ≤ l.slot
Covers l (vote source target) = (source ≤ l.source) × (target ≤ l.target)

-- An object after an update, against the object before.
pub record Extends (hex : Hex) (d e : SlashingProtectionData) (s : Statement) : Type 0 where
  pub same_path : file_path hex e ≡ file_path hex d
  pub grows : LevelLe (level_of (some d)) (level_of (some e))
  pub above : IsAbove (level_of (some d)) s
  pub covers : Covers (level_of (some e)) s

module _ (hex : Hex) where
  pub RecordsBlock-Extends :
      {d e : SlashingProtectionData} {b : SignedBlockSlot}
      → RecordsBlock d b e
      → Extends hex d e (proposal b.slot)
  unfolding level_of file_path get_latest_signed_attestation_epochs
  RecordsBlock-Extends {d} {e} {b} r = record {
    same_path = rw (r.pubkey);
    grows = record {
      slot = omega (arith, r.above, r.latest_slot);
      source = rw (r.attestations) (omega arith);
      target = rw (r.attestations) (omega arith);
    };
    above = r.above;
    covers = omega (arith, r.latest_slot);
  }

  pub RecordsAttestation-Extends :
      {d e : SlashingProtectionData} {a : SignedAttestationEpochs}
      → RecordsAttestation d a e
      → Extends hex d e (vote a.source_epoch a.target_epoch)
  unfolding level_of file_path get_latest_signed_block_slot
  RecordsAttestation-Extends {d} {e} {a} r = record {
    same_path = rw (r.pubkey);
    grows = record {
      slot = rw (r.blocks) (omega arith);
      source = rw (r.latest_epochs) (r.source_kept);
      target = rw (r.latest_epochs) (omega (arith, r.target_above));
    };
    above = (r.source_kept, r.target_above);
    covers = rw (r.latest_epochs) (omega arith, omega arith);
  }
