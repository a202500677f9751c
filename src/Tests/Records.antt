-- ===== src/Tests/Records.antt =====
-- The updates of a record and the key files in the concrete world.
use validator_guardian.Prelude.{◌≡◌, ◌⊎◌, true, false, none, some, [], ◌∷◌, arith}
use validator_guardian.Outcome.{ok, err, slashable_block, slashable_attestation, Error}
use validator_guardian.Crypto.BlsKeys.{bls_agg_sign_from_saved_sk, save_bls_key}
use validator_guardian.Crypto.BlsKeys.Stored.{stored_key, hex_of, sign_saved_cases}
use validator_guardian.Eth2.SlashProtection.{
  SlashingProtectionData, SignedBlockSlot, SignedAttestationEpochs, is_slashable_block_slot,
  new_block, is_slashable_attestation_epochs, new_attestation,
}
use validator_guardian.Eth2.SlashProtection.Guards.{
  RecordsBlock, RecordsAttestation, new_block_cases, new_attestation_cases,
}
use validator_guardian.Disk.{Disk}
use validator_guardian.Crypto.BlsKeys.Saved.{bls_agg_sign_from_saved_sk-save_bls_key}
use validator_guardian.Tests.World.{bls_world-IsBlsKeys, bls_world, disk, fresh, pk_hex}
use validator_guardian.Tests.HexWorld.{hex_world, hex_world-IsHex}

abbrev block : SignedBlockSlot
block = record { slot = 9; signing_root = none }

abbrev attestation : SignedAttestationEpochs
attestation = record { source_epoch = 3; target_epoch = 4; signing_root = none }

new_block_cases_example :
    (is_slashable_block_slot fresh block.slot ≡ true)
      × (new_block fresh block false ≡ err slashable_block)
    ⊎ (is_slashable_block_slot fresh block.slot ≡ false)
      × ((e : SlashingProtectionData) × (new_block fresh block false ≡ ok e)
          × RecordsBlock fresh block e)
new_block_cases_example = new_block_cases fresh block false

new_attestation_cases_example :
    (is_slashable_attestation_epochs fresh attestation.source_epoch attestation.target_epoch ≡ true)
      × (new_attestation fresh attestation true ≡ err slashable_attestation)
    ⊎ (is_slashable_attestation_epochs fresh attestation.source_epoch attestation.target_epoch
        ≡ false)
      × ((e : SlashingProtectionData) × (new_attestation fresh attestation true ≡ ok e)
          × RecordsAttestation fresh attestation e)
new_attestation_cases_example = new_attestation_cases fresh attestation true

sign_saved_cases_example :
    ((e : Error) × (bls_agg_sign_from_saved_sk hex_world bls_world pk_hex (1 ∷ []) disk
          ≡ (err e, disk)))
      × ((sk : bls_world.SecretKeySet)
          → stored_key hex_world bls_world disk.files pk_hex ≡ some sk
          → ¬ (pk_hex ≡ hex_of hex_world bls_world sk))
    ⊎ ((sk : bls_world.SecretKeySet) × (stored_key hex_world bls_world disk.files pk_hex ≡ some sk)
        × (pk_hex ≡ hex_of hex_world bls_world sk)
        × (bls_agg_sign_from_saved_sk hex_world bls_world pk_hex (1 ∷ []) disk
            ≡ (ok (bls_world.sign (bls_world.secret_key sk) (1 ∷ [])), disk)))
sign_saved_cases_example = sign_saved_cases hex_world bls_world pk_hex (1 ∷ []) disk

bls_agg_sign_from_saved_sk-save_bls_key_example :
    ((e : Error) × (disk' : Disk) × (save_bls_key hex_world bls_world (2, 9) disk ≡ (err e, disk'))
      × (disk'.files ≡ disk.files))
    ⊎ ((disk' : Disk) × (save_bls_key hex_world bls_world (2, 9) disk ≡ (ok tt, disk'))
        × (bls_agg_sign_from_saved_sk hex_world bls_world
              (hex_of hex_world bls_world (2, 9))
              (1 ∷ 2 ∷ [])
              disk'
            ≡ (ok (bls_world.sign (bls_world.secret_key (2, 9)) (1 ∷ 2 ∷ [])), disk')))
bls_agg_sign_from_saved_sk-save_bls_key_example =
    bls_agg_sign_from_saved_sk-save_bls_key hex_world bls_world hex_world-IsHex bls_world-IsBlsKeys
      (2, 9) (1 ∷ 2 ∷ []) disk (omega arith, (omega arith, tt))
