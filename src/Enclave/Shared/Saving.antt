-- ===== src/Enclave/Shared/Saving.antt =====
-- src/enclave/shared/mod.rs: saving a statement that lies beyond the record of its key.
use validator_guardian.Prelude.{
  ◌≡◌, refl, sym, subst, inl, inr, true, false, some, arith, some_inj, Option-cases,
}
use validator_guardian.Text.{Text, text_eq}
use validator_guardian.Outcome.{Outcome, ok, Outcome-cases}
use validator_guardian.Eth2.SlashProtection.{
  new_block, new_attestation, SlashingProtectionData, SignedBlockSlot, SignedAttestationEpochs,
  is_slashable_block_slot, is_slashable_attestation_epochs,
}
use validator_guardian.Disk.{Disk, lookup, lookup-insert, parent, create_dir_all, write_file}
use validator_guardian.Disk.Laws.{with_dir, with_file, create_dir_all_allowed, write_file_allowed}
use validator_guardian.Constants.{allow_growable_slash_protection_db}
use validator_guardian.External.Hex.{Hex}
use validator_guardian.Eth2.Types.{Root}
use validator_guardian.Eth2.SlashProtection.Guards.{new_block_cases, new_attestation_cases}
use validator_guardian.Eth2.SlashProtection.Storage.{Serde, write, file_path}
use validator_guardian.Eth2.Signing.{
  BlsSignMsg, block_upper, block, block_v2_upper, block_v2, attestation_upper, attestation,
  can_be_slashed,
}
use validator_guardian.Enclave.Shared.{verdict, save, save_block, save_attestation}
use validator_guardian.Enclave.Shared.Records.{path_of}
use validator_guardian.Enclave.Shared.Levels.{Statement, statement_of, level_of, IsAbove}
use validator_guardian.Enclave.Shared.Update.{save_cases}
use validator_guardian.Enclave.Shared.Guard.{can_be_slashed-of_statement}

-- What lies beyond a record is not reported as slashable.
pub verdict-IsAbove :
    (db : SlashingProtectionData) (m : BlsSignMsg) {s : Statement}
    → statement_of m ≡ some s
    → IsAbove (level_of (some db)) s
    → verdict db m ≡ false
unfolding verdict statement_of level_of is_slashable_block_slot is_slashable_attestation_epochs
verdict-IsAbove db (block_upper m) h above =
    let a = subst (λ s. IsAbove (level_of (some db)) s) (sym (some_inj h)) above in
    ground (arith, a)
verdict-IsAbove db (block m) h above =
    let a = subst (λ s. IsAbove (level_of (some db)) s) (sym (some_inj h)) above in
    ground (arith, a)
verdict-IsAbove db (block_v2_upper m) h above =
    let a = subst (λ s. IsAbove (level_of (some db)) s) (sym (some_inj h)) above in
    ground (arith, a)
verdict-IsAbove db (block_v2 m) h above =
    let a = subst (λ s. IsAbove (level_of (some db)) s) (sym (some_inj h)) above in
    ground (arith, a)
verdict-IsAbove db (attestation_upper m) h above =
    let a = subst (λ s. IsAbove (level_of (some db)) s) (sym (some_inj h)) above in
    ground (arith, a)
verdict-IsAbove db (attestation m) h above =
    let a = subst (λ s. IsAbove (level_of (some db)) s) (sym (some_inj h)) above in
    ground (arith, a)
verdict-IsAbove db _ h above = cc

module _ (hex : Hex) (serde : Serde) (disk : Disk)
    (total : (d : SlashingProtectionData) → (json : Text) × (serde.to_string d ≡ some json))
    (allowed : (path : Text) → disk.denied path ≡ false) where
  -- Nothing is refused: the call succeeds.
  abbrev Succeeds : Outcome (Unit {0}) × Disk → Type 0
  Succeeds r = (disk' : Disk) × (r ≡ (ok tt, disk'))

  write-Succeeds : (d : SlashingProtectionData) → Succeeds (write hex serde d disk)
  unfolding write
  write-Succeeds d =
      let path = file_path hex d in
      let made = with_dir disk (parent path) in
      let (json, text) = total d in
      (
        with_file made path json,
        ground (
          arith,
          create_dir_all_allowed disk (parent path) (allowed (parent path)),
          write_file_allowed made path json (allowed path),
          text,
        ),
      )

  save_block-Succeeds :
      (db : SlashingProtectionData) (b : SignedBlockSlot)
      → is_slashable_block_slot db b.slot ≡ false
      → Succeeds (save_block hex serde db b disk)
  unfolding save_block
  save_block-Succeeds db b fine = elim (new_block_cases db b allow_growable_slash_protection_db) [
    | inl (slashable, _) ↦ absurd (cc (slashable, fine))
    | inr (_, (db', accepted, _)) ↦
        let (disk', wrote) = write-Succeeds db' in (disk', ground (arith, accepted, wrote))
  ]

  save_attestation-Succeeds :
      (db : SlashingProtectionData) (a : SignedAttestationEpochs)
      → is_slashable_attestation_epochs db a.source_epoch a.target_epoch ≡ false
      → Succeeds (save_attestation hex serde db a disk)
  unfolding save_attestation
  save_attestation-Succeeds db a fine =
      elim (new_attestation_cases db a allow_growable_slash_protection_db) [
        | inl (slashable, _) ↦ absurd (cc (slashable, fine))
        | inr (_, (db', accepted, _)) ↦
            let (disk', wrote) = write-Succeeds db' in (disk', ground (arith, accepted, wrote))
      ]

  save-Succeeds :
      (db : SlashingProtectionData) (m : BlsSignMsg) (root : Root)
      → can_be_slashed m ≡ true
      → verdict db m ≡ false
      → Succeeds (save hex serde db m root disk)
  unfolding save verdict can_be_slashed
  save-Succeeds db (block_upper m) root h fine = save_block-Succeeds db _ fine
  save-Succeeds db (block m) root h fine = save_block-Succeeds db _ fine
  save-Succeeds db (block_v2_upper m) root h fine = save_block-Succeeds db _ fine
  save-Succeeds db (block_v2 m) root h fine = save_block-Succeeds db _ fine
  save-Succeeds db (attestation_upper m) root h fine = save_attestation-Succeeds db _ fine
  save-Succeeds db (attestation m) root h fine = save_attestation-Succeeds db _ fine
  save-Succeeds db _ root h fine = cc

-- writing does not change what the environment refuses
write-denied :
    (hex : Hex) (serde : Serde) (d : SlashingProtectionData) (disk : Disk) (path : Text)
    → (write hex serde d disk).1.denied path ≡ disk.denied path
unfolding write create_dir_all write_file
write-denied hex serde d disk path = elim (Option-cases (serde.to_string d)) [
  | inl bad ↦ ground (arith, bad)
  | inr (json, text) ↦ ground (arith, text)
]

save_block-denied :
    (hex : Hex) (serde : Serde) (db : SlashingProtectionData) (b : SignedBlockSlot) (disk : Disk)
    (path : Text)
    → (save_block hex serde db b disk).1.denied path ≡ disk.denied path
unfolding save_block
save_block-denied hex serde db b disk path =
    elim (Outcome-cases (new_block db b allow_growable_slash_protection_db)) [
      | inl (db', e) ↦ ground (arith, e, write-denied hex serde db' disk path)
      | inr (inl (x, e)) ↦ ground (arith, e)
      | inr (inr e) ↦ ground (arith, e)
    ]

save_attestation-denied :
    (hex : Hex) (serde : Serde) (db : SlashingProtectionData) (a : SignedAttestationEpochs)
    (disk : Disk) (path : Text)
    → (save_attestation hex serde db a disk).1.denied path ≡ disk.denied path
unfolding save_attestation
save_attestation-denied hex serde db a disk path =
    elim (Outcome-cases (new_attestation db a allow_growable_slash_protection_db)) [
      | inl (db', e) ↦ ground (arith, e, write-denied hex serde db' disk path)
      | inr (inl (x, e)) ↦ ground (arith, e)
      | inr (inr e) ↦ ground (arith, e)
    ]

save-denied :
    (hex : Hex) (serde : Serde) (db : SlashingProtectionData) (m : BlsSignMsg) (root : Root)
    (disk : Disk) (path : Text)
    → (save hex serde db m root disk).1.denied path ≡ disk.denied path
unfolding save
save-denied hex serde db (block_upper m) root disk path = save_block-denied hex serde db _ disk path
save-denied hex serde db (block m) root disk path = save_block-denied hex serde db _ disk path
save-denied hex serde db (block_v2_upper m) root disk path =
    save_block-denied hex serde db _ disk path
save-denied hex serde db (block_v2 m) root disk path = save_block-denied hex serde db _ disk path
save-denied hex serde db (attestation_upper m) root disk path =
    save_attestation-denied hex serde db _ disk path
save-denied hex serde db (attestation m) root disk path =
    save_attestation-denied hex serde db _ disk path
save-denied hex serde db _ root disk path = refl

module _ (hex : Hex) (serde : Serde) (disk : Disk)
    (total : (d : SlashingProtectionData) → (json : Text) × (serde.to_string d ≡ some json))
    (allowed : (path : Text) → disk.denied path ≡ false) where
  -- saving to a record succeeds, and leaves the other files and the permissions
  pub save_and_keep :
      (k : Text) (m : BlsSignMsg) (root : Root) (db : SlashingProtectionData) {s : Statement}
      → statement_of m ≡ some s
      → IsAbove (level_of (some db)) s
      → file_path hex db ≡ path_of k
      → (disk' : Disk) × (save hex serde db m root disk ≡ (ok tt, disk'))
        × ((path : Text)
            → text_eq (path_of k) path ≡ false
            → lookup path disk'.files ≡ lookup path disk.files)
        × ((path : Text) → disk'.denied path ≡ false)
  save_and_keep k m root db states above named =
      let fine = verdict-IsAbove db m states above in
      let slashable = can_be_slashed-of_statement m states in
      let (disk', saved) = save-Succeeds hex serde disk total allowed db m root slashable fine in
      elim (save_cases hex serde db m root disk states) [
        | inl (e, _, failed, _) ↦ absurd (cc (failed, saved))
        | inr (db', json, disk'', stored, text, files, extends) ↦ (
          disk'',
          stored,
          λ path other. ground (
            arith,
            files,
            extends.same_path,
            named,
            lookup-insert (file_path hex db') path json disk.files,
          ),
          λ path. ground (arith, stored, save-denied hex serde db m root disk path, allowed path),
        )
      ]
