-- ===== src/Eth2/SlashProtection.antt =====
-- src/eth2/slash_protection.rs: the record of what a validator key has signed.
pub mod Latest
pub mod Storage
pub mod Guards
use validator_guardian.Prelude.{
  ℕ, Bool, ◌||◌, Option, none, some, List, [], ◌∷◌, ◌++◌, ltb, leb, if◌then◌else◌, set,
}
use validator_guardian.Text.{Text, strip_0x_prefix}
use validator_guardian.Outcome.{
  Outcome, ok, err, or_err, ◌>>=◌, invalid_hex, slashable_block, slashable_attestation,
}
use validator_guardian.External.Hex.{Hex}
use validator_guardian.External.Ssz.{Ssz}
use validator_guardian.Eth2.Types.{Slot, Epoch, Root, BlsPubkey}

pub record SignedBlockSlot : Type 0 where
  pub slot : Slot
  pub signing_root : Option Root

pub record SignedAttestationEpochs : Type 0 where
  pub source_epoch : Epoch
  pub target_epoch : Epoch
  pub signing_root : Option Root

pub record SlashingProtectionData : Type 0 where
  pub pubkey : BlsPubkey
  pub signed_blocks : List SignedBlockSlot
  pub signed_attestations : List SignedAttestationEpochs

unfoldable pub new : BlsPubkey → SlashingProtectionData
new pubkey = record { pubkey = pubkey; signed_blocks = []; signed_attestations = [] }

-- `Iterator::max_by_key`: of several greatest elements the last one
module _ {ℓ} {A : Type ℓ} (key : A → ℕ) where
  unfoldable pub max_from : A → List A → A
  max_from best [] = best
  max_from best (x ∷ xs) = max_from (if ltb (key x) (key best) then best else x) xs

  unfoldable pub max_by_key : List A → Option A
  max_by_key [] = none
  max_by_key (x ∷ xs) = some (max_from x xs)

-- the key of the greatest element, or 0 of no elements: the `match` that three getters share
unfoldable pub latest {ℓ} : {A : Type ℓ} → (A → ℕ) → List A → ℕ
latest key xs = elim (max_by_key key xs) [ none ↦ 0 | some s ↦ key s ]

unfoldable pub get_latest_signed_block_slot : SlashingProtectionData → Slot
get_latest_signed_block_slot d = latest (λ s. s.slot) d.signed_blocks

unfoldable pub is_slashable_block_slot : SlashingProtectionData → Slot → Bool
is_slashable_block_slot d slot = leb slot (get_latest_signed_block_slot d)

-- `if growable || list.is_empty() { list.push(x) } else { list[0] = x }`
unfoldable pub push_or_overwrite {ℓ} : {A : Type ℓ} → Bool → List A → A → List A
push_or_overwrite growable [] x = x ∷ []
push_or_overwrite growable (y ∷ ys) x = if growable then (y ∷ ys) ++ (x ∷ []) else set (y ∷ ys) 0 x

-- the object after the call; a refused call has changed nothing
unfoldable pub new_block :
    SlashingProtectionData → SignedBlockSlot → Bool → Outcome SlashingProtectionData
new_block d block growable =
    if leb block.slot (get_latest_signed_block_slot d)
    then err slashable_block
    else ok (record d { signed_blocks = push_or_overwrite growable d.signed_blocks block })

unfoldable pub get_latest_signed_attestation_epochs : SlashingProtectionData → Epoch × Epoch
get_latest_signed_attestation_epochs d = (
  latest (λ s. s.source_epoch) d.signed_attestations,
  latest (λ s. s.target_epoch) d.signed_attestations,
)

unfoldable pub is_slashable_attestation_epochs : SlashingProtectionData → Epoch → Epoch → Bool
is_slashable_attestation_epochs d src tgt =
    let (last_src, last_tgt) = get_latest_signed_attestation_epochs d in
    ltb src last_src || leb tgt last_tgt

unfoldable pub new_attestation :
    SlashingProtectionData → SignedAttestationEpochs → Bool → Outcome SlashingProtectionData
new_attestation d attest growable =
    let (prev_src, prev_tgt) = get_latest_signed_attestation_epochs d in
    if ltb attest.source_epoch prev_src
    then err slashable_attestation
    else if leb attest.target_epoch prev_tgt
    then err slashable_attestation
    else ok
        (record d { signed_attestations = push_or_overwrite growable d.signed_attestations attest })

module _ (hex : Hex) (ssz : Ssz) where
  unfoldable pub from_pk_hex : Text → Outcome SlashingProtectionData
  from_pk_hex pk_hex = do
    pk_bytes ← or_err (hex.decode (strip_0x_prefix pk_hex)) invalid_hex
    ok (new (ssz.fixed_vector 48 pk_bytes))
