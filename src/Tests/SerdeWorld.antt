-- ===== src/Tests/SerdeWorld.antt =====
-- The slashing protection record as a flat list of numbers, each list behind its length.
use validator_guardian.Prelude.{
  ℕ, zero, suc, ◌≡◌, refl, ap, sym, ◌∙◌, Option, none, some, List, [], ◌∷◌, ◌++◌, append_assoc,
  length, take, drop, subst, some_inj,
}
use validator_guardian.Text.{Bytes, Text}
use validator_guardian.Eth2.Types.{Root}
use validator_guardian.Eth2.SlashProtection.{
  SlashingProtectionData, SignedBlockSlot, SignedAttestationEpochs,
}
use validator_guardian.Eth2.SlashProtection.Storage.{Serde}
use validator_guardian.Enclave.Shared.Records.{IsSerde}

abbrev Parser : Type 0 → Type 0
Parser A = List ℕ → Option (A × List ℕ)

abbrev step : {A B : Type 0} → Option (A × List ℕ) → (A → Parser B) → Option (B × List ℕ)
step none f = none
step (some (a, t)) f = f a t

unfoldable pub put_bytes : List ℕ → List ℕ
put_bytes b = length b ∷ b

unfoldable pub get_bytes : Parser (List ℕ)
get_bytes [] = none
get_bytes (n ∷ t) = some (take n t, drop n t)

take-append : (b t : List ℕ) → take (length b) (b ++ t) ≡ b
take-append [] t = refl
take-append (x ∷ b) t = ap (λ r. x ∷ r) (take-append b t)

drop-append : (b t : List ℕ) → drop (length b) (b ++ t) ≡ t
drop-append [] t = refl
drop-append (x ∷ b) t = drop-append b t

get-put_bytes : (b t : List ℕ) → get_bytes (put_bytes b ++ t) ≡ some (b, t)
unfolding get_bytes put_bytes
get-put_bytes b t = rw (take-append b t, drop-append b t)

unfoldable pub put_root : Option Root → List ℕ
put_root none = 0 ∷ []
put_root (some r) = 1 ∷ put_bytes r

unfoldable pub get_root : Parser (Option Root)
get_root (zero ∷ t) = some (none, t)
get_root (suc n ∷ t) = step (get_bytes t) (λ r t'. some (some r, t'))
get_root [] = none

get-put_root : (r : Option Root) (t : List ℕ) → get_root (put_root r ++ t) ≡ some (r, t)
unfolding get_root put_root
get-put_root none t = refl
get-put_root (some r) t = rw (get-put_bytes r t)

-- the lists of entries, each entry by a printer and a parser
module _ {A : Type 0} (put : A → List ℕ) (get : Parser A) where
  unfoldable pub put_items : List A → List ℕ
  put_items [] = []
  put_items (x ∷ xs) = put x ++ put_items xs

  unfoldable pub get_items : ℕ → Parser (List A)
  get_items zero t = some ([], t)
  get_items (suc n) t = step (get t) (λ x t'. step (get_items n t') (λ xs t''. some (x ∷ xs, t'')))

  get-put_items :
      ((x : A) (t : List ℕ) → get (put x ++ t) ≡ some (x, t))
      → (xs : List A) (t : List ℕ) → get_items (length xs) (put_items xs ++ t) ≡ some (xs, t)
  unfolding put_items get_items
  get-put_items one [] t = refl
  get-put_items one (x ∷ xs) t =
      rw (append_assoc (put x) (put_items xs) t, one x (put_items xs ++ t), get-put_items one xs t)

unfoldable pub put_block : SignedBlockSlot → List ℕ
put_block b = b.slot ∷ put_root b.signing_root

unfoldable pub get_block : Parser SignedBlockSlot
get_block [] = none
get_block (s ∷ t) = step (get_root t) (λ r t'. some (record { slot = s; signing_root = r }, t'))

get-put_block : (b : SignedBlockSlot) (t : List ℕ) → get_block (put_block b ++ t) ≡ some (b, t)
unfolding get_block put_block
get-put_block b t = rw (get-put_root b.signing_root t)

unfoldable pub put_attestation : SignedAttestationEpochs → List ℕ
put_attestation a = a.source_epoch ∷ a.target_epoch ∷ put_root a.signing_root

unfoldable pub get_attestation : Parser SignedAttestationEpochs
get_attestation [] = none
get_attestation (s ∷ []) = none
get_attestation (s ∷ u ∷ t) =
    step (get_root t)
      (λ r t'. some (record { source_epoch = s; target_epoch = u; signing_root = r }, t'))

get-put_attestation :
    (a : SignedAttestationEpochs) (t : List ℕ)
    → get_attestation (put_attestation a ++ t) ≡ some (a, t)
unfolding get_attestation put_attestation
get-put_attestation a t = rw (get-put_root a.signing_root t)

abbrev first : {A : Type 0} → Option (A × List ℕ) → Option A
first none = none
first (some (a, t)) = some a

unfoldable pub print : SlashingProtectionData → Option Text
print d = some (
    length d.signed_blocks
    ∷ length d.signed_attestations
    ∷ (put_bytes d.pubkey
        ++ (put_items put_block get_block d.signed_blocks
            ++ (put_items put_attestation get_attestation d.signed_attestations ++ []))))

unfoldable pub parse : Bytes → Option SlashingProtectionData
parse (m ∷ n ∷ t) = first (
    step (get_bytes t) λ p t₁. step (get_items put_block get_block m t₁) λ bs t₂.
      step (get_items put_attestation get_attestation n t₂)
        λ as₁ t₃. some (record { pubkey = p; signed_blocks = bs; signed_attestations = as₁ }, t₃))
parse _ = none

abbrev pub text_of : SlashingProtectionData → Text
text_of d =
    length d.signed_blocks
    ∷ length d.signed_attestations
    ∷ (put_bytes d.pubkey
        ++ (put_items put_block get_block d.signed_blocks
            ++ (put_items put_attestation get_attestation d.signed_attestations ++ [])))

print_lem : (d : SlashingProtectionData) → print d ≡ some (text_of d)
unfolding print
print_lem d = refl

pub parse_text : (d : SlashingProtectionData) → parse (text_of d) ≡ some d
unfolding parse
parse_text d =
    let attestations = put_items put_attestation get_attestation d.signed_attestations ++ [] in
    let blocks = put_items put_block get_block d.signed_blocks ++ attestations in
    rw (
      parse,
      get-put_bytes d.pubkey blocks,
      get-put_items put_block get_block get-put_block d.signed_blocks attestations,
      get-put_items put_attestation get_attestation get-put_attestation d.signed_attestations [],
    )

parse-print : (d : SlashingProtectionData) (t : Text) → print d ≡ some t → parse t ≡ some d
parse-print d t h = subst (λ u. parse u ≡ some d) (some_inj (sym (print_lem d) ∙ h)) (parse_text d)

abbrev pub serde_world : Serde
serde_world = record { to_string = print; from_slice = parse }

pub serde_world-IsSerde : IsSerde serde_world
serde_world-IsSerde = record { from_slice-to_string = parse-print }
