-- ===== src/Enclave/Guardian/Share.antt =====
-- src/enclave/guardian/mod.rs: which key share verify_custody finds in a payload.
use validator_guardian.Prelude.{
  ℕ, zero, suc, ◌+◌, ◌<◌, ◌≤◌, ◌≡◌, ◌↔◌, refl, ap, sym, ◌∙◌, subst, ◌⊎◌, inl, inr, true, false,
  arith, length, Bool-cases, ◌==◌, ==_iff, get_elem?, some, not,
}
use validator_guardian.Text.{Text, Bytes, text_eq, text_eq_iff, strip_0x_prefix}
use validator_guardian.Outcome.{
  Outcome, Error, ok, err, panic, Outcome-cases, ok_inj, no_share_found, unmatched_public_key,
  first_ok, or_err, or_err_ok, bail_if, bail_if-not, invalid_hex, bad_key_bytes, bad_index,
  invalid_length, decryption_failure,
}
use validator_guardian.External.Hex.{Hex}
use validator_guardian.External.Secp.{Secp}
use validator_guardian.External.Bls.{Bls}
use validator_guardian.Crypto.EthKeys.{envelope_decrypt}
use validator_guardian.Enclave.Payload.{
  BlsKeygenPayload, public_key_set, public_key_set_of, verify_public_keys_match, decrypt_sk_share,
}
use validator_guardian.Enclave.Guardian.{same_share, find_share, verify_custody}

module _ (hex : Hex) (secp : Secp) (bls : Bls) (payload : BlsKeygenPayload)
    (sk : secp.SecretKey) where
  open bls use {PublicKeySet, SecretKeyShare, public_key, public_key_to_hex}

  -- the payload states this public key set
  abbrev pub StatesSet : PublicKeySet → Type 0
  StatesSet pk_set =
      (b : Bytes) × (hex.decode (strip_0x_prefix payload.bls_pub_key_set) ≡ some b)
      × (bls.public_key_set_from_bytes b ≡ some pk_set)

  StatesSet-parses :
      (pk_set : PublicKeySet) → StatesSet pk_set → public_key_set hex bls payload ≡ ok pk_set
  unfolding public_key_set public_key_set_of
  StatesSet-parses pk_set (b, decoded, parsed) = ground (arith, decoded, parsed)

  parses-StatesSet :
      (pk_set : PublicKeySet) → public_key_set hex bls payload ≡ ok pk_set → StatesSet pk_set
  unfolding public_key_set public_key_set_of
  parses-StatesSet pk_set h =
      let (b, h1, decoded) =
        first_ok _ (or_err (hex.decode (strip_0x_prefix payload.bls_pub_key_set)) invalid_hex) h in
      (b, or_err_ok _ invalid_hex decoded, or_err_ok _ bad_key_bytes h1)

  pub public_key_set_iff :
      (pk_set : PublicKeySet) → (public_key_set hex bls payload ≡ ok pk_set) ↔ StatesSet pk_set
  public_key_set_iff pk_set = (parses-StatesSet pk_set, StatesSet-parses pk_set)

  -- The text at place `i` is the hex of 32 bytes of a share, encrypted to the key `sk`.
  abbrev pub Decrypts : ℕ → SecretKeyShare → Type 0
  Decrypts i share =
      (text : Text) × (sealed : Bytes) × (b : Bytes) × (get_elem? payload.bls_enc_priv_key_shares i
        ≡ some text)
      × (hex.decode (strip_0x_prefix text) ≡ some sealed)
      × (secp.decrypt (secp.serialize_secret_key sk) sealed ≡ some b)
      × (length b ≡ 32)
      × (bls.secret_key_share_from_bytes b ≡ some share)

  Decrypts-share :
      (i : ℕ) (share : SecretKeyShare)
      → Decrypts i share
      → decrypt_sk_share hex secp bls payload i sk ≡ ok share
  unfolding decrypt_sk_share envelope_decrypt
  Decrypts-share i share (text, sealed, b, found, decoded, opened, fits, parsed) =
      ground (arith, found, decoded, opened, fits, parsed)

  share-Decrypts :
      (i : ℕ) (share : SecretKeyShare)
      → decrypt_sk_share hex secp bls payload i sk ≡ ok share
      → Decrypts i share
  unfolding decrypt_sk_share envelope_decrypt
  share-Decrypts i share h =
      let (text, h1, found) =
        first_ok _ (or_err (get_elem? payload.bls_enc_priv_key_shares i) bad_index) h in
      let (sealed, h2, decoded) =
        first_ok _ (or_err (hex.decode (strip_0x_prefix text)) invalid_hex) h1 in
      let (b, h3, opened) =
        first_ok _ (or_err (secp.decrypt (secp.serialize_secret_key sk) sealed) decryption_failure)
          h2 in
      let (_, h4, fits) = first_ok _ (bail_if (not (length b == 32)) invalid_length) h3 in
      (
        text,
        sealed,
        b,
        or_err_ok _ bad_index found,
        or_err_ok _ invalid_hex decoded,
        or_err_ok _ decryption_failure opened,
        (==_iff (length b) 32).0 (bail_if-not (length b == 32) invalid_length fits),
        or_err_ok _ bad_key_bytes h4,
      )

  pub decrypt_sk_share_iff :
      (i : ℕ) (share : SecretKeyShare)
      → (decrypt_sk_share hex secp bls payload i sk ≡ ok share) ↔ Decrypts i share
  decrypt_sk_share_iff i share = (share-Decrypts i share, Decrypts-share i share)

  -- The share at place `i` decrypts to `share`, whose public key share is, in hex, the one of that
  -- place in the key set.
  pub record Opens (pk_set : PublicKeySet) (i : ℕ) (share : SecretKeyShare) : Type 0 where
    pub decrypts : Decrypts i share
    pub is_same :
        hex.encode (bls.public_key_share_to_bytes (bls.public_key_share pk_set i))
        ≡ hex.encode (bls.public_key_share_to_bytes (bls.derive_public_key_share share))

  same_share_iff :
      (pk_set : PublicKeySet) (i : ℕ) (share : SecretKeyShare)
      → (same_share hex secp bls pk_set i share ≡ true) ↔ (
          hex.encode (bls.public_key_share_to_bytes (bls.public_key_share pk_set i))
          ≡ hex.encode (bls.public_key_share_to_bytes (bls.derive_public_key_share share)))
  unfolding same_share
  same_share_iff pk_set i share = text_eq_iff _ _

  public_key_set-not_panic : ¬ (public_key_set hex bls payload ≡ panic)
  unfolding public_key_set public_key_set_of
  public_key_set-not_panic = ground arith

  decrypt_sk_share-not_panic : (i : ℕ) → ¬ (decrypt_sk_share hex secp bls payload i sk ≡ panic)
  unfolding decrypt_sk_share envelope_decrypt
  decrypt_sk_share-not_panic i = ground arith

  abbrev pub NoneOpens : PublicKeySet → ℕ → ℕ → Type 0
  NoneOpens pk_set i j = (k : ℕ) (share : SecretKeyShare) → i ≤ k → k < j → ¬ Opens pk_set k share

  abbrev pub FirstOpens : PublicKeySet → ℕ → ℕ → SecretKeyShare → Type 0
  FirstOpens pk_set i n share =
      (j : ℕ) × (i ≤ j) × (j < i + n) × Opens pk_set j share × NoneOpens pk_set i j

  -- what the loop finds from the share `i` on
  Searched : PublicKeySet → ℕ → ℕ → Outcome SecretKeyShare → Type 0
  Searched pk_set i n r =
      (r ≡ err no_share_found) × NoneOpens pk_set i (i + n)
      ⊎ ((share : SecretKeyShare) × (r ≡ ok share) × FirstOpens pk_set i n share)

  NoneOpens-step :
      (pk_set : PublicKeySet) (i m : ℕ)
      → ((share : SecretKeyShare) → ¬ Opens pk_set i share)
      → NoneOpens pk_set (suc i) m
      → NoneOpens pk_set i m
  NoneOpens-step pk_set i m closed shut k share le lt opens = elim (Bool-cases (i == k)) [
    | inl same ↦
        let e : k ≡ i = ground arith in closed share (subst (λ x. Opens pk_set x share) e opens)
    | inr differ ↦ shut k share (ground arith) lt opens
  ]

  -- the loop passes the share `i`
  find_share-skip :
      (pk_set : PublicKeySet) (i n : ℕ)
      → ((share : SecretKeyShare) → ¬ Opens pk_set i share)
      → find_share hex secp bls payload sk (suc n) i ≡ find_share hex secp bls payload sk n (suc i)
      → Searched pk_set (suc i) n (find_share hex secp bls payload sk n (suc i))
      → Searched pk_set i (suc n) (find_share hex secp bls payload sk (suc n) i)
  unfolding Searched
  find_share-skip pk_set i n closed e (inl (none_found, shut)) = inl (
    e ∙ none_found,
    NoneOpens-step pk_set i (i + suc n) closed
        (subst (λ m. NoneOpens pk_set (suc i) m) (omega arith) shut),
  )
  find_share-skip pk_set i n closed e (inr (share, found, (j, le, lt, opens, before))) = inr (
    share,
    e ∙ found,
    (j, omega arith, omega arith, opens, NoneOpens-step pk_set i j closed before),
  )

  module _ (pk_set : PublicKeySet) (i n : ℕ) (h : public_key_set hex bls payload ≡ ok pk_set) where
    find_share-here :
        (share : SecretKeyShare)
        → decrypt_sk_share hex secp bls payload i sk ≡ ok share
        → same_share hex secp bls pk_set i share ≡ true
        → find_share hex secp bls payload sk (suc n) i ≡ ok share
    unfolding find_share
    find_share-here share decrypted same = ground (arith, h)

    find_share-differ :
        (share : SecretKeyShare)
        → decrypt_sk_share hex secp bls payload i sk ≡ ok share
        → same_share hex secp bls pk_set i share ≡ false
        → find_share hex secp bls payload sk (suc n) i
          ≡ find_share hex secp bls payload sk n (suc i)
    unfolding find_share
    find_share-differ share decrypted differ = ground (arith, h)

    find_share-fail :
        (e : Error)
        → decrypt_sk_share hex secp bls payload i sk ≡ err e
        → find_share hex secp bls payload sk (suc n) i
          ≡ find_share hex secp bls payload sk n (suc i)
    unfolding find_share
    find_share-fail e failed = ground arith

  find_share_cases :
      (pk_set : PublicKeySet) (n i : ℕ)
      → public_key_set hex bls payload ≡ ok pk_set
      → Searched pk_set i n (find_share hex secp bls payload sk n i)
  unfolding Searched
  find_share_cases pk_set zero i h =
      inl (unfold find_share in refl, λ k share le lt opens. absurd (omega arith))
  find_share_cases pk_set (suc n) i h =
      let rest = find_share_cases pk_set n (suc i) h in
      elim (Outcome-cases (decrypt_sk_share hex secp bls payload i sk)) [
        | inl (share, decrypted) ↦ elim (Bool-cases (same_share hex secp bls pk_set i share)) [
          | inl same ↦ inr (
            share,
            find_share-here pk_set i n h share decrypted same,
            (
              i,
              omega arith,
              omega arith,
              record {
                decrypts = share-Decrypts i share decrypted;
                is_same = (same_share_iff pk_set i share).0 same;
              },
              λ k share' le lt o. absurd (omega arith),
            ),
          )
          | inr differ ↦
              find_share-skip pk_set i n
                (λ share' o.
                  let is_mine : share' ≡ share =
                    ok_inj (sym (Decrypts-share i share' o.decrypts) ∙ decrypted) in
                  cc (differ, is_mine, (same_share_iff pk_set i share').1 o.is_same))
                (find_share-differ pk_set i n h share decrypted differ) rest
        ]
        | inr (inl (e, failed)) ↦
            find_share-skip pk_set i n (λ share' o. cc (Decrypts-share i share' o.decrypts, failed))
              (find_share-fail pk_set i n h e failed) rest
        | inr (inr panicked) ↦ absurd (decrypt_sk_share-not_panic i panicked)
      ]

  -- `verify_custody` succeeds exactly if the stated public key is the one of the key set and some
  -- share opens, and its result is then the first share that does; otherwise it is an error, and
  -- it never panics.
  pub verify_custody_cases :
      ((e : Error) × (verify_custody hex secp bls payload sk ≡ err e))
        × ((pk_set : PublicKeySet)
            → StatesSet pk_set
            → public_key_to_hex (public_key pk_set) ≡ strip_0x_prefix payload.bls_pub_key
            → NoneOpens pk_set 0 (length payload.bls_enc_priv_key_shares))
      ⊎ ((pk_set : PublicKeySet) × (share : SecretKeyShare) × (verify_custody hex secp bls payload
              sk
            ≡ ok share)
          × StatesSet pk_set
          × (public_key_to_hex (public_key pk_set) ≡ strip_0x_prefix payload.bls_pub_key)
          × FirstOpens pk_set 0 (length payload.bls_enc_priv_key_shares) share)
  unfolding verify_custody verify_public_keys_match Searched
  verify_custody_cases = elim (Outcome-cases (public_key_set hex bls payload)) [
    | inl (pk_set, h) ↦
        elim (Bool-cases
          (text_eq (public_key_to_hex (public_key pk_set)) (strip_0x_prefix payload.bls_pub_key))) [
            | inl same ↦
                elim (find_share_cases pk_set (length payload.bls_enc_priv_key_shares) 0 h) [
                  | inl (none_found, shut) ↦ inl (
                    (no_share_found, ground (arith, h, none_found)),
                    λ pk_set' h' e.
                        subst (λ p. NoneOpens p 0 (length payload.bls_enc_priv_key_shares))
                          (ok_inj (sym h ∙ StatesSet-parses pk_set' h'))
                          (subst (λ m. NoneOpens pk_set 0 m) (omega arith) shut),
                  )
                  | inr (share, found, first) ↦ inr (
                    pk_set,
                    share,
                    ground (arith, h, found),
                    parses-StatesSet pk_set h,
                    (text_eq_iff _ _).0 same,
                    first,
                  )
                ]
            | inr differ ↦ inl (
              (unmatched_public_key, ground (arith, h)),
              λ pk_set' h' e. absurd (
                  cc (
                    differ,
                    (text_eq_iff _ _).1 (
                        ap (λ p. public_key_to_hex (public_key p))
                          (ok_inj (sym h ∙ StatesSet-parses pk_set' h'))
                        ∙ e),
                  )),
            )
          ]
    | inr (inl (e, h)) ↦
        inl ((e, ground (arith, h)), λ pk_set h'. cc (h, StatesSet-parses pk_set h'))
    | inr (inr h) ↦ absurd (public_key_set-not_panic h)
  ]
