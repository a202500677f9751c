-- ===== src/Enclave/Validator/Sealed.antt =====
-- src/enclave/validator/mod.rs: the encrypted shares in the payload of attest_fresh_bls_key.
use validator_guardian.Prelude.{
  ℕ, zero, suc, ◌+◌, ◌≡◌, refl, ap, sym, ◌∙◌, subst, inl, inr, List, [], ◌∷◌, some, some_inj, arith,
  Option-cases, map, length, get_elem?, ◌==◌, Bool, Bool-cases,
}
use validator_guardian.Text.{Text, Bytes}
use validator_guardian.Outcome.{ok, ok_inj, first_ok, Outcome-cases}
use validator_guardian.External.Hex.{Hex}
use validator_guardian.External.Secp.{Secp}
use validator_guardian.External.Bls.{Bls}
use validator_guardian.Crypto.EthKeys.{envelope_encrypt}
use validator_guardian.Crypto.BlsKeys.{distribute_key_shares, range_from, new_bls_key}
use validator_guardian.Enclave.Validator.{
  RecipientKeys, EncryptedRecipientKeys, encrypt_to_recipient, encrypt_shares, threshold_below,
  attest_fresh_bls_key,
}
use mathlib.Core.List.{zip}
use validator_guardian.Disk.{Disk}
use validator_guardian.External.Ssz.{Ssz}
use validator_guardian.External.TreeHash.{TreeHash}
use validator_guardian.External.Session.{Agent}
use validator_guardian.Eth2.Types.{Version}
use validator_guardian.Eth2.SlashProtection.Storage.{Serde}
use validator_guardian.Enclave.Payload.{BlsKeygenPayload}

module _ (hex : Hex) (secp : Secp) (bls : Bls) where
  open bls use {SecretKeySet, SecretKeyShare, PublicKeyShare, secret_key_share}

  -- The text is the hex of a share's bytes, encrypted to a public key.
  pub record IsSealed (pk : secp.PublicKey) (share : SecretKeyShare) (text : Text) : Type 0 where
    pub sealed : Bytes
    pub entropy : ℕ
    pub is_encrypted :
        secp.encrypt (secp.serialize pk) (bls.secret_key_share_to_bytes share) entropy ≡ some sealed
    pub is_hex_of : text ≡ hex.encode sealed

  abbrev texts : List (EncryptedRecipientKeys secp bls) → List Text
  texts keys = map (λ k. k.encrypted_secret_key_share_hex) keys

  encrypt_to_recipient-IsSealed :
      (r : RecipientKeys secp bls) (entropy : ℕ) (k : EncryptedRecipientKeys secp bls)
      → encrypt_to_recipient hex secp bls r entropy ≡ ok k
      → IsSealed r.guardian_public_key r.secret_key_share k.encrypted_secret_key_share_hex
  unfolding encrypt_to_recipient envelope_encrypt
  encrypt_to_recipient-IsSealed r entropy k h =
      let message = bls.secret_key_share_to_bytes r.secret_key_share in
      elim (Option-cases (secp.encrypt (secp.serialize r.guardian_public_key) message entropy)) [
        | inl refused ↦ absurd (ground (arith, refused, h))
        | inr (sealed, encrypted) ↦ record {
          sealed = sealed;
          entropy = entropy;
          is_encrypted = encrypted;
          is_hex_of = ground (arith, encrypted, h);
        }
      ]

  -- the first place, or one of the others
  at_place :
      (pairs : List (secp.PublicKey × (SecretKeyShare × PublicKeyShare))) (g : secp.PublicKey)
      (s : SecretKeyShare) (p : PublicKeyShare) (k : EncryptedRecipientKeys secp bls)
      (rest : List (EncryptedRecipientKeys secp bls))
      → IsSealed g s k.encrypted_secret_key_share_hex
      → ((j : ℕ) (pk : secp.PublicKey) (share : SecretKeyShare) (pk_share : PublicKeyShare)
          → get_elem? pairs j ≡ some (pk, (share, pk_share))
          → (text : Text) × (get_elem? (texts rest) j ≡ some text) × IsSealed pk share text)
      → (i : ℕ) (pk : secp.PublicKey) (share : SecretKeyShare) (pk_share : PublicKeyShare)
      → get_elem? ((g, (s, p)) ∷ pairs) i ≡ some (pk, (share, pk_share))
      → (text : Text) × (get_elem? (texts (k ∷ rest)) i ≡ some text) × IsSealed pk share text
  at_place pairs g s p k rest here there zero pk share pk_share e =
      let q = some_inj e in
      (
        k.encrypted_secret_key_share_hex,
        refl,
        subst (λ x. IsSealed x.0 x.1.0 k.encrypted_secret_key_share_hex) q here,
      )
  at_place pairs g s p k rest here there (suc i) pk share pk_share e = there i pk share pk_share e

  -- every place of the input has its sealed share at the same place of the output
  encrypt_shares-IsSealed :
      (seed : ℕ → ℕ) (n : ℕ) (pairs : List (secp.PublicKey × (SecretKeyShare × PublicKeyShare)))
      (keys : List (EncryptedRecipientKeys secp bls))
      → encrypt_shares hex secp bls seed n pairs ≡ ok keys
      → (i : ℕ) (pk : secp.PublicKey) (share : SecretKeyShare) (pk_share : PublicKeyShare)
      → get_elem? pairs i ≡ some (pk, (share, pk_share))
      → (text : Text) × (get_elem? (texts keys) i ≡ some text) × IsSealed pk share text
  unfolding encrypt_shares
  encrypt_shares-IsSealed seed n [] keys h i pk share pk_share e = cc
  encrypt_shares-IsSealed seed n ((g, (s, p)) ∷ pairs) keys h i pk share pk_share e =
      let (k, h1, here) = first_ok _ (encrypt_to_recipient hex secp bls _ (seed n)) h in
      let (rest, h2, there) = first_ok _ (encrypt_shares hex secp bls seed (suc n) pairs) h1 in
      subst (λ l. (text : Text) × (get_elem? (texts l) i ≡ some text) × IsSealed pk share text)
        (ok_inj h2)
        (at_place pairs g s p k rest (encrypt_to_recipient-IsSealed _ (seed n) k here)
          (encrypt_shares-IsSealed seed (suc n) pairs rest there) i pk share pk_share e)

  -- place `i` of a list beside the numbers from `n` on
  get_elem?-zip :
      (xs : List secp.PublicKey) (f : ℕ → SecretKeyShare × PublicKeyShare) (n i : ℕ)
      (x : secp.PublicKey)
      → get_elem? xs i ≡ some x
      → get_elem? (zip xs (map f (range_from n (length xs)))) i ≡ some (x, f (n + i))
  unfolding range_from zip
  get_elem?-zip [] f n i x h = cc
  get_elem?-zip (y ∷ xs) f n zero x h =
      let e : n ≡ n + 0 = omega arith in
      ap (λ z. some (z, f n)) (some_inj h) ∙ ap (λ m. some (x, f m)) e
  get_elem?-zip (y ∷ xs) f n (suc i) x h =
      let e : suc n + i ≡ n + suc i = omega arith in
      get_elem?-zip xs f (suc n) i x h ∙ ap (λ m. some (x, f m)) e

module _ (hex : Hex) (ssz : Ssz) (serde : Serde) (tree : TreeHash) (secp : Secp) (bls : Bls)
    (agent : Agent) where
  -- The payload belongs to a key set of the degree that the threshold asks for: it states the key
  -- set's public keys, and its share for each guardian is the encryption to that guardian of the
  -- secret key share of the guardian's place.
  pub record IsShared (guardians : List secp.PublicKey) (threshold : ℕ) (payload : BlsKeygenPayload)
      : Type 0 where
    pub key_set : bls.SecretKeySet
    pub degree : bls.threshold key_set ≡ threshold_below threshold
    pub states_set :
        payload.bls_pub_key_set ≡ hex.encode (bls.public_key_set_to_bytes (bls.public_keys key_set))
    pub states_key :
        payload.bls_pub_key ≡ bls.public_key_to_hex (bls.public_key (bls.public_keys key_set))
    pub shares :
        (i : ℕ) (pk : secp.PublicKey)
        → get_elem? guardians i ≡ some pk
        → (text : Text) × (get_elem? payload.bls_enc_priv_key_shares i ≡ some text)
          × IsSealed hex secp bls pk (bls.secret_key_share key_set i) text

  new_bls_key-threshold :
      (t entropy : ℕ) (k : bls.SecretKeySet)
      → new_bls_key bls t entropy ≡ ok k
      → bls.threshold k ≡ t
  unfolding new_bls_key
  new_bls_key-threshold t entropy k h = elim (Option-cases (bls.random t entropy)) [
    | inl e ↦ absurd (ground (arith, e, h))
    | inr (k', e) ↦ elim (Bool-cases (bls.threshold k' == t)) [
      | inl same ↦ let q : k' ≡ k = ok_inj (ground (arith, e, same, h)) in ground (arith, q, same)
      | inr differ ↦ absurd (ground (arith, e, differ, h))
    ]
  ]

  shares_at :
      (k : bls.SecretKeySet) (guardians : List secp.PublicKey) (i : ℕ) (pk : secp.PublicKey)
      → get_elem? guardians i ≡ some pk
      → get_elem? (zip guardians (distribute_key_shares bls k (length guardians))) i
        ≡ some (pk, (bls.secret_key_share k i, bls.public_key_share (bls.public_keys k) i))
  unfolding distribute_key_shares
  shares_at k guardians i pk h =
      let e : 0 + i ≡ i = omega arith in
      get_elem?-zip hex secp bls guardians
        (λ id. (bls.secret_key_share k id, bls.public_key_share (bls.public_keys k) id)) 0 i pk h
      ∙ ap (λ m. some (pk, (bls.secret_key_share k m, bls.public_key_share (bls.public_keys k) m)))
          e

  module _ (seed : ℕ → ℕ) (credentials : Bytes) (guardians : List secp.PublicKey) (threshold : ℕ)
      (fork_version : Version) (attests : Bool) (disk disk' : Disk)
      (payload : BlsKeygenPayload) where
    -- the call ends with the payload
    abbrev pub Generates : Type 0
    Generates =
        attest_fresh_bls_key hex ssz serde tree secp bls agent seed credentials guardians threshold
          fork_version attests disk
        ≡ (ok payload, disk')

    -- the key set and the encrypted shares that the call draws
    pub record Draws : Type 0 where
      pub key_set : bls.SecretKeySet
      pub keys : List (EncryptedRecipientKeys secp bls)
      pub drawn : new_bls_key bls (threshold_below threshold) (seed 0) ≡ ok key_set
      pub encrypted :
          encrypt_shares hex secp bls seed 1
            (zip guardians (distribute_key_shares bls key_set (length guardians)))
          ≡ ok keys

    pub Generates-Draws : Generates → Draws
    unfolding attest_fresh_bls_key
    Generates-Draws h =
        elim (Outcome-cases (new_bls_key bls (threshold_below threshold) (seed 0))) [
          | inl (k, drawn) ↦
              elim (Outcome-cases (
                encrypt_shares hex secp bls seed 1
                  (zip guardians (distribute_key_shares bls k (length guardians))))) [
                    | inl (keys, encrypted) ↦ record {
                      key_set = k;
                      keys = keys;
                      drawn = drawn;
                      encrypted = encrypted;
                    }
                    | inr (inl (e, bad)) ↦ absurd (ground (arith, drawn, bad, h))
                    | inr (inr bad) ↦ absurd (ground (arith, drawn, bad, h))
                  ]
          | inr (inl (e, bad)) ↦ absurd (ground (arith, bad, h))
          | inr (inr bad) ↦ absurd (ground (arith, bad, h))
        ]

    pub Draws-IsShared : Generates → Draws → IsShared guardians threshold payload
    unfolding attest_fresh_bls_key
    Draws-IsShared h draws =
        let k = draws.key_set in
        let same : payload.bls_enc_priv_key_shares ≡ texts hex secp bls draws.keys =
          ground (arith, draws.drawn, draws.encrypted, h) in
        record {
          key_set = k;
          degree = new_bls_key-threshold (threshold_below threshold) (seed 0) k draws.drawn;
          states_set = ground (arith, draws.drawn, draws.encrypted, h);
          states_key = ground (arith, draws.drawn, draws.encrypted, h);
          shares = λ i pk at_i.
              subst
                (λ l.
                  (text : Text) × (get_elem? l i ≡ some text)
                  × IsSealed hex secp bls pk (bls.secret_key_share k i) text)
                (sym same)
                (encrypt_shares-IsSealed hex secp bls seed 1 _ draws.keys draws.encrypted i pk
                  (bls.secret_key_share k i) (bls.public_key_share (bls.public_keys k) i)
                  (shares_at k guardians i pk at_i));
        }

  -- A key generation that is answered returns a payload of which that holds.
  pub attest_fresh_bls_key-IsShared :
      (seed : ℕ → ℕ) (credentials : Bytes) (guardians : List secp.PublicKey) (threshold : ℕ)
      (fork_version : Version) (attests : Bool) (disk disk' : Disk) (payload : BlsKeygenPayload)
      → attest_fresh_bls_key hex ssz serde tree secp bls agent seed credentials guardians threshold
          fork_version attests disk
        ≡ (ok payload, disk')
      → IsShared guardians threshold payload
  attest_fresh_bls_key-IsShared seed credentials guardians threshold fork_version attests disk disk'
        payload h =
      Draws-IsShared seed credentials guardians threshold fork_version attests disk disk' payload h
        (Generates-Draws seed credentials guardians threshold fork_version attests disk disk'
          payload h)
