-- ===== src/Enclave/Session/Message.antt =====
-- src/enclave/guardian/mod.rs and src/enclave/shared/mod.rs: the message that a payload stands for,
-- byte by byte.
use mathlib.Core.List.{zip}
use validator_guardian.Prelude.{
  ℕ, suc, ◌/◌, ◌%◌, ◌^◌, ◌≡◌, ◌↔◌, refl, sym, ap, ◌∙◌, inl, inr, some, List, [], ◌∷◌, ◌++◌, length,
  replicate, ◌==◌, ==_iff, arith, Bool-cases, Option-cases,
}
use validator_guardian.Text.{Text, Bytes, strip_0x_prefix}
use validator_guardian.Outcome.{
  ok, ok_inj, or_err, assert, first_ok, or_err_ok, assert_ok, invalid_hex, bad_key_bytes,
}
use validator_guardian.Constants.{bls_sig_bytes}
use validator_guardian.External.Hex.{Hex}
use validator_guardian.External.Ssz.{Ssz}
use validator_guardian.External.Bls.{Bls}
use validator_guardian.External.Secp.{Secp}
use validator_guardian.Crypto.EthKeys.{eth_pk_from_hex_uncompressed}
use validator_guardian.Enclave.Payload.{BlsKeygenPayload}
use validator_guardian.Enclave.Session.{guardian_keys, attested_message}
use validator_guardian.Enclave.Shared.Attestation.{
  be_bytes, hashed_shares, build_validator_remote_attestation_payload,
}

-- a number as 8 bytes, the highest first
abbrev pub big_endian : ℕ → Bytes
big_endian n =
    (n / 256 ^ 7 % 256)
    ∷ (n / 256 ^ 6 % 256)
    ∷ (n / 256 ^ 5 % 256)
    ∷ (n / 256 ^ 4 % 256)
    ∷ (n / 256 ^ 3 % 256)
    ∷ (n / 256 ^ 2 % 256)
    ∷ (n / 256 % 256)
    ∷ (n % 256)
    ∷ []

be_bytes-big_endian : (n : ℕ) → be_bytes 8 n ≡ big_endian n
unfolding be_bytes
be_bytes-big_endian n = ground arith

module _ (hex : Hex) (secp : Secp) where
  -- the text is the hex of 65 bytes that are the key's
  abbrev pub KeyOf : Text → secp.PublicKey → Type 0
  KeyOf text pk =
      (b : Bytes) × (hex.decode (strip_0x_prefix text) ≡ some b)
      × (length b ≡ 65)
      × (secp.parse b ≡ some pk)

  abbrev pub KeysOf : List Text → List secp.PublicKey → Type 0
  KeysOf [] pks = pks ≡ []
  KeysOf (text ∷ texts) pks =
      (pk : secp.PublicKey) × (rest : List secp.PublicKey) × KeyOf text pk
      × KeysOf texts rest
      × (pks ≡ pk ∷ rest)

  key-KeyOf :
      (text : Text) (pk : secp.PublicKey)
      → eth_pk_from_hex_uncompressed hex secp text ≡ ok pk
      → KeyOf text pk
  unfolding eth_pk_from_hex_uncompressed
  key-KeyOf text pk h = elim (Option-cases (hex.decode (strip_0x_prefix text))) [
    | inl bad ↦ absurd (ground (arith, bad, h))
    | inr (b, decoded) ↦ elim (Bool-cases (length b == 65)) [
      | inl fits ↦ elim (Option-cases (secp.parse b)) [
        | inl bad ↦ absurd (ground (arith, decoded, fits, bad, h))
        | inr (k, parsed) ↦
            let same : k ≡ pk = ok_inj (ground (arith, decoded, fits, parsed, h)) in
            (b, decoded, (==_iff (length b) 65).0 fits, parsed ∙ ap some same)
      ]
      | inr misfit ↦ absurd (ground (arith, decoded, misfit, h))
    ]
  ]

  KeyOf-key :
      (text : Text) (pk : secp.PublicKey)
      → KeyOf text pk
      → eth_pk_from_hex_uncompressed hex secp text ≡ ok pk
  unfolding eth_pk_from_hex_uncompressed
  KeyOf-key text pk (b, decoded, fits, parsed) = ground (arith, decoded, fits, parsed)

  keys-KeysOf :
      (texts : List Text) (pks : List secp.PublicKey)
      → guardian_keys hex secp texts ≡ ok pks
      → KeysOf texts pks
  unfolding guardian_keys
  keys-KeysOf [] pks h = sym (ok_inj h)
  keys-KeysOf (text ∷ texts) pks h =
      let (pk, h1, here) = first_ok _ (eth_pk_from_hex_uncompressed hex secp text) h in
      let (rest, h2, there) = first_ok _ (guardian_keys hex secp texts) h1 in
      (pk, rest, key-KeyOf text pk here, keys-KeysOf texts rest there, sym (ok_inj h2))

  KeysOf-keys :
      (texts : List Text) (pks : List secp.PublicKey)
      → KeysOf texts pks
      → guardian_keys hex secp texts ≡ ok pks
  unfolding guardian_keys
  KeysOf-keys [] pks e = ap ok (sym e)
  KeysOf-keys (text ∷ texts) pks (pk, rest, here, there, e) =
      ground (arith, KeyOf-key text pk here, KeysOf-keys texts rest there, e)

module _ (hex : Hex) (secp : Secp) (bls : Bls) (pk_set : bls.PublicKeySet) where
  -- Each encrypted share is followed by the public key share of its place and by the key of its
  -- guardian, as far as both lists reach.
  abbrev pub SharesOf : ℕ → List Text → List secp.PublicKey → Bytes → Type 0
  SharesOf i [] _ bytes = bytes ≡ []
  SharesOf i (share ∷ shares) [] bytes = bytes ≡ []
  SharesOf i (share ∷ shares) (pk ∷ pks) bytes =
      (sealed : Bytes) × (rest : Bytes) × (hex.decode share ≡ some sealed)
      × SharesOf (suc i) shares pks rest
      × (bytes
          ≡ sealed
            ++ bls.public_key_share_to_bytes (bls.public_key_share pk_set i)
            ++ secp.serialize pk
            ++ rest)

  -- the bytes of one share and what belongs to it, before those of the others
  abbrev share_bytes : ℕ → Bytes → secp.PublicKey → Bytes → Bytes
  share_bytes i sealed pk rest =
      sealed
      ++ bls.public_key_share_to_bytes (bls.public_key_share pk_set i)
      ++ secp.serialize pk
      ++ rest

  first_share :
      (share : Text) (pk : secp.PublicKey) (tail : List (Text × secp.PublicKey)) (i : ℕ)
      (bytes : Bytes)
      → hashed_shares hex secp bls pk_set i ((share, pk) ∷ tail) ≡ ok bytes
      → (sealed : Bytes) × (rest : Bytes) × (hex.decode share ≡ some sealed)
        × (hashed_shares hex secp bls pk_set (suc i) tail ≡ ok rest)
        × (bytes ≡ share_bytes i sealed pk rest)
  unfolding hashed_shares
  first_share share pk tail i bytes h =
      let (sealed, h1, decoded) = first_ok _ (or_err (hex.decode share) invalid_hex) h in
      let (rest, h2, there) = first_ok _ (hashed_shares hex secp bls pk_set (suc i) tail) h1 in
      (sealed, rest, or_err_ok _ invalid_hex decoded, there, sym (ok_inj h2))

  shares-SharesOf :
      (shares : List Text) (pks : List secp.PublicKey) (i : ℕ) (bytes : Bytes)
      → hashed_shares hex secp bls pk_set i (zip shares pks) ≡ ok bytes
      → SharesOf i shares pks bytes
  unfolding hashed_shares zip
  shares-SharesOf [] pks i bytes h = sym (ok_inj h)
  shares-SharesOf (share ∷ shares) [] i bytes h = sym (ok_inj h)
  shares-SharesOf (share ∷ shares) (pk ∷ pks) i bytes h =
      let (sealed, rest, decoded, there, e) = first_share share pk (zip shares pks) i bytes h in
      (sealed, rest, decoded, shares-SharesOf shares pks (suc i) rest there, e)

  prepend_share :
      (share : Text) (pk : secp.PublicKey) (tail : List (Text × secp.PublicKey)) (i : ℕ)
      (sealed rest : Bytes)
      → hex.decode share ≡ some sealed
      → hashed_shares hex secp bls pk_set (suc i) tail ≡ ok rest
      → hashed_shares hex secp bls pk_set i ((share, pk) ∷ tail) ≡ ok (share_bytes i sealed pk rest)
  unfolding hashed_shares
  prepend_share share pk tail i sealed rest decoded there = rw (decoded, there) refl

  SharesOf-shares :
      (shares : List Text) (pks : List secp.PublicKey) (i : ℕ) (bytes : Bytes)
      → SharesOf i shares pks bytes
      → hashed_shares hex secp bls pk_set i (zip shares pks) ≡ ok bytes
  unfolding hashed_shares zip
  SharesOf-shares [] pks i bytes e = ap ok (sym e)
  SharesOf-shares (share ∷ shares) [] i bytes e = ap ok (sym e)
  SharesOf-shares (share ∷ shares) (pk ∷ pks) i bytes (sealed, rest, decoded, there, e) =
      prepend_share share pk (zip shares pks) i sealed rest decoded
        (SharesOf-shares shares pks (suc i) rest there)
      ∙ ap ok (sym e)

module _ (hex : Hex) (ssz : Ssz) (secp : Secp) (bls : Bls) (payload : BlsKeygenPayload) where
  -- The payload stands for a message: the hash of the 64 bytes that begin with the hash of the key
  -- set, its public key, the deposit's signature and root, the encrypted shares with their public
  -- key shares and guardians, and the threshold.
  pub record StandsFor (message : Bytes) : Type 0 where
    pub set_bytes : Bytes
    pub set_hex : hex.decode payload.bls_pub_key_set ≡ some set_bytes
    pub pk_set : bls.PublicKeySet
    pub set_parses : bls.public_key_set_from_bytes set_bytes ≡ some pk_set
    pub data_root : Bytes
    pub root_hex : hex.decode payload.deposit_data_root ≡ some data_root
    pub root_length : length data_root ≡ 32
    pub sig_bytes : Bytes
    pub sig_hex : hex.decode payload.signature ≡ some sig_bytes
    pub guardians : List secp.PublicKey
    pub guardian_hexes : KeysOf hex secp payload.guardian_eth_pub_keys guardians
    pub shares : Bytes
    pub share_hexes :
        SharesOf hex secp bls pk_set 0 payload.bls_enc_priv_key_shares guardians shares
    pub is_hash :
        message
        ≡ secp.keccak256 (
            secp.keccak256 (
              bls.public_key_set_to_bytes pk_set
              ++ bls.public_key_to_bytes (bls.public_key pk_set)
              ++ ssz.fixed_vector 96 sig_bytes
              ++ data_root
              ++ shares
              ++ big_endian (bls.public_key_set_threshold pk_set))
            ++ replicate 32 0)

  message-StandsFor :
      (message : Bytes) → attested_message hex ssz secp bls payload ≡ ok message → StandsFor message
  unfolding attested_message build_validator_remote_attestation_payload
  message-StandsFor message h =
      let (set_bytes, h1, set_hex) =
        first_ok _ (or_err (hex.decode payload.bls_pub_key_set) invalid_hex) h in
      let (pk_set, h2, set_parses) =
        first_ok _ (or_err (bls.public_key_set_from_bytes set_bytes) bad_key_bytes) h1 in
      let (data_root, h3, root_hex) =
        first_ok _ (or_err (hex.decode payload.deposit_data_root) invalid_hex) h2 in
      let (_, h4, fits) = first_ok _ (assert (length data_root == 32)) h3 in
      let (sig_bytes, h5, sig_hex) =
        first_ok _ (or_err (hex.decode payload.signature) invalid_hex) h4 in
      let (guardians, h6, keys) =
        first_ok _ (guardian_keys hex secp payload.guardian_eth_pub_keys) h5 in
      let (attested, h7, built) =
        first_ok _
          (build_validator_remote_attestation_payload hex secp bls pk_set
            (ssz.fixed_vector bls_sig_bytes sig_bytes) data_root payload.bls_enc_priv_key_shares
            guardians)
          h6 in
      let (shares, h8, hashed) =
        first_ok _
          (hashed_shares hex secp bls pk_set 0 (zip payload.bls_enc_priv_key_shares guardians))
          built in
      record {
        set_bytes = set_bytes;
        set_hex = or_err_ok _ invalid_hex set_hex;
        pk_set = pk_set;
        set_parses = or_err_ok _ bad_key_bytes set_parses;
        data_root = data_root;
        root_hex = or_err_ok _ invalid_hex root_hex;
        root_length = (==_iff (length data_root) 32).0 (assert_ok (length data_root == 32) fits);
        sig_bytes = sig_bytes;
        sig_hex = or_err_ok _ invalid_hex sig_hex;
        guardians = guardians;
        guardian_hexes = keys-KeysOf hex secp payload.guardian_eth_pub_keys guardians keys;
        shares = shares;
        share_hexes =
            shares-SharesOf hex secp bls pk_set payload.bls_enc_priv_key_shares guardians 0 shares
              hashed;
        is_hash =
            sym (ok_inj h7)
            ∙ ap secp.keccak256 (
                sym (ok_inj h8)
                ∙ ap
                    (λ b.
                      secp.keccak256 (
                        bls.public_key_set_to_bytes pk_set
                        ++ bls.public_key_to_bytes (bls.public_key pk_set)
                        ++ ssz.fixed_vector bls_sig_bytes sig_bytes
                        ++ data_root
                        ++ shares
                        ++ b)
                      ++ replicate 32 0)
                    (be_bytes-big_endian (bls.public_key_set_threshold pk_set)));
      }

  StandsFor-message :
      (message : Bytes) → StandsFor message → attested_message hex ssz secp bls payload ≡ ok message
  unfolding attested_message build_validator_remote_attestation_payload
  StandsFor-message message s =
      rw
        (
          s.set_hex,
          s.set_parses,
          s.root_hex,
          (==_iff (length s.data_root) 32).1 s.root_length,
          s.sig_hex,
          KeysOf-keys hex secp payload.guardian_eth_pub_keys s.guardians s.guardian_hexes,
          SharesOf-shares hex secp bls s.pk_set payload.bls_enc_priv_key_shares s.guardians 0
              s.shares s.share_hexes,
          be_bytes-big_endian (bls.public_key_set_threshold s.pk_set),
        )
        (ap ok (sym s.is_hash))

  pub attested_message_iff :
      (message : Bytes)
      → (attested_message hex ssz secp bls payload ≡ ok message) ↔ StandsFor message
  attested_message_iff message = (message-StandsFor message, StandsFor-message message)
