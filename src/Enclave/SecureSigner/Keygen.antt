-- ===== src/Enclave/SecureSigner/Keygen.antt =====
-- src/enclave/secure_signer/mod.rs: the files after attest_new_bls_key.
use validator_guardian.Prelude.{
  ℕ, ◌≡◌, refl, ap, sym, subst, Option-cases, inl, inr, [], some, false, arith,
}
use validator_guardian.Text.{Text, Bytes, text_eq, text_eq_refl, strip_0x_prefix}
use validator_guardian.Outcome.{ok, Outcome-cases}
use validator_guardian.Disk.{Disk, Files, insert, lookup, lookup-insert, join}
use validator_guardian.Constants.{bls_keys_dir, bls_pub_key_bytes, slashing_protection_dir}
use validator_guardian.External.Hex.{Hex}
use validator_guardian.External.Ssz.{Ssz}
use validator_guardian.External.Bls.{Bls}
use validator_guardian.External.Session.{Agent}
use validator_guardian.Eth2.SlashProtection.{SlashingProtectionData, from_pk_hex, new}
use validator_guardian.Eth2.SlashProtection.Storage.{Serde, file_path}
use validator_guardian.Io.KeyManagement.{write_bls_key}
use validator_guardian.Io.KeyManagement.Laws.{write_key_cases}
use validator_guardian.Io.RemoteAttestation.{AttestationEvidence}
use validator_guardian.Crypto.BlsKeys.{new_bls_key, save_bls_key}
use validator_guardian.Enclave.Shared.Records.{
  IsSerde, recorded, path_of, write_cases, recorded-insert,
}
use validator_guardian.Enclave.SecureSigner.{attest_new_bls_key}

module _ (hex : Hex) (ssz : Ssz) (serde : Serde) (bls : Bls) (agent : Agent) where
  open bls use {
    SecretKeySet, PublicKey, public_keys, public_key, public_key_to_hex, secret_key_set_to_bytes,
  }

  abbrev pub key_file : SecretKeySet → Text
  key_file sk =
      join bls_keys_dir (strip_0x_prefix (public_key_to_hex (public_key (public_keys sk))))

  abbrev pub key_text : SecretKeySet → Text
  key_text sk = strip_0x_prefix (hex.encode (secret_key_set_to_bytes sk))

  -- The key set is in its file, and the record of its public key, with nothing signed, in the file
  -- of that key; no other file changes.
  pub record IsGenerated (pk : PublicKey) (files files' : Files) : Type 0 where
    pub key_set : SecretKeySet
    pub has_key : pk ≡ public_key (public_keys key_set)
    pub pubkey_bytes : Bytes
    pub is_hex_of :
        hex.decode (strip_0x_prefix (public_key_to_hex (public_key (public_keys key_set))))
        ≡ some pubkey_bytes
    pub db : SlashingProtectionData
    pub is_pubkey : db.pubkey ≡ ssz.fixed_vector bls_pub_key_bytes pubkey_bytes
    pub no_blocks : db.signed_blocks ≡ []
    pub no_attestations : db.signed_attestations ≡ []
    pub is_recorded :
        (k : Text)
        → path_of k ≡ join slashing_protection_dir (hex.encode db.pubkey)
        → recorded serde files' k ≡ some db
    pub key_saved :
        text_eq (file_path hex db) (key_file key_set) ≡ false
        → lookup (key_file key_set) files' ≡ some (key_text key_set)
    pub others :
        (path : Text)
        → text_eq (file_path hex db) path ≡ false
        → text_eq (key_file key_set) path ≡ false
        → lookup path files' ≡ lookup path files

  from_pk_hex-empty :
      (pk_hex : Text) (db : SlashingProtectionData)
      → from_pk_hex hex ssz pk_hex ≡ ok db
      → (b : Bytes) × (hex.decode (strip_0x_prefix pk_hex) ≡ some b)
        × (db.pubkey ≡ ssz.fixed_vector bls_pub_key_bytes b)
        × (db.signed_blocks ≡ [])
        × (db.signed_attestations ≡ [])
  unfolding from_pk_hex new
  from_pk_hex-empty pk_hex db h = elim (Option-cases (hex.decode (strip_0x_prefix pk_hex))) [
    | inl bad ↦ absurd (ground (arith, bad, h))
    | inr (b, decoded) ↦
        let made : db ≡ new (ssz.fixed_vector bls_pub_key_bytes b) = ground (arith, decoded, h) in
        (
          b,
          decoded,
          ap (λ d. d.pubkey) made,
          ap (λ d. d.signed_blocks) made,
          ap (λ d. d.signed_attestations) made,
        )
  ]

  module _ (is_serde : IsSerde serde) where
    generated :
        (sk : SecretKeySet) (db : SlashingProtectionData) (json : Text) (files mid files' : Files)
        → from_pk_hex hex ssz (public_key_to_hex (public_key (public_keys sk))) ≡ ok db
        → serde.to_string db ≡ some json
        → mid ≡ insert (key_file sk) (key_text sk) files
        → files' ≡ insert (file_path hex db) json mid
        → IsGenerated (public_key (public_keys sk)) files files'
    unfolding file_path
    generated sk db json files mid files' empty text saved wrote =
        let (b, decoded, is_pubkey, no_blocks, no_attestations) = from_pk_hex-empty _ db empty in
        record {
          key_set = sk;
          has_key = refl;
          pubkey_bytes = b;
          is_hex_of = decoded;
          db = db;
          is_pubkey = is_pubkey;
          no_blocks = no_blocks;
          no_attestations = no_attestations;
          is_recorded = λ k same. ground (
            arith,
            wrote,
            same,
            recorded-insert serde is_serde (file_path hex db) db json mid k text,
            text_eq_refl (file_path hex db),
          );
          key_saved = λ apart. ground (
            arith,
            wrote,
            saved,
            apart,
            lookup-insert (file_path hex db) (key_file sk) json mid,
            lookup-insert (key_file sk) (key_file sk) (key_text sk) files,
            text_eq_refl (key_file sk),
          );
          others = λ path a b. ground (
            arith,
            wrote,
            saved,
            a,
            b,
            lookup-insert (file_path hex db) path json mid,
            lookup-insert (key_file sk) path (key_text sk) files,
          );
        }

    -- A key generation that succeeds leaves the key set in its file and, for every text that leads
    -- to the file of its public key's bytes, a record of that public key with nothing signed; no
    -- other file is changed.
    pub attest_new_bls_key-IsGenerated :
        (entropy : ℕ) (disk disk' : Disk) (proof : AttestationEvidence) (pk : PublicKey)
        → attest_new_bls_key hex ssz serde bls agent entropy disk ≡ (ok (proof, pk), disk')
        → IsGenerated pk disk.files disk'.files
    unfolding attest_new_bls_key save_bls_key write_bls_key
    attest_new_bls_key-IsGenerated entropy disk disk' proof pk h =
        elim (Outcome-cases (new_bls_key bls 0 entropy)) [
          | inl (sk, made) ↦ elim (write_key_cases (key_file sk) (key_text sk) disk) [
            | inl (e, d, unsaved, _) ↦ absurd (ground (arith, made, unsaved, h))
            | inr (mid, saved, mid_files) ↦
                elim (Outcome-cases
                  (from_pk_hex hex ssz (public_key_to_hex (public_key (public_keys sk))))) [
                    | inl (db, empty) ↦ elim (write_cases hex serde db mid) [
                      | inl (e, d, unwritten, _) ↦
                          absurd (ground (arith, made, saved, empty, unwritten, h))
                      | inr (json, end, wrote, text, files) ↦
                          let ends : disk' ≡ end = ground (arith, made, saved, empty, wrote, h) in
                          let key : pk ≡ public_key (public_keys sk) =
                            ground (arith, made, saved, empty, wrote, h) in
                          subst (λ d. IsGenerated pk disk.files d.files) (sym ends)
                            (subst (λ p. IsGenerated p disk.files end.files) (sym key)
                              (generated sk db json disk.files mid.files end.files empty text
                                mid_files files))
                    ]
                    | inr (inl (e, bad)) ↦ absurd (ground (arith, made, saved, bad, h))
                    | inr (inr bad) ↦ absurd (ground (arith, made, saved, bad, h))
                  ]
          ]
          | inr (inl (e, bad)) ↦ absurd (ground (arith, bad, h))
          | inr (inr bad) ↦ absurd (ground (arith, bad, h))
        ]
