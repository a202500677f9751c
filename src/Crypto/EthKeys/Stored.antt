-- ===== src/Crypto/EthKeys/Stored.antt =====
-- src/crypto/eth_keys.rs: the secp256k1 keys on the disk, saved and fetched.
use validator_guardian.Prelude.{◌≡◌, ◌⊎◌, inl, inr, Option, none, some, arith, Option-cases}
use validator_guardian.Text.{Text, text_eq_refl, strip_0x_prefix}
use validator_guardian.Outcome.{Error, ok, err, bad_key_bytes}
use validator_guardian.Disk.{Files, Disk, join}
use validator_guardian.Constants.{eth_keys_dir}
use validator_guardian.External.Hex.{Hex, IsHex}
use validator_guardian.External.Secp.{Secp, IsSecp}
use validator_guardian.Io.KeyManagement.{write_eth_key, read_eth_key}
use validator_guardian.Io.KeyManagement.Laws.{
  key_bytes, key_bytes-insert, read_key_cases, write_key_cases,
}
use validator_guardian.Crypto.EthKeys.{
  eth_pk_to_hex, eth_sk_to_hex, eth_pk_from_hex, eth_sk_from_bytes, save_eth_key, fetch_eth_key,
}

module _ (hex : Hex) (secp : Secp) where
  open secp use {SecretKey, PublicKey, parse_secret_key, serialize_compressed, serialize_secret_key}

  abbrev pub eth_key_path : Text → Text
  eth_key_path pk_hex = join eth_keys_dir (strip_0x_prefix (strip_0x_prefix pk_hex))

  -- the secret key that is found for a public key
  unfoldable pub stored_eth_key : Files → Text → Option SecretKey
  stored_eth_key files pk_hex = elim (key_bytes hex files (eth_key_path pk_hex)) [
    | none ↦ none
    | some b ↦ parse_secret_key b
  ]

  pub fetch_eth_key_cases :
      (pk_hex : Text) (disk : Disk)
      → (stored_eth_key disk.files pk_hex ≡ none)
          × ((e : Error) × (fetch_eth_key hex secp pk_hex disk ≡ (err e, disk)))
        ⊎ ((sk : SecretKey) × (stored_eth_key disk.files pk_hex ≡ some sk)
            × (fetch_eth_key hex secp pk_hex disk ≡ (ok sk, disk)))
  unfolding stored_eth_key fetch_eth_key read_eth_key eth_sk_from_bytes
  fetch_eth_key_cases pk_hex disk = elim (read_key_cases hex (eth_key_path pk_hex) disk) [
    | inl (no_bytes, (e, unread)) ↦ inl (ground (arith, no_bytes), (e, ground (arith, unread)))
    | inr (b, bytes, was_read) ↦ elim (Option-cases (parse_secret_key b)) [
      | inl bad ↦ inl (ground (arith, bytes), (bad_key_bytes, ground (arith, was_read)))
      | inr (sk, parsed) ↦ inr (sk, ground (arith, bytes), ground (arith, was_read))
    ]
  ]

  module _ (is_hex : IsHex hex) (is_secp : IsSecp secp) where
    fetched :
        (sk : SecretKey) (pk : PublicKey) (disk : Disk)
        → key_bytes hex disk.files (eth_key_path (eth_pk_to_hex hex secp pk))
          ≡ some (serialize_secret_key sk)
        → fetch_eth_key hex secp (eth_pk_to_hex hex secp pk) disk ≡ (ok sk, disk)
    unfolding stored_eth_key
    fetched sk pk disk h = elim (fetch_eth_key_cases (eth_pk_to_hex hex secp pk) disk) [
      | inl (missing, failed) ↦ absurd (ground (arith, h, is_secp.parse-serialize_secret_key sk))
      | inr (sk', found, e) ↦ ground (arith, h, is_secp.parse-serialize_secret_key sk)
    ]

    -- Saving a key pair fails and leaves the files alone, or fetching by the hex of the public key
    -- then returns the secret key and changes nothing.
    pub fetch_eth_key-save_eth_key :
        (sk : SecretKey) (pk : PublicKey) (disk : Disk)
        → ((e : Error) × (disk' : Disk) × (save_eth_key hex secp sk pk disk ≡ (err e, disk'))
            × (disk'.files ≡ disk.files))
          ⊎ ((disk' : Disk) × (save_eth_key hex secp sk pk disk ≡ (ok pk, disk'))
              × (fetch_eth_key hex secp (eth_pk_to_hex hex secp pk) disk' ≡ (ok sk, disk')))
    unfolding save_eth_key write_eth_key eth_pk_to_hex eth_sk_to_hex
    fetch_eth_key-save_eth_key sk pk disk =
        let name = is_hex.strip_0x_prefix-encode (serialize_compressed pk) in
        let text = is_hex.strip_0x_prefix-encode (serialize_secret_key sk) in
        let path = join eth_keys_dir (hex.encode (serialize_compressed pk)) in
        elim (write_key_cases path (strip_0x_prefix (hex.encode (serialize_secret_key sk))) disk) [
          | inl (e, disk', failed, same) ↦ inl (e, disk', ground (arith, name, text, failed), same)
          | inr (disk', written, files) ↦ inr (
            disk',
            ground (arith, name, text, written),
            fetched sk pk disk' (
                ground (
                  arith,
                  name,
                  files,
                  key_bytes-insert hex is_hex path path (serialize_secret_key sk) disk.files
                      (is_secp.serialize_secret_key-IsBytes sk),
                  text_eq_refl path,
                )),
          )
        ]

    -- The hex of a public key parses back to it.
    pub eth_pk_from_hex-eth_pk_to_hex :
        (pk : PublicKey) → eth_pk_from_hex hex secp (eth_pk_to_hex hex secp pk) ≡ ok pk
    unfolding eth_pk_from_hex eth_pk_to_hex
    eth_pk_from_hex-eth_pk_to_hex pk = ground (
      arith,
      is_hex.strip_0x_prefix-encode (serialize_compressed pk),
      is_hex.decode-encode (serialize_compressed pk) (is_secp.serialize_compressed-IsBytes pk),
      is_secp.length-serialize_compressed pk,
      is_secp.parse_compressed-serialize_compressed pk,
    )
