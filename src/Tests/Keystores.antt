-- ===== src/Tests/Keystores.antt =====
-- A validator key that is generated at the client for one guardian, and its keystore.
use mathlib.Core.List.{zip}
use validator_guardian.Prelude.{
  ℕ, ◌≡◌, refl, arith, true, some, [], ◌∷◌, ◌++◌, replicate, if◌then◌else◌, Bool-cases, inl, inr,
}
use validator_guardian.Text.{Text, Bytes, text_eq, text_eq_refl, strip_0x_prefix}
use validator_guardian.Outcome.{
  Outcome, ok, err, or_err, decryption_failure, invalid_deposit_signature,
}
use validator_guardian.Disk.{
  Disk, Exec, ◌>>=◌, lift, pure, join, create_dir_all, write_file, read_file, insert, lookup-insert,
  strip_dir,
}
use validator_guardian.Disk.Laws.{write_file_denied, write_file_allowed}
use validator_guardian.External.Keystore.{Keystore, IsKeystore}
use validator_guardian.Io.KeyManagement.Keystores.{write_bls_keystore}
use validator_guardian.Crypto.EthKeys.{envelope_encrypt, eth_pk_to_hex_uncompressed}
use validator_guardian.Crypto.BlsKeys.{new_bls_key, distribute_key_shares, range_from}
use validator_guardian.Crypto.BlsKeys.Keystores.{save_bls_keystore, fetch_bls_sk_keystore}
use validator_guardian.Eth2.Signing.{compute_signing_root}
use validator_guardian.Eth2.Types.{genesis_fork_version}
use validator_guardian.Eth2.Deposit.{sign_full_deposit}
use validator_guardian.Enclave.Payload.{BlsKeygenPayload}
use validator_guardian.Enclave.Validator.{threshold_below, encrypt_to_recipient, encrypt_shares}
use validator_guardian.Enclave.Guardian.{verify_deposit_message}
use validator_guardian.Enclave.Handover.Deposit.{deposit_root}
use validator_guardian.Client.Keygen.{generate_bls_keystore}
use validator_guardian.Client.Keygen.Deposit.{
  generate_bls_keystore-verify_deposit_message, fetch_bls_sk_keystore-generate_bls_keystore,
}
use validator_guardian.Tests.HexWorld.{
  hex_world, hex_world-IsHex, encode, decode, digit, value, byte_of,
}
use validator_guardian.Tests.World.{tree_world}
use validator_guardian.Tests.CustodyWorld.{secp_world, guardian_disk, zeros-IsBytes}
use validator_guardian.Tests.SmallWorld.{
  small_bls, small_bls-IsBlsKeys, small_bls-IsBlsShares, small_bls-IsBlsSecretKey,
}

-- A keystore is the password before the key.
seal_key : Text → ℕ → Bytes → Text → Text → Exec Text
seal_key dir entropy sk password name = do
  _ ← write_file (join dir name) (password ++ sk)
  pure name

open_key : Text → Text → Exec Bytes
open_key path password = do
  c ← read_file path
  lift (or_err (strip_dir password c) decryption_failure)

strip_dir-append : (a b : Text) → strip_dir a (a ++ b) ≡ some b
unfolding strip_dir
strip_dir-append [] b = refl
strip_dir-append (x ∷ a) b = ground (arith, strip_dir-append a b)

open_key-seal_key :
    (dir : Text) (entropy : ℕ) (sk : Bytes) (password name uuid : Text) (disk disk' : Disk)
    → seal_key dir entropy sk password name disk ≡ (ok uuid, disk')
    → open_key (join dir name) password disk' ≡ (ok sk, disk')
unfolding seal_key open_key read_file
open_key-seal_key dir entropy sk password name uuid disk disk' h =
    let path = join dir name in
    elim (Bool-cases (disk.denied path)) [
      | inl denied ↦ absurd (ground (arith, write_file_denied disk path (password ++ sk) denied, h))
      | inr allowed ↦ ground (
        arith,
        write_file_allowed disk path (password ++ sk) allowed,
        h,
        lookup-insert path path (password ++ sk) disk.files,
        text_eq_refl path,
        strip_dir-append password sk,
      )
    ]

abbrev keystore_world : Keystore
keystore_world = record {
  encrypt_key = seal_key;
  decrypt_key = open_key;
  decrypt_keystore = λ keystore password. strip_dir password keystore;
}

keystore_world-IsKeystore : IsKeystore keystore_world
keystore_world-IsKeystore = record { decrypt_key-encrypt_key = open_key-seal_key }

abbrev run : Outcome BlsKeygenPayload × Disk
run =
    generate_bls_keystore hex_world tree_world secp_world small_bls keystore_world (λ i. 1) 4
      (replicate 32 0) (true ∷ []) 2 (b'p' ∷ []) (1 ∷ 0 ∷ 0 ∷ 0 ∷ []) guardian_disk

abbrev generated : BlsKeygenPayload
generated = record {
  bls_pub_key_set = encode (1 ∷ replicate 95 0);
  bls_pub_key = encode (1 ∷ replicate 47 0);
  signature = encode (1 ∷ replicate 95 0);
  deposit_data_root = encode (0 ∷ 1 ∷ replicate 30 0);
  bls_enc_priv_key_shares = encode (1 ∷ 1 ∷ 0 ∷ replicate 30 0) ∷ [];
  session_id = [];
  attestation_signature = [];
  session_public_key = [];
  guardian_eth_pub_keys = encode (1 ∷ replicate 64 0) ∷ [];
  withdrawal_credentials = encode (replicate 32 0);
  fork_version = replicate 4 0;
}

returns : run ≡ (ok generated, run.1)
unfolding generate_bls_keystore new_bls_key threshold_below encrypt_shares encrypt_to_recipient
    envelope_encrypt distribute_key_shares range_from zip save_bls_keystore write_bls_keystore
    create_dir_all write_file insert join strip_0x_prefix text_eq sign_full_deposit
    compute_signing_root eth_pk_to_hex_uncompressed encode decode digit value byte_of seal_key
returns = refl

generate_bls_keystore-verify_deposit_message_example :
    (k : small_bls.SecretKeySet) × (generated.bls_pub_key
      ≡ small_bls.public_key_to_hex (small_bls.public_key (small_bls.public_keys k)))
    × (verify_deposit_message hex_world tree_world small_bls generated ≡ (
        if small_bls.verify
          (small_bls.public_key (small_bls.public_keys k))
          (small_bls.sign
            (small_bls.secret_key k)
            (deposit_root hex_world tree_world small_bls k (replicate 32 0) (1 ∷ 0 ∷ 0 ∷ 0 ∷ [])))
          (deposit_root hex_world tree_world small_bls k (replicate 32 0) genesis_fork_version)
        then ok tt
        else err invalid_deposit_signature))
generate_bls_keystore-verify_deposit_message_example =
    generate_bls_keystore-verify_deposit_message hex_world tree_world secp_world small_bls
      keystore_world (λ i. 1) 4 (replicate 32 0) (true ∷ []) 2 (b'p' ∷ []) (1 ∷ 0 ∷ 0 ∷ 0 ∷ [])
      guardian_disk run.1 generated hex_world-IsHex small_bls-IsBlsShares (zeros-IsBytes 32) refl
      returns

fetch_bls_sk_keystore-generate_bls_keystore_example :
    (k : small_bls.SecretKeySet) × (fetch_bls_sk_keystore keystore_world small_bls
        generated.bls_pub_key
        (b'p' ∷ [])
        run.1
      ≡ (ok k, run.1))
    × (small_bls.public_key_to_hex (small_bls.public_key (small_bls.public_keys k))
        ≡ generated.bls_pub_key)
fetch_bls_sk_keystore-generate_bls_keystore_example =
    fetch_bls_sk_keystore-generate_bls_keystore hex_world tree_world secp_world small_bls
      keystore_world (λ i. 1) 4 (replicate 32 0) (true ∷ []) 2 (b'p' ∷ []) (1 ∷ 0 ∷ 0 ∷ 0 ∷ [])
      guardian_disk run.1 generated hex_world-IsHex keystore_world-IsKeystore small_bls-IsBlsKeys
      small_bls-IsBlsSecretKey returns
