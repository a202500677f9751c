-- ===== src/Tests/Keygen.antt =====
-- A validator key for two guardians.
use mathlib.Core.List.{zip}
use validator_guardian.Prelude.{refl, true, false, [], ◌∷◌, replicate}
use validator_guardian.Text.{text_eq, strip_0x_prefix}
use validator_guardian.Outcome.{Outcome}
use validator_guardian.Disk.{Disk, join, create_dir_all, write_file, insert, parent, has_slash}
use validator_guardian.Io.KeyManagement.{write_key, write_bls_key}
use validator_guardian.Crypto.EthKeys.{envelope_encrypt, eth_pk_to_hex_uncompressed}
use validator_guardian.Crypto.BlsKeys.{new_bls_key, distribute_key_shares, range_from, save_bls_key}
use validator_guardian.Eth2.SlashProtection.{new, from_pk_hex}
use validator_guardian.Eth2.SlashProtection.Storage.{write, file_path}
use validator_guardian.Eth2.Signing.{compute_signing_root}
use validator_guardian.Eth2.Deposit.{sign_full_deposit}
use validator_guardian.Enclave.Payload.{BlsKeygenPayload}
use validator_guardian.Enclave.Shared.Attestation.{
  build_validator_remote_attestation_payload, hashed_shares, be_bytes,
}
use validator_guardian.Enclave.Validator.{
  threshold_below, encrypt_to_recipient, encrypt_shares, attest_fresh_bls_key,
}
use validator_guardian.Enclave.Validator.Sealed.{IsShared, attest_fresh_bls_key-IsShared}
use validator_guardian.Io.RemoteAttestation.{AttestationEvidence, no_evidence, attest}
use validator_guardian.Enclave.SecureSigner.{attest_new_bls_key}
use validator_guardian.Enclave.SecureSigner.Keygen.{IsGenerated, attest_new_bls_key-IsGenerated}
use validator_guardian.Tests.SerdeWorld.{
  serde_world-IsSerde, serde_world, print, put_bytes, put_items, put_block, put_attestation,
  put_root,
}
use validator_guardian.Tests.CustodyWorld.{
  stub_world, secp_world, ssz_world, agent_world, guardian_disk, sealed,
}
use validator_guardian.Tests.HexWorld.{hex_world, encode, decode, digit, value, byte_of}
use validator_guardian.Tests.World.{tree_world, bls_world, pad, fill}

abbrev run : Outcome BlsKeygenPayload × Disk
run =
    attest_fresh_bls_key hex_world ssz_world serde_world tree_world secp_world bls_world agent_world
      (λ i. 9) (replicate 32 2) (false ∷ true ∷ []) 2 (replicate 4 0) false guardian_disk

abbrev keygen_payload : BlsKeygenPayload
keygen_payload = record {
  bls_pub_key_set = encode (1 ∷ 9 ∷ []);
  bls_pub_key = encode (replicate 48 9);
  signature = encode (fill (9 ∷ pad (0 ∷ replicate 48 9)));
  deposit_data_root = encode (pad (0 ∷ fill (9 ∷ pad (0 ∷ replicate 48 9))));
  bls_enc_priv_key_shares = sealed 0 9 ∷ sealed 1 10 ∷ [];
  session_id = [];
  attestation_signature = [];
  session_public_key = [];
  guardian_eth_pub_keys = encode (0 ∷ replicate 64 0) ∷ encode (1 ∷ replicate 64 0) ∷ [];
  withdrawal_credentials = encode (replicate 32 2);
  fork_version = replicate 4 0;
}

attest_fresh_bls_key-IsShared_example :
    IsShared hex_world ssz_world serde_world tree_world secp_world bls_world agent_world
      (false ∷ true ∷ [])
      2
      keygen_payload
unfolding attest_fresh_bls_key new_bls_key threshold_below encrypt_shares encrypt_to_recipient
    envelope_encrypt distribute_key_shares range_from zip save_bls_key write_bls_key write_key
    create_dir_all write_file insert parent has_slash join strip_0x_prefix text_eq from_pk_hex new
    write file_path sign_full_deposit compute_signing_root
    build_validator_remote_attestation_payload hashed_shares be_bytes eth_pk_to_hex_uncompressed
    encode decode digit value byte_of print put_bytes put_items put_block put_attestation put_root
attest_fresh_bls_key-IsShared_example =
    attest_fresh_bls_key-IsShared hex_world ssz_world serde_world tree_world secp_world bls_world
      agent_world (λ i. 9) (replicate 32 2) (false ∷ true ∷ []) 2 (replicate 4 0) false
      guardian_disk run.1 keygen_payload refl

abbrev generation : Outcome (AttestationEvidence × bls_world.PublicKey) × Disk
generation = attest_new_bls_key hex_world ssz_world serde_world bls_world stub_world 9 guardian_disk

attest_new_bls_key-IsGenerated_example :
    IsGenerated hex_world ssz_world serde_world bls_world stub_world 9 guardian_disk.files
      generation.1.files
unfolding attest_new_bls_key new_bls_key save_bls_key write_bls_key write_key create_dir_all
    write_file insert parent has_slash join strip_0x_prefix text_eq from_pk_hex new write file_path
    attest encode decode digit value byte_of print put_bytes put_items put_block put_attestation
    put_root
attest_new_bls_key-IsGenerated_example =
    attest_new_bls_key-IsGenerated hex_world ssz_world serde_world bls_world stub_world
      serde_world-IsSerde 9 guardian_disk generation.1 (no_evidence stub_world) 9 refl
