-- ===== src/Tests/Handover.antt =====
-- A payload generated for two guardians reaches the second of them.
use mathlib.Core.List.{zip}
use validator_guardian.Prelude.{◌≡◌, refl, true, false, [], ◌∷◌, replicate}
use validator_guardian.Text.{text_eq, strip_0x_prefix}
use validator_guardian.Outcome.{Outcome, ok}
use validator_guardian.Disk.{Disk, join, create_dir_all, write_file, insert, parent, has_slash}
use validator_guardian.Io.KeyManagement.{write_key, write_bls_key}
use validator_guardian.Crypto.EthKeys.{envelope_encrypt, eth_pk_to_hex_uncompressed}
use validator_guardian.Crypto.BlsKeys.{new_bls_key, distribute_key_shares, range_from, save_bls_key}
use validator_guardian.Eth2.SlashProtection.{new, from_pk_hex}
use validator_guardian.Eth2.SlashProtection.Storage.{write, file_path}
use validator_guardian.Eth2.Signing.{compute_signing_root}
use validator_guardian.Eth2.Deposit.{sign_full_deposit}
use validator_guardian.Enclave.Payload.{BlsKeygenPayload}
use validator_guardian.Enclave.Shared.Attestation.{
  build_validator_remote_attestation_payload, hashed_shares, be_bytes,
}
use validator_guardian.Enclave.Validator.{
  threshold_below, encrypt_to_recipient, encrypt_shares, attest_fresh_bls_key,
}
use validator_guardian.Enclave.Guardian.{ValidateCustodyRequest, checked_share}
use validator_guardian.Enclave.Handover.{attest_fresh_bls_key-checked_share}
use validator_guardian.Tests.HexWorld.{
  hex_world, hex_world-IsHex, encode, decode, digit, value, byte_of,
}
use validator_guardian.Tests.SerdeWorld.{
  serde_world, print, put_bytes, put_items, put_block, put_attestation, put_root,
}
use validator_guardian.Tests.World.{tree_world}
use validator_guardian.Tests.CustodyWorld.{
  secp_world, ssz_world, agent_world, guardian_disk, ethers_world, registry_world, zeros-IsBytes,
}
use validator_guardian.Tests.SmallWorld.{
  small_bls, small_bls-IsBlsKeys, small_bls-IsBlsShares, true-IsEnvelopeKey,
}

abbrev run : Outcome BlsKeygenPayload × Disk
run =
    attest_fresh_bls_key hex_world ssz_world serde_world tree_world secp_world small_bls agent_world
      (λ i. 1) (replicate 32 0) (false ∷ true ∷ []) 2 (replicate 4 0) false guardian_disk

abbrev generated : BlsKeygenPayload
generated = record {
  bls_pub_key_set = encode (1 ∷ replicate 95 0);
  bls_pub_key = encode (1 ∷ replicate 47 0);
  signature = encode (1 ∷ replicate 95 0);
  deposit_data_root = encode (0 ∷ 1 ∷ replicate 30 0);
  bls_enc_priv_key_shares =
      encode (0 ∷ 1 ∷ 0 ∷ replicate 30 0) ∷ encode (1 ∷ 1 ∷ 1 ∷ replicate 30 0) ∷ [];
  session_id = [];
  attestation_signature = [];
  session_public_key = [];
  guardian_eth_pub_keys = encode (0 ∷ replicate 64 0) ∷ encode (1 ∷ replicate 64 0) ∷ [];
  withdrawal_credentials = encode (replicate 32 0);
  fork_version = replicate 4 0;
}

abbrev request : ValidateCustodyRequest secp_world
request = record {
  keygen_payload = generated;
  guardian_enclave_public_key = true;
  workload_id = [];
  verify_session = false;
  validator_index = 3;
}

attest_fresh_bls_key-checked_share_example :
    (share : small_bls.SecretKeyShare) × (checked_share hex_world ssz_world tree_world secp_world
        small_bls ethers_world registry_world request true
      ≡ ok share)
unfolding attest_fresh_bls_key new_bls_key threshold_below encrypt_shares encrypt_to_recipient
    envelope_encrypt distribute_key_shares range_from zip save_bls_key write_bls_key write_key
    create_dir_all write_file insert parent has_slash join strip_0x_prefix text_eq from_pk_hex new
    write file_path sign_full_deposit compute_signing_root
    build_validator_remote_attestation_payload hashed_shares be_bytes eth_pk_to_hex_uncompressed
    encode decode digit value byte_of print put_bytes put_items put_block put_attestation put_root
attest_fresh_bls_key-checked_share_example =
    attest_fresh_bls_key-checked_share hex_world ssz_world serde_world tree_world secp_world
      small_bls agent_world ethers_world registry_world hex_world-IsHex small_bls-IsBlsKeys
      small_bls-IsBlsShares (λ i. 1) (replicate 32 0) (false ∷ true ∷ []) 2 (replicate 4 0) false
      guardian_disk run.1 request 1 true refl (zeros-IsBytes 32) refl refl true-IsEnvelopeKey
      (λ asks. cc)
