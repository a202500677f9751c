-- ===== src/Tests/Attested.antt =====
-- A fresh key that the CVM agent attests, and the evidence of the payload of a guardian.
use mathlib.Core.List.{zip}
use validator_guardian.Prelude.{
  ◌≡◌, refl, true, false, [], ◌∷◌, replicate, ℕ, List, ◌↔◌, if◌then◌else◌, ◌%◌, arith, some,
}
use validator_guardian.Text.{text_eq, strip_0x_prefix}
use validator_guardian.Outcome.{Outcome, ok}
use validator_guardian.Disk.{Disk, join, create_dir_all, write_file, insert, parent, has_slash}
use validator_guardian.Io.KeyManagement.{write_key, write_bls_key}
use validator_guardian.Crypto.EthKeys.{envelope_encrypt, eth_pk_to_hex_uncompressed}
use validator_guardian.Crypto.BlsKeys.{new_bls_key, distribute_key_shares, range_from, save_bls_key}
use validator_guardian.Eth2.SlashProtection.{new, from_pk_hex}
use validator_guardian.Eth2.SlashProtection.Storage.{write, file_path}
use validator_guardian.Eth2.Signing.{compute_signing_root}
use validator_guardian.Eth2.Deposit.{sign_full_deposit}
use validator_guardian.Enclave.Payload.{BlsKeygenPayload}
use validator_guardian.Enclave.Shared.Attestation.{
  build_validator_remote_attestation_payload, hashed_shares, be_bytes,
}
use validator_guardian.Enclave.Validator.{
  threshold_below, encrypt_to_recipient, encrypt_shares, attest_fresh_bls_key,
}
use validator_guardian.Tests.HexWorld.{
  hex_world, hex_world-IsHex, encode, decode, digit, value, byte_of,
}
use validator_guardian.Tests.SerdeWorld.{
  serde_world, print, put_bytes, put_items, put_block, put_attestation, put_root,
}
use validator_guardian.Tests.World.{tree_world, pad, bls_world}
use validator_guardian.Tests.CustodyWorld.{
  secp_world, ssz_world, agent_world, guardian_disk, registry_world, zeros-IsBytes, payload,
  secp_world-IsSecp, ssz_world-IsSsz,
}
use validator_guardian.Tests.SmallWorld.{small_bls, small_bls-IsBlsShares}
use validator_guardian.External.TreeHash.{TreeHash, IsDepositHash}
use validator_guardian.External.Session.{Agent}
use validator_guardian.Io.RemoteAttestation.{AttestationEvidence, attest, no_evidence}
use validator_guardian.Enclave.Session.{attested_message, verify_session_evidence}
use validator_guardian.Enclave.Session.Evidence.{IsAttested, verify_session_evidence_iff}
use validator_guardian.Enclave.Handover.Attested.{attested_message-attest_fresh_bls_key}

abbrev deposit_tree : TreeHash
deposit_tree = record tree_world { hash_deposit_data = λ d. pad (d.amount % 256 ∷ []) }

deposit_tree-IsDepositHash : IsDepositHash deposit_tree
deposit_tree-IsDepositHash = record {
  length-hash_deposit_data = λ d. refl;
  hash_deposit_data-IsBytes = λ d. (omega arith, zeros-IsBytes 31);
}

-- an agent whose signature is the message
abbrev signing_agent : Agent
signing_agent = record agent_world {
  sign_with_session = λ message. some (record {
    session_id = encode (replicate 32 5);
    signature = encode message;
    session_key = agent_world.default_identity;
    owner_key = agent_world.default_identity;
  });
}

abbrev run : Outcome BlsKeygenPayload × Disk
run =
    attest_fresh_bls_key hex_world ssz_world serde_world deposit_tree secp_world small_bls
      signing_agent (λ i. 1) (replicate 32 0) (false ∷ true ∷ []) 2 (replicate 4 0) true
      guardian_disk

abbrev generated : BlsKeygenPayload
generated = record {
  bls_pub_key_set = encode (1 ∷ replicate 95 0);
  bls_pub_key = encode (1 ∷ replicate 47 0);
  signature = encode (1 ∷ replicate 95 0);
  deposit_data_root = encode (replicate 32 0);
  bls_enc_priv_key_shares =
      encode (0 ∷ 1 ∷ 0 ∷ replicate 30 0) ∷ encode (1 ∷ 1 ∷ 1 ∷ replicate 30 0) ∷ [];
  session_id = encode (replicate 32 5);
  attestation_signature = encode (1 ∷ replicate 63 0);
  session_public_key = [];
  guardian_eth_pub_keys = encode (0 ∷ replicate 64 0) ∷ encode (1 ∷ replicate 64 0) ∷ [];
  withdrawal_credentials = encode (replicate 32 0);
  fork_version = replicate 4 0;
}

attested_message-attest_fresh_bls_key_example :
    (message : List ℕ) × (evidence : AttestationEvidence) × ((if true
        then attest signing_agent message
        else ok (no_evidence signing_agent))
      ≡ ok evidence)
    × (generated.session_id ≡ evidence.session_id)
    × (generated.attestation_signature ≡ evidence.signature)
    × (generated.session_public_key
        ≡ signing_agent.identity_key_to_string evidence.session_public_key.key)
    × (attested_message hex_world ssz_world secp_world small_bls generated
        ≡ ok (secp_world.keccak256 message))
unfolding attest_fresh_bls_key new_bls_key threshold_below encrypt_shares encrypt_to_recipient
    envelope_encrypt distribute_key_shares range_from zip save_bls_key write_bls_key write_key
    create_dir_all write_file insert parent has_slash join strip_0x_prefix text_eq from_pk_hex new
    write file_path sign_full_deposit compute_signing_root
    build_validator_remote_attestation_payload hashed_shares be_bytes eth_pk_to_hex_uncompressed
    encode decode digit value byte_of print put_bytes put_items put_block put_attestation put_root
    attest
attested_message-attest_fresh_bls_key_example =
    attested_message-attest_fresh_bls_key hex_world ssz_world serde_world deposit_tree secp_world
      small_bls signing_agent (λ i. 1) (replicate 32 0) (false ∷ true ∷ []) 2 (replicate 4 0) true
      guardian_disk run.1 generated hex_world-IsHex ssz_world-IsSsz secp_world-IsSecp
      small_bls-IsBlsShares deposit_tree-IsDepositHash refl

verify_session_evidence_iff_example :
    (verify_session_evidence hex_world ssz_world secp_world bls_world registry_world payload
        (encode (replicate 32 9))
      ≡ ok tt)
    ↔ IsAttested hex_world ssz_world secp_world bls_world registry_world payload
        (encode (replicate 32 9))
verify_session_evidence_iff_example =
    verify_session_evidence_iff hex_world ssz_world secp_world bls_world registry_world payload
      (encode (replicate 32 9))
