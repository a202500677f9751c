-- ===== src/Tests/Custody.antt =====
-- A guardian takes a share into custody and signs the exit with it.
use validator_guardian.Prelude.{◌≡◌, refl, ◌⊎◌, inl, inr, true, ◌∷◌, replicate}
use mathlib.Core.List.{zip}
use validator_guardian.Text.{Text, text_eq, strip_0x_prefix}
use validator_guardian.Outcome.{Outcome, Error, ok, err}
use validator_guardian.Disk.{
  Disk, read_file, lookup, join, create_dir_all, write_file, insert, parent, has_slash,
}
use validator_guardian.Crypto.EthKeys.{
  eth_pk_to_hex, eth_pk_from_hex, save_eth_key, fetch_eth_key, eth_sk_from_bytes, envelope_decrypt,
  eth_pk_from_hex_uncompressed,
}
use validator_guardian.Crypto.EthKeys.Stored.{
  fetch_eth_key-save_eth_key, eth_pk_from_hex-eth_pk_to_hex,
}
use validator_guardian.Io.KeyManagement.{read_key, read_eth_key, write_key, write_bls_key}
use validator_guardian.Eth2.Signing.{compute_signing_root}
use validator_guardian.Enclave.Session.{
  verify_session_evidence, check_fields, is_empty, attested_message, guardian_keys, parse_b256,
  parse_session_public_key, check_workload,
}
use validator_guardian.Enclave.Shared.Attestation.{
  build_validator_remote_attestation_payload, hashed_shares, be_bytes,
}
use validator_guardian.Enclave.Payload.{
  public_key_set, public_key_set_of, signature, withdrawal_credentials, deposit_message_root,
  deposit_data_root, verify_public_keys_match, decrypt_sk_share,
}
use validator_guardian.Enclave.Guardian.{
  ValidateCustodyResponse, verify_custody, verify_and_sign_custody_received, approve_custody,
  fetch_guardian_key, checked_share, verify_deposit_message, find_share, same_share, save_share,
  custody_digest, sign_digest,
}
use validator_guardian.Enclave.Guardian.Share.{
  StatesSet, NoneOpens, FirstOpens, verify_custody_cases,
}
use validator_guardian.Enclave.Guardian.Custody.{
  Untouched, InCustody, answer, verify_and_sign_custody_received_cases,
}
use validator_guardian.Enclave.Exit.{sign_voluntary_exit_message}
use validator_guardian.Enclave.Exit.Custody.{
  exit_request, exit_response, place, sign_voluntary_exit_message-InCustody,
}
use validator_guardian.Tests.HexWorld.{
  hex_world, hex_world-IsHex, encode, decode, digit, value, byte_of,
}
use validator_guardian.Tests.World.{tree_world, bls_world, bls_world-IsBls, fork_info}
use validator_guardian.Tests.CustodyWorld.{
  secp_world, secp_world-IsSecp, ssz_world, ethers_world, registry_world, payload, request,
  guardian_disk,
}

verify_custody_cases_example :
    ((e : Error) × (verify_custody hex_world secp_world bls_world payload true ≡ err e))
      × ((pk_set : bls_world.PublicKeySet)
          → StatesSet hex_world secp_world bls_world payload true pk_set
          → bls_world.public_key_to_hex (bls_world.public_key pk_set)
            ≡ strip_0x_prefix payload.bls_pub_key
          → NoneOpens hex_world secp_world bls_world payload true pk_set 0 2)
    ⊎ ((pk_set : bls_world.PublicKeySet) × (share : bls_world.SecretKeyShare) × (verify_custody
            hex_world secp_world bls_world payload true
          ≡ ok share)
        × StatesSet hex_world secp_world bls_world payload true pk_set
        × (bls_world.public_key_to_hex (bls_world.public_key pk_set)
            ≡ strip_0x_prefix payload.bls_pub_key)
        × FirstOpens hex_world secp_world bls_world payload true pk_set 0 2 share)
verify_custody_cases_example = verify_custody_cases hex_world secp_world bls_world payload true

abbrev taken : Outcome ValidateCustodyResponse × Disk
taken =
    verify_and_sign_custody_received hex_world ssz_world tree_world secp_world bls_world
      ethers_world registry_world request guardian_disk

verify_and_sign_custody_received_cases_example :
    Untouched hex_world ssz_world tree_world secp_world bls_world ethers_world registry_world
      request guardian_disk taken
    ⊎ InCustody hex_world ssz_world tree_world secp_world bls_world ethers_world registry_world
        request guardian_disk taken
verify_and_sign_custody_received_cases_example =
    verify_and_sign_custody_received_cases hex_world ssz_world tree_world secp_world bls_world
      ethers_world registry_world request guardian_disk

abbrev approval : Text
approval = encode (64 ∷ 5 ∷ replicate 31 0)

taken_ok :
    taken.0
    ≡ ok (
        answer hex_world ssz_world tree_world secp_world bls_world ethers_world registry_world
          request approval)
unfolding verify_and_sign_custody_received fetch_guardian_key fetch_eth_key eth_pk_to_hex
    read_eth_key read_key read_file lookup join strip_0x_prefix encode decode digit value byte_of
    text_eq eth_sk_from_bytes checked_share verify_session_evidence check_fields is_empty
    attested_message guardian_keys eth_pk_from_hex_uncompressed
    build_validator_remote_attestation_payload hashed_shares be_bytes parse_b256
    parse_session_public_key check_workload verify_deposit_message public_key_set public_key_set_of
    signature withdrawal_credentials deposit_message_root deposit_data_root compute_signing_root
    verify_custody verify_public_keys_match find_share decrypt_sk_share envelope_decrypt same_share
    save_share write_bls_key write_key create_dir_all write_file insert parent has_slash
    approve_custody custody_digest sign_digest zip
taken_ok = refl

-- the share that was taken
in_custody :
    InCustody hex_world ssz_world tree_world secp_world bls_world ethers_world registry_world
      request guardian_disk taken
in_custody = elim verify_and_sign_custody_received_cases_example [
  | inl untouched ↦ absurd (untouched.0 _ taken_ok)
  | inr custody ↦ custody
]

sign_voluntary_exit_message-InCustody_example :
    sign_voluntary_exit_message hex_world tree_world bls_world
      (exit_request hex_world ssz_world tree_world secp_world bls_world ethers_world registry_world
        hex_world-IsHex bls_world-IsBls request 3 fork_info
        (place hex_world ssz_world tree_world secp_world bls_world ethers_world registry_world
          hex_world-IsHex bls_world-IsBls request 3 fork_info guardian_disk taken in_custody))
      taken.1
    ≡ (
      ok (
          exit_response hex_world ssz_world tree_world secp_world bls_world ethers_world
            registry_world hex_world-IsHex bls_world-IsBls request 3 fork_info in_custody.share),
      taken.1,
    )
sign_voluntary_exit_message-InCustody_example =
    sign_voluntary_exit_message-InCustody hex_world ssz_world tree_world secp_world bls_world
      ethers_world registry_world hex_world-IsHex bls_world-IsBls request 3 fork_info guardian_disk
      taken in_custody

fetch_eth_key-save_eth_key_example :
    ((e : Error) × (disk' : Disk) × (save_eth_key hex_world secp_world true true guardian_disk
        ≡ (err e, disk'))
      × (disk'.files ≡ guardian_disk.files))
    ⊎ ((disk' : Disk) × (save_eth_key hex_world secp_world true true guardian_disk
          ≡ (ok true, disk'))
        × (fetch_eth_key hex_world secp_world (eth_pk_to_hex hex_world secp_world true) disk'
            ≡ (ok true, disk')))
fetch_eth_key-save_eth_key_example =
    fetch_eth_key-save_eth_key hex_world secp_world hex_world-IsHex secp_world-IsSecp true true
      guardian_disk

eth_pk_from_hex-eth_pk_to_hex_example :
    eth_pk_from_hex hex_world secp_world (eth_pk_to_hex hex_world secp_world true) ≡ ok true
eth_pk_from_hex-eth_pk_to_hex_example =
    eth_pk_from_hex-eth_pk_to_hex hex_world secp_world hex_world-IsHex secp_world-IsSecp true
