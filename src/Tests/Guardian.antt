-- ===== src/Tests/Guardian.antt =====
-- A guardian that starts with its own key only takes a share into custody and signs an exit.
use validator_guardian.Prelude.{◌≡◌, refl, ◌⊎◌, ◌∷◌, replicate, List, [], none, some, arith}
use mathlib.Core.List.{zip}
use validator_guardian.Text.{Text, text_eq, strip_0x_prefix}
use validator_guardian.Outcome.{Outcome, ok}
use validator_guardian.Disk.{
  Disk, read_file, lookup, join, create_dir_all, write_file, insert, parent, has_slash,
}
use validator_guardian.Crypto.EthKeys.{
  eth_pk_to_hex, fetch_eth_key, eth_sk_from_bytes, envelope_decrypt, eth_pk_from_hex_uncompressed,
}
use validator_guardian.Io.KeyManagement.{
  read_key, read_eth_key, write_key, write_bls_key, read_bls_key,
}
use validator_guardian.Eth2.Signing.{compute_signing_root, to_signing_root}
use validator_guardian.Enclave.Session.{
  verify_session_evidence, check_fields, is_empty, attested_message, guardian_keys, parse_b256,
  parse_session_public_key, check_workload,
}
use validator_guardian.Enclave.Shared.Attestation.{
  build_validator_remote_attestation_payload, hashed_shares, be_bytes,
}
use validator_guardian.Enclave.Payload.{
  public_key_set, public_key_set_of, signature, withdrawal_credentials, deposit_message_root,
  deposit_data_root, verify_public_keys_match, decrypt_sk_share,
}
use validator_guardian.Enclave.Guardian.{
  verify_custody, verify_and_sign_custody_received, approve_custody, fetch_guardian_key,
  checked_share, verify_deposit_message, find_share, same_share, save_share, custody_digest,
  sign_digest, validate_custody_handler,
}
use validator_guardian.Enclave.Exit.{
  sign_voluntary_exit_message, SignExitRequest, SignExitResponse, sign_exit_handler, sign_vem,
  share_name,
}
use validator_guardian.Tests.HexWorld.{
  hex_world, hex_world-IsHex, encode, decode, digit, value, byte_of, hex_world-IsHexText,
}
use validator_guardian.Tests.World.{tree_world, bls_world, bls_world-IsBls, fork_info, pad, fill}
use validator_guardian.Tests.CustodyWorld.{
  secp_world, ssz_world, ethers_world, registry_world, payload, request, guardian_disk, agent_world,
}
use validator_guardian.Enclave.Types.{status_ok}
use validator_guardian.Crypto.BlsKeys.{fetch_bls_sk}
use validator_guardian.Server.Paths.{bls_path_apart, IsRelative-digits}
use validator_guardian.Server.Guardian.{
  Call, Answer, validate_custody, sign_exit, exited, serve, after,
}
use validator_guardian.Server.Guardian.Custody.{file_of, after-Source, Source}
use validator_guardian.Server.Guardian.Exits.{IsCheckedExit, sign_exit-IsCheckedExit}

abbrev calls : List (Call secp_world)
calls = validate_custody request ∷ []

abbrev exit_of_3 : SignExitRequest
exit_of_3 = record {
  bls_pub_key_set = payload.bls_pub_key_set;
  guardian_index = 1;
  validator_index = 3;
  fork_info = fork_info;
}

no_shares : (name : Text) → lookup (file_of name) guardian_disk.files ≡ none
unfolding lookup
no_shares name = ground (
  arith,
  bls_path_apart (encode (1 ∷ replicate 32 0)) name (
      IsRelative-digits (encode (1 ∷ replicate 32 0))
        (hex_world-IsHexText.encode-digits (1 ∷ replicate 32 0))),
)

abbrev answered : Outcome Answer × Disk
answered =
    serve hex_world ssz_world tree_world secp_world bls_world ethers_world agent_world
      registry_world (sign_exit exit_of_3)
      (after hex_world ssz_world tree_world secp_world bls_world ethers_world agent_world
        registry_world calls guardian_disk)

abbrev exit_response_of_3 : SignExitResponse
exit_response_of_3 = record {
  signature = encode (fill (8 ∷ pad (0 ∷ 3 ∷ [])));
  message = encode (pad (0 ∷ 3 ∷ []));
}

answered_ok :
    answered.0 ≡ ok (exited (record { status = status_ok; body = some exit_response_of_3 }))
unfolding verify_and_sign_custody_received fetch_guardian_key fetch_eth_key eth_pk_to_hex
    read_eth_key read_key read_file lookup join strip_0x_prefix encode decode digit value byte_of
    text_eq eth_sk_from_bytes checked_share verify_session_evidence check_fields is_empty
    attested_message guardian_keys eth_pk_from_hex_uncompressed
    build_validator_remote_attestation_payload hashed_shares be_bytes parse_b256
    parse_session_public_key check_workload verify_deposit_message public_key_set public_key_set_of
    signature withdrawal_credentials deposit_message_root deposit_data_root compute_signing_root
    verify_custody verify_public_keys_match find_share decrypt_sk_share envelope_decrypt same_share
    save_share write_bls_key write_key create_dir_all write_file insert parent has_slash
    approve_custody custody_digest sign_digest zip serve after validate_custody_handler
    sign_exit_handler sign_voluntary_exit_message share_name sign_vem fetch_bls_sk read_bls_key
    to_signing_root
answered_ok = refl

sign_exit-IsCheckedExit_example :
    IsCheckedExit hex_world ssz_world tree_world secp_world bls_world ethers_world agent_world
      registry_world calls exit_of_3 exit_response_of_3
sign_exit-IsCheckedExit_example =
    sign_exit-IsCheckedExit hex_world ssz_world tree_world secp_world bls_world ethers_world
      agent_world registry_world hex_world-IsHex hex_world-IsHexText bls_world-IsBls calls
      guardian_disk no_shares exit_of_3 exit_response_of_3 answered_ok

abbrev share_file : Text
share_file = file_of (encode (8 ∷ []))

kept :
    lookup share_file
      (after hex_world ssz_world tree_world secp_world bls_world ethers_world agent_world
        registry_world calls guardian_disk).files
    ≡ some (encode (8 ∷ replicate 31 0))
unfolding verify_and_sign_custody_received fetch_guardian_key fetch_eth_key eth_pk_to_hex
    read_eth_key read_key read_file lookup join strip_0x_prefix encode decode digit value byte_of
    text_eq eth_sk_from_bytes checked_share verify_session_evidence check_fields is_empty
    attested_message guardian_keys eth_pk_from_hex_uncompressed
    build_validator_remote_attestation_payload hashed_shares be_bytes parse_b256
    parse_session_public_key check_workload verify_deposit_message public_key_set public_key_set_of
    signature withdrawal_credentials deposit_message_root deposit_data_root compute_signing_root
    verify_custody verify_public_keys_match find_share decrypt_sk_share envelope_decrypt same_share
    save_share write_bls_key write_key create_dir_all write_file insert parent has_slash
    approve_custody custody_digest sign_digest zip serve after validate_custody_handler
kept = refl

after-Source_example :
    (lookup share_file guardian_disk.files ≡ some (encode (8 ∷ replicate 31 0)))
    ⊎ Source hex_world ssz_world tree_world secp_world bls_world ethers_world agent_world
        registry_world calls
        (encode (8 ∷ []))
        (encode (8 ∷ replicate 31 0))
after-Source_example =
    after-Source hex_world ssz_world tree_world secp_world bls_world ethers_world agent_world
      registry_world hex_world-IsHex hex_world-IsHexText calls guardian_disk (encode (8 ∷ []))
      (encode (8 ∷ replicate 31 0)) kept
