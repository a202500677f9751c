-- ===== src/Enclave/Session.antt =====
-- src/enclave/guardian/mod.rs: the evidence that a payload was attested in a registered session.
pub mod Message
pub mod Evidence
use validator_guardian.Prelude.{
  Bool, true, false, not, none, some, List, [], ◌∷◌, length, ◌==◌, if◌then◌else◌,
}
use validator_guardian.Text.{Text, Bytes, text_eq, strip_0x_prefix}
use validator_guardian.Outcome.{
  Outcome, ok, ◌>>=◌, or_err, bail_if, assert, invalid_hex, invalid_length, bad_key_bytes,
  missing_session_field, missing_variable, invalid_address, registry_failure, session_rejected,
  workload_mismatch,
}
use validator_guardian.Constants.{bls_sig_bytes}
use validator_guardian.External.Hex.{Hex}
use validator_guardian.External.Ssz.{Ssz}
use validator_guardian.External.Bls.{Bls}
use validator_guardian.External.Secp.{Secp}
use validator_guardian.External.Session.{PublicIdentity, Registry}
use validator_guardian.Crypto.EthKeys.{eth_pk_from_hex_uncompressed}
use validator_guardian.Enclave.Payload.{BlsKeygenPayload}
use validator_guardian.Enclave.Shared.Attestation.{build_validator_remote_attestation_payload}

-- `String::is_empty`
unfoldable pub is_empty : Text → Bool
is_empty [] = true
is_empty (c ∷ t) = false

-- 32 bytes in hex, for `B256::from_slice`
unfoldable pub parse_b256 : Hex → Text → Outcome Bytes
parse_b256 hex text = do
  id_bytes ← or_err (hex.decode (strip_0x_prefix text)) invalid_hex
  _ ← bail_if (not (length id_bytes == 32)) invalid_length
  ok id_bytes

unfoldable pub parse_session_public_key : Hex → Registry → Text → Outcome PublicIdentity
parse_session_public_key hex registry session_public_key =
    elim (registry.parse_identity session_public_key) [
      | some identity ↦ ok identity
      | none ↦ or_err (hex.decode (strip_0x_prefix session_public_key)) invalid_hex >>= λ key_bytes.
          ok (record { type_id = 3; key = key_bytes })
    ]

module _ (hex : Hex) (secp : Secp) where
  -- `collect` into a `Result` stops at the first error
  unfoldable pub guardian_keys : List Text → Outcome (List secp.PublicKey)
  guardian_keys [] = ok []
  guardian_keys (pk_hex ∷ keys) = do
    pk ← eth_pk_from_hex_uncompressed hex secp pk_hex
    pks ← guardian_keys keys
    ok (pk ∷ pks)

unfoldable pub check_fields : BlsKeygenPayload → Outcome (Unit {0})
check_fields payload = do
  _ ← bail_if (is_empty payload.session_id) missing_session_field
  _ ← bail_if (is_empty payload.attestation_signature) missing_session_field
  bail_if (is_empty payload.session_public_key) missing_session_field

module _ (hex : Hex) (ssz : Ssz) (secp : Secp) (bls : Bls) where
  -- the message that the CVM agent signed; `copy_from_slice` panics on another length, and `into` a
  -- `FixedVector` cuts and pads
  unfoldable pub attested_message : BlsKeygenPayload → Outcome Bytes
  attested_message payload = do
    set_bytes ← or_err (hex.decode payload.bls_pub_key_set) invalid_hex
    pk_set ← or_err (bls.public_key_set_from_bytes set_bytes) bad_key_bytes
    dd_root ← or_err (hex.decode payload.deposit_data_root) invalid_hex
    _ ← assert (length dd_root == 32)
    sig_bytes ← or_err (hex.decode payload.signature) invalid_hex
    guardian_pks ← guardian_keys hex secp payload.guardian_eth_pub_keys
    attested ←
        build_validator_remote_attestation_payload hex secp bls pk_set
          (ssz.fixed_vector bls_sig_bytes sig_bytes) dd_root payload.bls_enc_priv_key_shares
          guardian_pks
    ok (secp.keccak256 attested)

module _ (hex : Hex) (ssz : Ssz) (secp : Secp) (bls : Bls) (registry : Registry) where
  open registry use {
    RegistryAddress, rpc_url, registry_address, parse_registry_address, verify_session_signature,
    workload_of,
  }

  unfoldable pub check_workload : Text → RegistryAddress → Bytes → Text → Outcome (Unit {0})
  check_workload url registry_at session_id workload_id =
      if is_empty workload_id
      then ok tt
      else or_err (workload_of url registry_at session_id) registry_failure >>= λ workload.
          parse_b256 hex workload_id >>= λ expected_workload_id.
          bail_if (not (text_eq workload expected_workload_id)) workload_mismatch

  unfoldable pub verify_session_evidence : BlsKeygenPayload → Text → Outcome (Unit {0})
  verify_session_evidence payload workload_id = do
    _ ← check_fields payload
    message ← attested_message hex ssz secp bls payload
    session_id ← parse_b256 hex payload.session_id
    session_key ← parse_session_public_key hex registry payload.session_public_key
    signature ← or_err (hex.decode (strip_0x_prefix payload.attestation_signature)) invalid_hex
    url ← or_err rpc_url missing_variable
    address_text ← or_err registry_address missing_variable
    registry_at ← or_err (parse_registry_address address_text) invalid_address
    valid ←
        or_err (verify_session_signature url registry_at session_id session_key message signature)
          registry_failure
    _ ← bail_if (not valid) session_rejected
    check_workload url registry_at session_id workload_id
