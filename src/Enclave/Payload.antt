-- ===== src/Enclave/Payload.antt =====
-- src/enclave/types.rs: the payload of a generated validator key, and what is read from it.
use validator_guardian.Prelude.{ℕ, none, some, List, ◌==◌, length, get_elem?, not, Bool}
use validator_guardian.Text.{Text, Bytes, strip_0x_prefix, text_eq}
use validator_guardian.Outcome.{
  Outcome, ok, ◌>>=◌, or_err, assert, bail_if, invalid_hex, invalid_length, bad_key_bytes,
  bad_index,
}
use validator_guardian.Constants.{full_deposit_amount, bls_sig_bytes, withdrawal_credentials_bytes}
use validator_guardian.External.Hex.{Hex}
use validator_guardian.External.TreeHash.{TreeHash}
use validator_guardian.External.Bls.{Bls}
use validator_guardian.External.Secp.{Secp}
use validator_guardian.Eth2.Types.{Root, Version, domain_deposit}
use validator_guardian.Eth2.Signing.{compute_domain, compute_signing_root}
use validator_guardian.Crypto.EthKeys.{envelope_decrypt}

pub record BlsKeygenPayload : Type 0 where
  pub bls_pub_key_set : Text
  pub bls_pub_key : Text
  pub signature : Text
  pub deposit_data_root : Text
  pub bls_enc_priv_key_shares : List Text
  pub session_id : Text
  pub attestation_signature : Text
  pub session_public_key : Text
  pub guardian_eth_pub_keys : List Text
  pub withdrawal_credentials : Text
  pub fork_version : Version

-- The methods of `BlsKeygenPayload`.
module _ (hex : Hex) (bls : Bls) where
  open bls use {
    PublicKeySet, Signature, public_key, public_key_to_hex, public_key_set_from_bytes,
    signature_from_bytes,
  }

  -- also of a `SignExitRequest`
  unfoldable pub public_key_set_of : Text → Outcome PublicKeySet
  public_key_set_of bls_pub_key_set = do
    set_bytes ← or_err (hex.decode (strip_0x_prefix bls_pub_key_set)) invalid_hex
    or_err (public_key_set_from_bytes set_bytes) bad_key_bytes

  unfoldable pub public_key_set : BlsKeygenPayload → Outcome PublicKeySet
  public_key_set payload = public_key_set_of payload.bls_pub_key_set

  unfoldable pub withdrawal_credentials : BlsKeygenPayload → Outcome Bytes
  withdrawal_credentials payload = do
    wc_bytes ← or_err (hex.decode (strip_0x_prefix payload.withdrawal_credentials)) invalid_hex
    _ ← bail_if (not (length wc_bytes == withdrawal_credentials_bytes)) invalid_length
    ok wc_bytes

  -- `copy_from_slice` panics on another length
  unfoldable pub signature : BlsKeygenPayload → Outcome Signature
  signature payload = do
    sig_bytes ← or_err (hex.decode (strip_0x_prefix payload.signature)) invalid_hex
    _ ← assert (length sig_bytes == bls_sig_bytes)
    or_err (signature_from_bytes sig_bytes) bad_key_bytes

  unfoldable pub verify_public_keys_match : BlsKeygenPayload → Outcome Bool
  verify_public_keys_match payload = do
    pk_set ← public_key_set payload
    ok (text_eq (public_key_to_hex (public_key pk_set)) (strip_0x_prefix payload.bls_pub_key))

module _ (hex : Hex) (tree : TreeHash) (bls : Bls) where
  open bls use {public_key, public_key_to_bytes, signature_to_bytes}

  unfoldable pub deposit_message_root : BlsKeygenPayload → Outcome Root
  deposit_message_root payload = do
    pk_set ← public_key_set hex bls payload
    credentials ← withdrawal_credentials hex bls payload
    ok (
        compute_signing_root tree
          (tree.hash_deposit_message (record {
            pubkey = public_key_to_bytes (public_key pk_set);
            withdrawal_credentials = credentials;
            amount = full_deposit_amount;
          }))
          (compute_domain tree domain_deposit (some payload.fork_version) none))

  unfoldable pub deposit_data_root : BlsKeygenPayload → Outcome Root
  deposit_data_root payload = do
    pk_set ← public_key_set hex bls payload
    credentials ← withdrawal_credentials hex bls payload
    sig ← signature hex bls payload
    ok (
        tree.hash_deposit_data (record {
          pubkey = public_key_to_bytes (public_key pk_set);
          withdrawal_credentials = credentials;
          amount = full_deposit_amount;
          signature = signature_to_bytes sig;
        }))

module _ (hex : Hex) (secp : Secp) (bls : Bls) where
  open bls use {SecretKeyShare, secret_key_share_from_bytes}

  -- `try_into` an array of 32 bytes
  unfoldable pub decrypt_sk_share : BlsKeygenPayload → ℕ → secp.SecretKey → Outcome SecretKeyShare
  decrypt_sk_share payload share_index guardian_enclave_sk = do
    share ← or_err (get_elem? payload.bls_enc_priv_key_shares share_index) bad_index
    enc_sk_bytes ← or_err (hex.decode (strip_0x_prefix share)) invalid_hex
    sk_bytes ← envelope_decrypt secp guardian_enclave_sk enc_sk_bytes
    _ ← bail_if (not (length sk_bytes == 32)) invalid_length
    or_err (secret_key_share_from_bytes sk_bytes) bad_key_bytes
