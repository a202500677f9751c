-- ===== src/Eth2/Deposit.antt =====
-- src/eth2/eth_signing.rs: deposits, signed with a saved key or with a key at hand.
use validator_guardian.Prelude.{some, none}
use validator_guardian.Text.{Text, Bytes}
use validator_guardian.Disk.{Exec, ◌>>=◌, pure}
use validator_guardian.Constants.{full_deposit_amount}
use validator_guardian.External.Hex.{Hex}
use validator_guardian.External.TreeHash.{TreeHash}
use validator_guardian.External.Bls.{Bls}
use validator_guardian.Eth2.Types.{
  Root, Domain, Version, BlsSignature, DepositMessage, DepositResponse, domain_deposit,
}
use validator_guardian.Eth2.Signing.{compute_domain, compute_signing_root}
use validator_guardian.Crypto.BlsKeys.{bls_agg_sign_from_saved_sk}

module _ (hex : Hex) (tree : TreeHash) (bls : Bls) where
  -- the hash of the message comes from the caller
  unfoldable pub secure_sign : Text → Root → Domain → Exec BlsSignature
  secure_sign pk_hex object_root domain = do
    sig ← bls_agg_sign_from_saved_sk hex bls pk_hex (compute_signing_root tree object_root domain)
    pure (bls.signature_to_bytes sig)

  -- the answer to a deposit message under its signature
  unfoldable pub deposit_response : DepositMessage → BlsSignature → DepositResponse
  deposit_response m sig =
      let dm_root = tree.hash_deposit_message m in
      let dd_root = tree.hash_deposit_data (record {
        pubkey = m.pubkey;
        withdrawal_credentials = m.withdrawal_credentials;
        amount = m.amount;
        signature = sig;
      }) in
      record {
        pubkey = hex.encode m.pubkey;
        withdrawal_credentials = hex.encode m.withdrawal_credentials;
        amount = m.amount;
        signature = hex.encode sig;
        deposit_message_root = hex.encode dm_root;
        deposit_data_root = hex.encode dd_root;
      }

  unfoldable pub get_deposit_signature : Text → DepositMessage → Version → Exec DepositResponse
  unfolding deposit_response
  get_deposit_signature pk_hex deposit_message fork_version =
      let domain = compute_domain tree domain_deposit (some fork_version) none in
      do
        sig ← secure_sign pk_hex (tree.hash_deposit_message deposit_message) domain
        pure (deposit_response deposit_message sig)

module _ (tree : TreeHash) (bls : Bls) where
  open bls use {
    SecretKeySet, public_keys, public_key, public_key_to_bytes, secret_key, sign,
    signature_to_bytes,
  }

  unfoldable pub sign_full_deposit : SecretKeySet → Bytes → Version → BlsSignature × Root
  sign_full_deposit sk_set withdrawal_credentials fork_version =
      let pubkey = public_key_to_bytes (public_key (public_keys sk_set)) in
      let message_root = tree.hash_deposit_message (record {
        pubkey = pubkey;
        withdrawal_credentials = withdrawal_credentials;
        amount = full_deposit_amount;
      }) in
      let domain = compute_domain tree domain_deposit (some fork_version) none in
      let root = compute_signing_root tree message_root domain in
      let sig = signature_to_bytes (sign (secret_key sk_set) root) in
      let dd_root = tree.hash_deposit_data (record {
        pubkey = pubkey;
        withdrawal_credentials = withdrawal_credentials;
        amount = full_deposit_amount;
        signature = sig;
      }) in
      (sig, dd_root)
