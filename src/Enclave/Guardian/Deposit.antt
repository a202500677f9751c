-- ===== src/Enclave/Guardian/Deposit.antt =====
-- src/enclave/guardian/mod.rs: what a payload that passes verify_deposit_message carries.
use validator_guardian.Prelude.{◌≡◌, true, none, some, arith, Bool-cases, inl, inr}
use validator_guardian.Text.{Bytes, text_eq, text_eq_iff, strip_0x_prefix}
use validator_guardian.Outcome.{ok, first_ok, Outcome-cases}
use validator_guardian.External.Hex.{Hex}
use validator_guardian.External.Bls.{Bls}
use validator_guardian.External.TreeHash.{TreeHash}
use validator_guardian.Constants.{full_deposit_amount}
use validator_guardian.Eth2.Types.{Root, domain_deposit}
use validator_guardian.Eth2.Signing.{compute_domain, compute_signing_root}
use validator_guardian.Enclave.Payload.{
  BlsKeygenPayload, public_key_set, withdrawal_credentials, signature, deposit_message_root,
  deposit_data_root,
}
use validator_guardian.Enclave.Guardian.{verify_deposit_message}

module _ (hex : Hex) (tree : TreeHash) (bls : Bls) (payload : BlsKeygenPayload) where
  open bls use {PublicKeySet, Signature, public_key, public_key_to_bytes, signature_to_bytes}

  abbrev pub message_root : PublicKeySet → Bytes → Root
  message_root pk_set credentials =
      compute_signing_root tree
        (tree.hash_deposit_message (record {
          pubkey = public_key_to_bytes (public_key pk_set);
          withdrawal_credentials = credentials;
          amount = full_deposit_amount;
        }))
        (compute_domain tree domain_deposit (some payload.fork_version) none)

  abbrev pub data_root : PublicKeySet → Bytes → Signature → Root
  data_root pk_set credentials sig = tree.hash_deposit_data (record {
    pubkey = public_key_to_bytes (public_key pk_set);
    withdrawal_credentials = credentials;
    amount = full_deposit_amount;
    signature = signature_to_bytes sig;
  })

  -- The payload carries a signature of the key set's public key over the deposit of 32 ether to
  -- the withdrawal credentials, and states the root of the signed deposit.
  pub record IsDeposit (pk_set : PublicKeySet) : Type 0 where
    pub credentials : Bytes
    pub sig : Signature
    pub parses : public_key_set hex bls payload ≡ ok pk_set
    pub is_signed : bls.verify (public_key pk_set) sig (message_root pk_set credentials) ≡ true
    pub has_root :
        strip_0x_prefix payload.deposit_data_root ≡ hex.encode (data_root pk_set credentials sig)
    pub credentials_parse : withdrawal_credentials hex bls payload ≡ ok credentials
    pub sig_parses : signature hex bls payload ≡ ok sig

  -- A payload that passes carries a signed deposit.
  pub verify_deposit_message-IsDeposit :
      verify_deposit_message hex tree bls payload ≡ ok tt
      → (pk_set : PublicKeySet) × IsDeposit pk_set
  unfolding verify_deposit_message deposit_message_root deposit_data_root
  verify_deposit_message-IsDeposit h =
      let (pk_set, h1, parses) = first_ok _ (public_key_set hex bls payload) h in
      let (sig, h2, signed) = first_ok _ (signature hex bls payload) h1 in
      elim (Outcome-cases (withdrawal_credentials hex bls payload)) [
        | inl (credentials, given) ↦
            elim (Bool-cases
              (bls.verify (public_key pk_set) sig (message_root pk_set credentials))) [
                | inl verified ↦
                    elim (Bool-cases (
                      text_eq (strip_0x_prefix payload.deposit_data_root)
                        (hex.encode (data_root pk_set credentials sig)))) [
                          | inl same ↦ (
                            pk_set,
                            record {
                              credentials = credentials;
                              sig = sig;
                              parses = parses;
                              credentials_parse = given;
                              sig_parses = signed;
                              is_signed = verified;
                              has_root = (text_eq_iff _ _).0 same;
                            },
                          )
                          | inr differ ↦ absurd (ground (arith, parses, signed, given, h))
                        ]
                | inr refused ↦ absurd (ground (arith, parses, signed, given, h))
              ]
        | inr (inl (e, bad)) ↦ absurd (ground (arith, parses, signed, h))
        | inr (inr bad) ↦ absurd (ground (arith, parses, signed, h))
      ]
