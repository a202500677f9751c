-- ===== src/Enclave/Exit/Custody.antt =====
-- src/enclave/guardian/mod.rs: verify_and_sign_custody_received followed by
-- sign_voluntary_exit_message.
use validator_guardian.Prelude.{ℕ, ◌≡◌, refl, ap, sym, ◌∙◌, inl, inr, some, some_inj, arith}
use validator_guardian.Text.{text_eq_refl}
use validator_guardian.Outcome.{Outcome, ok}
use validator_guardian.Disk.{Disk}
use validator_guardian.External.Hex.{Hex, IsHex}
use validator_guardian.External.Ssz.{Ssz}
use validator_guardian.External.Secp.{Secp}
use validator_guardian.External.Bls.{Bls, IsBls}
use validator_guardian.External.TreeHash.{TreeHash}
use validator_guardian.External.Ethers.{Ethers}
use validator_guardian.External.Session.{Registry}
use validator_guardian.Eth2.Types.{ForkInfo, Root, domain_voluntary_exit}
use validator_guardian.Eth2.Signing.{to_signing_root, compute_signing_root, get_domain}
use validator_guardian.Io.KeyManagement.Laws.{key_bytes-insert}
use validator_guardian.Crypto.BlsKeys.Stored.{stored_key, key_path, fetch_cases}
use validator_guardian.Crypto.BlsKeys.{fetch_bls_sk}
use validator_guardian.Enclave.Payload.{public_key_set}
use validator_guardian.Enclave.Guardian.{ValidateCustodyRequest, ValidateCustodyResponse}
use validator_guardian.Enclave.Guardian.Custody.{InCustody, share_path}
use validator_guardian.Enclave.Exit.{
  SignExitRequest, SignExitResponse, share_name, sign_voluntary_exit_message, sign_vem,
}

module _ (hex : Hex) (ssz : Ssz) (tree : TreeHash) (secp : Secp) (bls : Bls) (ethers : Ethers)
    (registry : Registry) (is_hex : IsHex hex) (is_bls : IsBls bls)
    (request : ValidateCustodyRequest secp) (validator_index : ℕ) (fork_info : ForkInfo) where
  open request use {keygen_payload}

  -- the exit request to the guardian with the place `i`
  abbrev pub exit_request : ℕ → SignExitRequest
  exit_request i = record {
    bls_pub_key_set = keygen_payload.bls_pub_key_set;
    guardian_index = i;
    validator_index = validator_index;
    fork_info = fork_info;
  }

  -- the root of the exit at epoch 0, under the domain of voluntary exits
  abbrev pub exit_root : Root
  exit_root = tree.hash_signing_data (record {
    object_root =
        tree.hash_voluntary_exit (record { epoch = 0; validator_index = validator_index });
    domain = get_domain tree fork_info domain_voluntary_exit (some 0);
  })

  abbrev pub exit_response : bls.SecretKeyShare → SignExitResponse
  exit_response share = record {
    signature = hex.encode (bls.signature_share_to_bytes (bls.sign_share share exit_root));
    message = hex.encode exit_root;
  }

  sign_vem-exit_root :
      (k : bls.SecretKey)
      → sign_vem tree bls k 0 validator_index fork_info
        ≡ (bls.signature_to_bytes (bls.sign k exit_root), exit_root)
  unfolding sign_vem to_signing_root compute_signing_root
  sign_vem-exit_root k = refl

  module _ (disk : Disk) (r : Outcome ValidateCustodyResponse × Disk)
      (custody : InCustody hex ssz tree secp bls ethers registry request disk r) where
    open custody use {share, checked}

    -- the share's place
    abbrev pub place : ℕ
    place = checked.opened.0

    same_name :
        share_name hex tree bls checked.pk_set place
        ≡ hex.encode (bls.public_key_share_to_bytes (bls.derive_public_key_share share))
    unfolding share_name
    same_name = checked.opened.3.is_same

    -- the share's name is the hex of its bytes, so that no prefix is stripped
    same_path :
        key_path hex bls (share_name hex tree bls checked.pk_set place)
        ≡ share_path hex ssz tree secp bls ethers registry request share
    same_path =
        let bytes = bls.public_key_share_to_bytes (bls.derive_public_key_share share) in
        rw (same_name, is_hex.strip_0x_prefix-encode bytes)
          (rw (is_hex.strip_0x_prefix-encode bytes) refl)

    stored :
        stored_key hex bls r.1.files (share_name hex tree bls checked.pk_set place)
        ≡ some (is_bls.share_key_set share)
    unfolding stored_key
    stored =
        let path = share_path hex ssz tree secp bls ethers registry request share in
        let bytes = bls.secret_key_share_to_bytes share in
        ground (
          arith,
          same_path,
          custody.saved,
          key_bytes-insert hex is_hex path path bytes disk.files
              (is_bls.secret_key_share_to_bytes-IsBytes share),
          text_eq_refl path,
          is_bls.secret_key_set_from_bytes-eq share,
        )

    fetched :
        fetch_bls_sk hex bls (share_name hex tree bls checked.pk_set place) r.1
        ≡ (ok (is_bls.share_key_set share), r.1)
    fetched = elim (fetch_cases hex bls (share_name hex tree bls checked.pk_set place) r.1) [
      | inl (missing, failed) ↦ absurd (cc (missing, stored))
      | inr (k, found, e) ↦ e ∙ ap (λ x. (ok x, r.1)) (some_inj (sym found ∙ stored))
    ]

    -- After a request that took a share into custody, the exit request for the same key set and
    -- the share's place is answered, with the share's signature over the root of the exit at epoch
    -- 0, and it changes nothing on the disk.
    pub sign_voluntary_exit_message-InCustody :
        sign_voluntary_exit_message hex tree bls (exit_request place) r.1
        ≡ (ok (exit_response share), r.1)
    unfolding sign_voluntary_exit_message public_key_set
    sign_voluntary_exit_message-InCustody = ground (
      arith,
      checked.deposit.parses,
      fetched,
      sign_vem-exit_root (bls.secret_key (is_bls.share_key_set share)),
      is_bls.sign-share_key_set share exit_root,
    )
