-- ===== src/Server/Guardian/Exits.antt =====
-- src/bin/guardian.rs: whose share an exit is signed with.
use validator_guardian.Prelude.{
  ◌≡◌, refl, sym, ap, ◌∙◌, inl, inr, none, some, List, arith, Option-cases, some_inj,
}
use mathlib.Core.List.{Memᴰ}
use validator_guardian.Text.{Text, Bytes, strip_0x_prefix}
use validator_guardian.Outcome.{Outcome-cases, ok}
use validator_guardian.Disk.{Files, Disk, lookup}
use validator_guardian.External.Hex.{Hex, IsHex, IsHexText}
use validator_guardian.External.Ssz.{Ssz}
use validator_guardian.External.TreeHash.{TreeHash}
use validator_guardian.External.Bls.{Bls, IsBls}
use validator_guardian.External.Secp.{Secp}
use validator_guardian.External.Ethers.{Ethers}
use validator_guardian.External.Session.{Agent, Registry}
use validator_guardian.Io.KeyManagement.Laws.{key_bytes}
use validator_guardian.Crypto.BlsKeys.Stored.{stored_key, key_path, fetch_cases}
use validator_guardian.Enclave.Types.{status_ok}
use validator_guardian.Enclave.Payload.{public_key_set_of}
use validator_guardian.Enclave.Guardian.{ValidateCustodyRequest}
use validator_guardian.Enclave.Guardian.Custody.{Checked, share_path, share_text}
use validator_guardian.Enclave.Exit.{
  SignExitRequest, SignExitResponse, sign_voluntary_exit_message, sign_exit_handler, share_name,
  sign_vem,
}
use validator_guardian.Server.Guardian.{Call, validate_custody, sign_exit, exited, serve, after}
use validator_guardian.Server.Guardian.Custody.{file_of, after-Source}

module _ (hex : Hex) (tree : TreeHash) (bls : Bls) where
  -- the answer under a secret key
  abbrev response_of : bls.SecretKey → SignExitRequest → SignExitResponse
  response_of k req =
      let signed = sign_vem tree bls k 0 req.validator_index req.fork_info in
      record { signature = hex.encode signed.0; message = hex.encode signed.1 }

  -- An exit that is answered comes from a stored key set.
  response-cases :
      (req : SignExitRequest) (resp : SignExitResponse) (disk : Disk)
      → (sign_voluntary_exit_message hex tree bls req disk).0 ≡ ok resp
      → (pk_set : bls.PublicKeySet) × (k : bls.SecretKeySet) × (public_key_set_of hex bls
            req.bls_pub_key_set
          ≡ ok pk_set)
        × (stored_key hex bls disk.files (share_name hex tree bls pk_set req.guardian_index)
            ≡ some k)
        × (resp ≡ response_of (bls.secret_key k) req)
  unfolding sign_voluntary_exit_message
  response-cases req resp disk h =
      elim (Outcome-cases (public_key_set_of hex bls req.bls_pub_key_set)) [
        | inl (pk_set, parsed) ↦
            elim (fetch_cases hex bls (share_name hex tree bls pk_set req.guardian_index) disk) [
              | inl (_, (e, failed)) ↦ absurd (ground (arith, parsed, failed, h))
              | inr (k, found, fetched) ↦
                  (pk_set, k, parsed, found, ground (arith, parsed, fetched, h))
            ]
        | inr (inl (e, bad)) ↦ absurd (ground (arith, bad, h))
        | inr (inr bad) ↦ absurd (ground (arith, bad, h))
      ]

  -- the text that a stored key set is read from
  stored_key-text :
      (files : Files) (name : Text) (k : bls.SecretKeySet)
      → stored_key hex bls files name ≡ some k
      → (text : Bytes) × (b : Bytes) × (lookup (key_path hex bls name) files ≡ some text)
        × (hex.decode text ≡ some b)
        × (bls.secret_key_set_from_bytes b ≡ some k)
  unfolding stored_key key_bytes
  stored_key-text files name k h = elim (Option-cases (lookup (key_path hex bls name) files)) [
    | inl missing ↦ absurd (ground (arith, missing, h))
    | inr (text, found) ↦ elim (Option-cases (hex.decode text)) [
      | inl bad ↦ absurd (ground (arith, found, bad, h))
      | inr (b, decoded) ↦ (text, b, found, decoded, ground (arith, found, decoded, h))
    ]
  ]

module _ (hex : Hex) (ssz : Ssz) (tree : TreeHash) (secp : Secp) (bls : Bls) (ethers : Ethers)
    (agent : Agent) (registry : Registry) where
  -- An answer to an exit request: the signature, over the exit at epoch 0, of the share of the
  -- asked place, which passed the checks of a custody request among the calls.
  pub record IsCheckedExit (calls : List (Call secp)) (req : SignExitRequest)
      (resp : SignExitResponse) : Type 0 where
    pub pk_set : bls.PublicKeySet
    pub parsed : public_key_set_of hex bls req.bls_pub_key_set ≡ ok pk_set
    pub request : ValidateCustodyRequest secp
    pub called : Memᴰ (validate_custody request) calls
    pub sk : secp.SecretKey
    pub share : bls.SecretKeyShare
    pub checked : Checked hex ssz tree secp bls ethers registry request sk share
    pub is_named :
        share_path hex ssz tree secp bls ethers registry request share
        ≡ key_path hex bls (share_name hex tree bls pk_set req.guardian_index)
    pub root : Bytes
    pub is_root :
        (k : bls.SecretKey) → (sign_vem tree bls k 0 req.validator_index req.fork_info).1 ≡ root
    pub message : resp.message ≡ hex.encode root
    pub signature :
        resp.signature ≡ hex.encode (bls.signature_share_to_bytes (bls.sign_share share root))

  abbrev run : List (Call secp) → Disk → Disk
  run calls disk = after hex ssz tree secp bls ethers agent registry calls disk

  -- what the handler answers
  exit-response :
      (req : SignExitRequest) (resp : SignExitResponse) (disk : Disk)
      → (serve hex ssz tree secp bls ethers agent registry (sign_exit req) disk).0
        ≡ ok (exited (record { status = status_ok; body = some resp }))
      → (sign_voluntary_exit_message hex tree bls req disk).0 ≡ ok resp
  unfolding serve sign_exit_handler
  exit-response req resp disk h =
      elim (Outcome-cases (sign_voluntary_exit_message hex tree bls req disk).0) [
        | inl (r, e) ↦ ground (arith, e, h)
        | inr (inl (x, e)) ↦ absurd (ground (arith, e, h))
        | inr (inr e) ↦ absurd (ground (arith, e, h))
      ]

  -- the key set that the text of a share is read as
  from_share :
      IsHex hex
      → (is_bls : IsBls bls) (request : ValidateCustodyRequest secp) (share : bls.SecretKeyShare)
      → (text b : Bytes) (k : bls.SecretKeySet)
      → text ≡ share_text hex ssz tree secp bls ethers registry request share
      → hex.decode text ≡ some b
      → bls.secret_key_set_from_bytes b ≡ some k
      → k ≡ is_bls.share_key_set share
  from_share is_hex is_bls request share text b k is_text decoded from_bytes =
      let bytes = bls.secret_key_share_to_bytes share in
      let same = some_inj (
        sym decoded
        ∙ ap hex.decode (is_text ∙ is_hex.strip_0x_prefix-encode bytes)
        ∙ is_hex.decode-encode bytes (is_bls.secret_key_share_to_bytes-IsBytes share)) in
      some_inj (
        sym from_bytes
        ∙ ap bls.secret_key_set_from_bytes same
        ∙ is_bls.secret_key_set_from_bytes-eq share)

  module _ (is_hex : IsHex hex) (is_text : IsHexText hex) (is_bls : IsBls bls)
      (calls : List (Call secp)) (disk : Disk)
      (no_shares : (name : Text) → lookup (file_of name) disk.files ≡ none) where
    -- A guardian that starts with no BLS key files, after any calls, answers an exit request only
    -- with the signature of the share of the asked place over the exit at epoch 0, and that share
    -- passed the checks of one of the custody requests before.
    pub sign_exit-IsCheckedExit :
        (req : SignExitRequest) (resp : SignExitResponse)
        → (serve hex ssz tree secp bls ethers agent registry (sign_exit req) (run calls disk)).0
          ≡ ok (exited (record { status = status_ok; body = some resp }))
        → IsCheckedExit calls req resp
    unfolding sign_vem
    sign_exit-IsCheckedExit req resp h =
        let (pk_set, k, parsed, stored, is_response) =
          response-cases hex tree bls req resp (run calls disk)
            (exit-response req resp (run calls disk) h) in
        let name = share_name hex tree bls pk_set req.guardian_index in
        let (text, b, found, decoded, from_bytes) =
          stored_key-text hex tree bls (run calls disk).files name k stored in
        elim (after-Source hex ssz tree secp bls ethers agent registry is_hex is_text calls disk
          (strip_0x_prefix (strip_0x_prefix name)) text found) [
            | inl before ↦ absurd (cc (before, no_shares (strip_0x_prefix (strip_0x_prefix name))))
            | inr (request, called, is_share) ↦
                let is_key =
                  from_share is_hex is_bls request is_share.share text b k is_share.is_text decoded
                    from_bytes in
                let root =
                  (sign_vem tree bls (bls.secret_key k) 0 req.validator_index req.fork_info).1 in
                record {
                  pk_set = pk_set;
                  parsed = parsed;
                  request = request;
                  called = called;
                  sk = is_share.sk;
                  share = is_share.share;
                  checked = is_share.checked;
                  is_named = is_share.is_named;
                  root = root;
                  is_root = λ _. refl;
                  message = ap (λ r. r.message) is_response;
                  signature =
                      ap (λ r. r.signature) is_response
                      ∙ ap
                          (λ key.
                            hex.encode
                              (bls.signature_to_bytes (bls.sign (bls.secret_key key) root)))
                          is_key
                      ∙ ap hex.encode (is_bls.sign-share_key_set is_share.share root);
                }
          ]
