-- ===== src/Server/Guardian/Custody.antt =====
-- src/bin/guardian.rs: where the key shares of a guardian come from.
use validator_guardian.Prelude.{
  ℕ, ◌≡◌, refl, sym, subst, ap, ◌∙◌, ◌⊎◌, inl, inr, some, List, [], ◌∷◌, arith, Bool-cases,
}
use mathlib.Core.List.{Memᴰ}
use validator_guardian.Text.{Text, Bytes, text_eq, text_eq_iff, strip_0x_prefix}
use validator_guardian.Outcome.{Outcome, Outcome-cases, or_err, invalid_address}
use validator_guardian.Io.RemoteAttestation.{AttestationEvidence, attest}
use validator_guardian.Disk.{Files, Disk, Exec, ◌>>=◌, lift, pure, lookup, lookup-insert, join}
use validator_guardian.Constants.{bls_keys_dir, eth_keys_dir}
use validator_guardian.External.Hex.{Hex, IsHex, IsHexText}
use validator_guardian.External.Ssz.{Ssz}
use validator_guardian.External.TreeHash.{TreeHash}
use validator_guardian.External.Bls.{Bls}
use validator_guardian.External.Secp.{Secp}
use validator_guardian.External.Ethers.{Ethers, string, address, uint, bytes}
use validator_guardian.External.Session.{Agent, Registry}
use validator_guardian.Io.KeyManagement.{write_key, write_eth_key}
use validator_guardian.Io.KeyManagement.Laws.{write_key_cases}
use validator_guardian.Crypto.EthKeys.{eth_key_gen, save_eth_key, eth_pk_to_hex, eth_sk_to_hex}
use validator_guardian.Crypto.BlsKeys.Stored.{fetch_cases}
use validator_guardian.Enclave.Types.{status_ok, created, internal_server_error}
use validator_guardian.Enclave.Keys.{from_eth_key, list_eth_keys_handler}
use validator_guardian.Enclave.Payload.{public_key_set_of}
use validator_guardian.Enclave.Guardian.{
  ValidateCustodyRequest, ValidateCustodyResponse, validate_custody_handler,
  verify_and_sign_custody_received,
}
use validator_guardian.Enclave.Guardian.Custody.{
  Checked, share_path, share_text, verify_and_sign_custody_received_cases,
}
use validator_guardian.Enclave.Exit.{
  rotate_tag, SignExitRequest, SignExitResponse, KeygenWithBlockhashRequest,
  sign_voluntary_exit_message, sign_exit_handler, share_name, attest_new_eth_key_with_blockhash,
  attest_fresh_eth_key_handler,
}
use validator_guardian.Server.Quiet.{answered_disk, responded_disk, bind_quiet}
use validator_guardian.Server.Paths.{bls_path_apart}
use validator_guardian.Server.Recording.{IsRelative-strip_twice}
use validator_guardian.Server.SecureSigner.{health_handler}
use validator_guardian.Server.SecureSigner.Calls.{list_eth_keys_disk}
use validator_guardian.Server.Guardian.{
  Call, upcheck, keygen, list_eth_keys, validate_custody, sign_exit, generated, listed, validated,
  exited, serve, after,
}

-- the file of a BLS key or share with this name
abbrev pub file_of : Text → Text
file_of name = join bls_keys_dir name

-- two steps without the disk
abbrev finished : {A B C : Type 0} → Outcome A → (A → Outcome B) → (B → C) → Exec C
finished o f c = do a ← lift o; b ← lift (f a); pure (c b)

finished_disk :
    {A B C : Type 0} (o : Outcome A) (f : A → Outcome B) (c : B → C) (disk : Disk)
    → (finished o f c disk).1 ≡ disk
finished_disk o f c disk =
    bind_quiet (lift o) (λ a. lift (f a) >>= λ b. pure (c b)) disk
      λ a d. bind_quiet (lift (f a)) (λ b. pure (c b)) d (λ b d'. refl)

module _ (hex : Hex) (ssz : Ssz) (tree : TreeHash) (secp : Secp) (bls : Bls) (ethers : Ethers)
    (agent : Agent) (registry : Registry) where
  -- `text` is a share that passes the checks of a request, and stands under its name.
  pub record IsCheckedShare (request : ValidateCustodyRequest secp) (name : Text) (text : Bytes)
      : Type 0 where
    pub sk : secp.SecretKey
    pub share : bls.SecretKeyShare
    pub checked : Checked hex ssz tree secp bls ethers registry request sk share
    pub is_named : share_path hex ssz tree secp bls ethers registry request share ≡ file_of name
    pub is_text : text ≡ share_text hex ssz tree secp bls ethers registry request share

  -- one of the calls took the share of this file into custody
  abbrev pub Source : List (Call secp) → Text → Bytes → Type 0
  Source calls name text =
      (request : ValidateCustodyRequest secp) × Memᴰ (validate_custody request) calls
      × IsCheckedShare request name text

  -- every BLS file of `files'` is one of `files`
  abbrev KeepsShares : Files → Files → Type 0
  KeepsShares files files' =
      (name : Text) → lookup (file_of name) files' ≡ lookup (file_of name) files

  serve_at : Call secp → Disk → Disk
  serve_at call disk = (serve hex ssz tree secp bls ethers agent registry call disk).1

  -- an exit reads a share
  sign_voluntary_exit_message_disk :
      (req : SignExitRequest) (disk : Disk)
      → (sign_voluntary_exit_message hex tree bls req disk).1 ≡ disk
  unfolding sign_voluntary_exit_message
  sign_voluntary_exit_message_disk req disk =
      elim (Outcome-cases (public_key_set_of hex bls req.bls_pub_key_set)) [
        | inl (pk_set, parsed) ↦
            elim (fetch_cases hex bls (share_name hex tree bls pk_set req.guardian_index) disk) [
              | inl (_, (e, failed)) ↦ ground (arith, parsed, failed)
              | inr (k, _, fetched) ↦ ground (arith, parsed, fetched)
            ]
        | inr (inl (e, bad)) ↦ ground (arith, bad)
        | inr (inr bad) ↦ ground (arith, bad)
      ]

  sign_exit_disk : (req : SignExitRequest) (disk : Disk) → serve_at (sign_exit req) disk ≡ disk
  unfolding serve_at serve sign_exit_handler
  sign_exit_disk req disk =
      answered_disk exited (sign_exit_handler hex tree bls req) disk
      ∙ responded_disk (sign_voluntary_exit_message hex tree bls req) status_ok
          internal_server_error (λ (resp : SignExitResponse). resp) disk
      ∙ sign_voluntary_exit_message_disk req disk

  -- what a guardian attests of its key
  abbrev attested :
      KeygenWithBlockhashRequest → secp.PublicKey → ethers.Address → Outcome AttestationEvidence
  attested req pk module_address = attest agent (
      ethers.encode_tokens (
        string rotate_tag
        ∷ address module_address
        ∷ uint req.chain_id
        ∷ uint req.block_number
        ∷ bytes (secp.serialize pk)
        ∷ []))

  module _ (is_hex : IsHex hex) (is_text : IsHexText hex) where
    -- a key of its own goes to another directory
    keygen-KeepsShares :
        (entropy : ℕ) (req : KeygenWithBlockhashRequest) (disk : Disk)
        → KeepsShares disk.files (serve_at (keygen entropy req) disk).files
    unfolding serve_at serve attest_fresh_eth_key_handler attest_new_eth_key_with_blockhash
        eth_key_gen save_eth_key write_eth_key eth_pk_to_hex
    keygen-KeepsShares entropy req disk name =
        let pair = secp.generate_keypair entropy in
        let own = strip_0x_prefix (eth_pk_to_hex hex secp pair.1) in
        let path = join eth_keys_dir own in
        let text = strip_0x_prefix (eth_sk_to_hex hex secp pair.0) in
        let ended : serve_at (keygen entropy req) disk ≡ (write_key path text disk).1 =
          answered_disk generated (attest_fresh_eth_key_handler hex secp ethers agent entropy req)
            disk
          ∙ responded_disk
              (attest_new_eth_key_with_blockhash hex secp ethers agent entropy req.block_number
                req.guardian_module_address req.chain_id)
              created internal_server_error (λ r. from_eth_key hex secp r.1 r.0) disk
          ∙ bind_quiet (eth_key_gen hex secp entropy)
              (λ pk.
                finished
                  (or_err (ethers.parse_address (strip_0x_prefix req.guardian_module_address))
                    invalid_address)
                  (attested req pk) (λ proof. (proof, pk)))
              disk (λ pk d. finished_disk _ (attested req pk) (λ proof. (proof, pk)) d)
          ∙ bind_quiet (write_key path text) (λ _. pure pair.1) disk (λ a d. refl) in
        subst (λ d. lookup (file_of name) d.files ≡ lookup (file_of name) disk.files) (sym ended)
          (elim (write_key_cases path text disk) [
            | inl (e, disk', failed, same) ↦ ground (arith, failed, same)
            | inr (disk', done, files) ↦ ground (
              arith,
              done,
              files,
              lookup-insert path (file_of name) text disk.files,
              bls_path_apart own name
                  (IsRelative-strip_twice hex is_hex is_text (secp.serialize_compressed pair.1)),
            )
          ])

    validate_custody_disk :
        (request : ValidateCustodyRequest secp) (disk : Disk)
        → serve_at (validate_custody request) disk
          ≡ (verify_and_sign_custody_received hex ssz tree secp bls ethers registry request disk).1
    unfolding serve_at serve validate_custody_handler
    validate_custody_disk request disk =
        answered_disk validated
          (validate_custody_handler hex ssz tree secp bls ethers registry request) disk
        ∙ responded_disk
            (verify_and_sign_custody_received hex ssz tree secp bls ethers registry request)
            status_ok internal_server_error (λ (resp : ValidateCustodyResponse). resp) disk

    -- what a call has to do with a file that is there after it
    abbrev CallSource : Call secp → Disk → Text → Bytes → Type 0
    CallSource call disk name text =
        (lookup (file_of name) disk.files ≡ some text)
        ⊎ ((request : ValidateCustodyRequest secp) × (validate_custody request ≡ call)
            × IsCheckedShare request name text)

    custody-CallSource :
        (request : ValidateCustodyRequest secp) (disk : Disk) (name : Text) (text : Bytes)
        → lookup (file_of name) (serve_at (validate_custody request) disk).files ≡ some text
        → CallSource (validate_custody request) disk name text
    custody-CallSource request disk name text h =
        let ended = ap (λ d. lookup (file_of name) d.files) (validate_custody_disk request disk) in
        elim (verify_and_sign_custody_received_cases hex ssz tree secp bls ethers registry request
          disk) [
            | inl (_, same) ↦ inl (ap (lookup (file_of name)) (sym same) ∙ sym ended ∙ h)
            | inr custody ↦
                let path = share_path hex ssz tree secp bls ethers registry request custody.share in
                let written =
                  share_text hex ssz tree secp bls ethers registry request custody.share in
                let found =
                  sym (
                    ap (lookup (file_of name)) custody.saved
                    ∙ lookup-insert path (file_of name) written disk.files)
                  ∙ sym ended
                  ∙ h in
                elim (Bool-cases (text_eq path (file_of name))) [
                  | inl same ↦ inr (
                    request,
                    refl,
                    record {
                      sk = custody.sk;
                      share = custody.share;
                      checked = custody.checked;
                      is_named = (text_eq_iff path (file_of name)).0 same;
                      is_text = ground (arith, same, found);
                    },
                  )
                  | inr other ↦ inl (ground (arith, other, found))
                ]
          ]

    call-CallSource :
        (call : Call secp) (disk : Disk) (name : Text) (text : Bytes)
        → lookup (file_of name) (serve_at call disk).files ≡ some text
        → CallSource call disk name text
    unfolding serve_at serve health_handler
    call-CallSource upcheck disk name text h = inl h
    call-CallSource (keygen entropy req) disk name text h =
        inl (sym (keygen-KeepsShares entropy req disk name) ∙ h)
    call-CallSource list_eth_keys disk name text h = inl (
        ap (λ d. lookup (file_of name) d.files)
          (sym (answered_disk listed list_eth_keys_handler disk ∙ list_eth_keys_disk disk))
        ∙ h)
    call-CallSource (validate_custody request) disk name text h =
        custody-CallSource request disk name text h
    call-CallSource (sign_exit req) disk name text h =
        inl (ap (λ d. lookup (file_of name) d.files) (sym (sign_exit_disk req disk)) ∙ h)

    -- After any sequence of calls, a file in the directory of the BLS keys is one that was there
    -- before with the same text, or the share of a custody request among the calls, which passed
    -- all checks of that request.
    pub after-Source :
        (calls : List (Call secp)) (disk : Disk) (name : Text) (text : Bytes)
        → lookup (file_of name) (after hex ssz tree secp bls ethers agent registry calls disk).files
          ≡ some text
        → (lookup (file_of name) disk.files ≡ some text) ⊎ Source calls name text
    unfolding after serve_at
    after-Source [] disk name text h = inl h
    after-Source (call ∷ calls) disk name text h =
        elim (after-Source calls (serve_at call disk) name text h) [
          | inr (request, called, is_share) ↦ inr (request, Memᴰ.tail called, is_share)
          | inl there ↦ elim (call-CallSource call disk name text there) [
            | inl before ↦ inl before
            | inr (request, same, is_share) ↦ inr (request, Memᴰ.head same, is_share)
          ]
        ]
