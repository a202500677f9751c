-- ===== src/Enclave/Session/Evidence.antt =====
-- src/enclave/guardian/mod.rs: what passing session evidence establishes.
use validator_guardian.Prelude.{
  ◌≡◌, ◌≢◌, ◌↔◌, refl, sym, ap, ◌∙◌, ◌⊎◌, inl, inr, true, false, not, none, some, [], ◌∷◌, length,
  ◌==◌, arith, Bool-cases, Option-cases,
}
use validator_guardian.Text.{Text, Bytes, text_eq, text_eq_iff, text_eq_refl, strip_0x_prefix}
use validator_guardian.Outcome.{
  ok_inj, or_err_ok, bail_if-not, ok, or_err, bail_if, first_ok, invalid_hex, missing_variable,
  invalid_address, registry_failure, session_rejected, workload_mismatch,
}
use validator_guardian.External.Hex.{Hex}
use validator_guardian.External.Ssz.{Ssz}
use validator_guardian.External.Bls.{Bls}
use validator_guardian.External.Secp.{Secp}
use validator_guardian.External.Session.{PublicIdentity, Registry}
use validator_guardian.Enclave.Payload.{BlsKeygenPayload}
use validator_guardian.Enclave.Session.Message.{StandsFor, attested_message_iff}
use validator_guardian.Enclave.Session.{
  is_empty, parse_b256, parse_session_public_key, check_fields, attested_message, check_workload,
  verify_session_evidence,
}

parse_b256_iff :
    (hex : Hex) (text : Text) (b : Bytes)
    → (parse_b256 hex text ≡ ok b)
      ↔ ((hex.decode (strip_0x_prefix text) ≡ some b) × (length b ≡ 32))
unfolding parse_b256
parse_b256_iff hex text b = (there, back)
  where
    there :
        parse_b256 hex text ≡ ok b → (hex.decode (strip_0x_prefix text) ≡ some b) × (length b ≡ 32)
    there h = elim (Option-cases (hex.decode (strip_0x_prefix text))) [
      | inl bad ↦ absurd (ground (arith, bad, h))
      | inr (c, found) ↦ elim (Bool-cases (length c == 32)) [
        | inl fits ↦
            let same : c ≡ b = ground (arith, found, fits, h) in
            (ground (arith, found, same), ground (arith, fits, same))
        | inr misfit ↦ absurd (ground (arith, found, misfit, h))
      ]
    ]

    back :
        (hex.decode (strip_0x_prefix text) ≡ some b) × (length b ≡ 32) → parse_b256 hex text ≡ ok b
    back (found, fits) = ground (arith, found, fits)

is_empty_iff : (text : Text) → (is_empty text ≡ false) ↔ (text ≢ [])
unfolding is_empty
is_empty_iff [] = (λ h. cc, λ h. absurd (h refl))
is_empty_iff (c ∷ t) = (λ h e. cc, λ h. refl)

check_fields_iff :
    (payload : BlsKeygenPayload)
    → (check_fields payload ≡ ok tt) ↔ (
        (payload.session_id ≢ [])
        × (payload.attestation_signature ≢ [])
        × (payload.session_public_key ≢ []))
unfolding check_fields
check_fields_iff payload =
    let session = is_empty_iff payload.session_id in
    let signature = is_empty_iff payload.attestation_signature in
    let key = is_empty_iff payload.session_public_key in
    (
      λ h. (
        session.0 (ground (arith, h)),
        signature.0 (ground (arith, h)),
        key.0 (ground (arith, h)),
      ),
      λ h. ground (arith, session.1 h.0, signature.1 h.1, key.1 h.2),
    )

-- The text is the JSON of an identity; or, where it is not, the hex of a key of kind 3.
abbrev pub IsIdentity : Hex → Registry → Text → PublicIdentity → Type 0
IsIdentity hex registry text identity =
    (registry.parse_identity text ≡ some identity)
    ⊎ ((registry.parse_identity text ≡ none)
        × (hex.decode (strip_0x_prefix text) ≡ some identity.key)
        × (identity.type_id ≡ 3))

parse_session_public_key_iff :
    (hex : Hex) (registry : Registry) (text : Text) (identity : PublicIdentity)
    → (parse_session_public_key hex registry text ≡ ok identity)
      ↔ IsIdentity hex registry text identity
unfolding parse_session_public_key
parse_session_public_key_iff hex registry text identity = (there, back)
  where
    there :
        parse_session_public_key hex registry text ≡ ok identity
        → IsIdentity hex registry text identity
    there h = elim (Option-cases (registry.parse_identity text)) [
      | inr (found, parsed) ↦ inl (parsed ∙ ap some (ok_inj (ground (arith, parsed, h))))
      | inl unparsed ↦ elim (Option-cases (hex.decode (strip_0x_prefix text))) [
        | inl bad ↦ absurd (ground (arith, unparsed, bad, h))
        | inr (b, decoded) ↦
            let same : record { type_id = 3; key = b } ≡ identity =
              ok_inj (ground (arith, unparsed, decoded, h)) in
            inr (
              unparsed,
              decoded ∙ ap (λ (i : PublicIdentity). some i.key) same,
              sym (ap (λ (i : PublicIdentity). i.type_id) same),
            )
      ]
    ]

    back :
        IsIdentity hex registry text identity
        → parse_session_public_key hex registry text ≡ ok identity
    back (inl parsed) = ground (arith, parsed)
    back (inr (unparsed, decoded, kind)) = ground (arith, unparsed, decoded, kind)

module _ (hex : Hex) (ssz : Ssz) (secp : Secp) (bls : Bls) (registry : Registry) (url : Text)
    (registry_at : registry.RegistryAddress) (session_id : Bytes) where
  abbrev pub Runs : Text → Type 0
  Runs workload_id =
      workload_id ≢ []
      → (workload : Bytes) × (registry.workload_of url registry_at session_id ≡ some workload)
        × (hex.decode (strip_0x_prefix workload_id) ≡ some workload)
        × (length workload ≡ 32)

  check_workload_ok :
      (workload_id : Text)
      → check_workload hex ssz secp bls registry url registry_at session_id workload_id ≡ ok tt
      → Runs workload_id
  unfolding check_workload is_empty
  check_workload_ok [] h asked = absurd (asked refl)
  check_workload_ok (c ∷ t) h asked =
      let (w, h1, found) =
        first_ok _ (or_err (registry.workload_of url registry_at session_id) registry_failure) h in
      let (expected, h2, parsed) = first_ok _ (parse_b256 hex (c ∷ t)) h1 in
      let same =
        (text_eq_iff w expected).0 (bail_if-not (text_eq w expected) workload_mismatch h2) in
      let (decoded, fits) = (parse_b256_iff hex (c ∷ t) expected).0 parsed in
      (w, or_err_ok _ registry_failure found, decoded ∙ ap some (sym same), ap length same ∙ fits)

  check_workload_holds :
      (workload_id : Text)
      → Runs workload_id
      → check_workload hex ssz secp bls registry url registry_at session_id workload_id ≡ ok tt
  unfolding check_workload is_empty
  check_workload_holds [] runs = refl
  check_workload_holds (c ∷ t) runs =
      let (w, found, decoded, fits) = runs (λ e. cc) in
      ground (arith, found, (parse_b256_iff hex (c ∷ t) w).1 (decoded, fits), text_eq_refl w)

module _ (hex : Hex) (ssz : Ssz) (secp : Secp) (bls : Bls) (registry : Registry)
    (payload : BlsKeygenPayload) (workload_id : Text) where
  -- The registry confirms the signature of the session's key over the hash of the message that the
  -- payload stands for, and the session's workload is the one asked for, if one is.
  pub record IsAttested : Type 0 where
    pub states_session : payload.session_id ≢ []
    pub states_signature : payload.attestation_signature ≢ []
    pub states_key : payload.session_public_key ≢ []
    pub message : Bytes
    pub is_message : StandsFor hex ssz secp bls payload message
    pub session_id : Bytes
    pub is_id :
        (hex.decode (strip_0x_prefix payload.session_id) ≡ some session_id)
        × (length session_id ≡ 32)
    pub session_key : PublicIdentity
    pub is_key : IsIdentity hex registry payload.session_public_key session_key
    pub signature : Bytes
    pub is_signature : hex.decode (strip_0x_prefix payload.attestation_signature) ≡ some signature
    pub url : Text
    pub is_url : registry.rpc_url ≡ some url
    pub address_text : Text
    pub is_text : registry.registry_address ≡ some address_text
    pub registry_at : registry.RegistryAddress
    pub is_address : registry.parse_registry_address address_text ≡ some registry_at
    pub confirmed :
        registry.verify_session_signature url registry_at session_id session_key message signature
        ≡ some true
    pub runs : Runs hex ssz secp bls registry url registry_at session_id workload_id

  abbrev Passes : Type 0
  Passes = verify_session_evidence hex ssz secp bls registry payload workload_id ≡ ok tt

  passes-IsAttested : Passes → IsAttested
  unfolding verify_session_evidence
  passes-IsAttested h =
      let (_, h1, stated) = first_ok _ (check_fields payload) h in
      let (message, h2, is_message) = first_ok _ (attested_message hex ssz secp bls payload) h1 in
      let (session_id, h3, id_parsed) = first_ok _ (parse_b256 hex payload.session_id) h2 in
      let (session_key, h4, is_key) =
        first_ok _ (parse_session_public_key hex registry payload.session_public_key) h3 in
      let (signature, h5, decoded) =
        first_ok _ (or_err (hex.decode (strip_0x_prefix payload.attestation_signature)) invalid_hex)
          h4 in
      let (url, h6, has_url) = first_ok _ (or_err registry.rpc_url missing_variable) h5 in
      let (address_text, h7, has_text) =
        first_ok _ (or_err registry.registry_address missing_variable) h6 in
      let (registry_at, h8, parsed) =
        first_ok _ (or_err (registry.parse_registry_address address_text) invalid_address) h7 in
      let (valid, h9, verified) =
        first_ok _
          (or_err
            (registry.verify_session_signature url registry_at session_id session_key message
              signature)
            registry_failure)
          h8 in
      let (_, h10, accepted) = first_ok _ (bail_if (not valid) session_rejected) h9 in
      record {
        states_session = ((check_fields_iff payload).0 stated).0;
        states_signature = ((check_fields_iff payload).0 stated).1;
        states_key = ((check_fields_iff payload).0 stated).2;
        message = message;
        is_message = (attested_message_iff hex ssz secp bls payload message).0 is_message;
        session_id = session_id;
        is_id = (parse_b256_iff hex payload.session_id session_id).0 id_parsed;
        session_key = session_key;
        is_key =
            (parse_session_public_key_iff hex registry payload.session_public_key session_key).0
              is_key;
        signature = signature;
        is_signature = or_err_ok _ invalid_hex decoded;
        url = url;
        is_url = or_err_ok _ missing_variable has_url;
        address_text = address_text;
        is_text = or_err_ok _ missing_variable has_text;
        registry_at = registry_at;
        is_address = or_err_ok _ invalid_address parsed;
        confirmed =
            or_err_ok _ registry_failure verified
            ∙ ap some (bail_if-not valid session_rejected accepted);
        runs =
            check_workload_ok hex ssz secp bls registry url registry_at session_id workload_id h10;
      }

  IsAttested-passes : IsAttested → Passes
  unfolding verify_session_evidence
  IsAttested-passes a = ground (
    arith,
    (check_fields_iff payload).1 (a.states_session, a.states_signature, a.states_key),
    (attested_message_iff hex ssz secp bls payload a.message).1 a.is_message,
    (parse_b256_iff hex payload.session_id a.session_id).1 a.is_id,
    (parse_session_public_key_iff hex registry payload.session_public_key a.session_key).1 a.is_key,
    a.is_signature,
    a.is_url,
    a.is_text,
    a.is_address,
    a.confirmed,
    check_workload_holds hex ssz secp bls registry a.url a.registry_at a.session_id workload_id
        a.runs,
  )

  -- The session evidence of a payload passes exactly if the payload states a session, its key and a
  -- signature, the registry confirms the signature of that key in that session over the hash of the
  -- message that the payload stands for, and the session runs the workload that is asked for, if
  -- one is.
  pub verify_session_evidence_iff :
      (verify_session_evidence hex ssz secp bls registry payload workload_id ≡ ok tt) ↔ IsAttested
  verify_session_evidence_iff = (passes-IsAttested, IsAttested-passes)
