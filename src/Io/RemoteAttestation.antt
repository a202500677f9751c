-- ===== src/Io/RemoteAttestation.antt =====
-- src/io/remote_attestation.rs: what the CVM agent attests.
use validator_guardian.Prelude.{if◌then◌else◌, []}
use validator_guardian.Text.{Text, Bytes}
use validator_guardian.Outcome
use validator_guardian.Outcome.{Outcome, ok, or_err, attestation_failure}
use validator_guardian.External.Session.{PublicIdentity, Agent}

pub record AttestationEvidence : Type 0 where
  pub session_id : Text
  pub signature : Text
  pub session_public_key : PublicIdentity
  pub owner_public_key : PublicIdentity

-- `AttestationEvidence::default()`
abbrev pub no_evidence : Agent → AttestationEvidence
no_evidence agent = record {
  session_id = [];
  signature = [];
  session_public_key = agent.default_identity;
  owner_public_key = agent.default_identity;
}

-- `AttestationEvidence::new`
unfoldable pub attest : Agent → Bytes → Outcome AttestationEvidence
attest agent payload =
    if agent.is_stub
    then ok (no_evidence agent)
    else Outcome.◌>>=◌ (or_err (agent.sign_with_session payload) attestation_failure) λ resp.
      ok (record {
        session_id = resp.session_id;
        signature = resp.signature;
        session_public_key = resp.session_key;
        owner_public_key = resp.owner_key;
      })
