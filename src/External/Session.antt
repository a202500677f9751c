-- ===== src/External/Session.antt =====
-- The services that the program asks about sessions: the CVM agent behind
-- src/io/cvm_agent.rs, the contract `SessionRegistry` behind src/io/session_registry.rs, the
-- environment variables, and the JSON of a public identity.
use validator_guardian.Prelude.{ℕ, Bool, Option}
use validator_guardian.Text.{Bytes, Text}

pub record PublicIdentity : Type 0 where
  pub type_id : ℕ
  pub key : Bytes

-- what `sign_with_session` returns, its identifiers printed
pub record SessionSignature : Type 0 where
  pub session_id : Text
  pub signature : Text
  pub session_key : PublicIdentity
  pub owner_key : PublicIdentity

-- `is_stub`: the variable `CVM_AGENT_STUB` is "true". `none` is an `Err`. `default_identity` is
-- `PublicIdentity::default()`.
pub record Agent : Type 0 where
  pub is_stub : Bool
  pub sign_with_session : Bytes → Option SessionSignature
  pub default_identity : PublicIdentity
  pub identity_key_to_string : Bytes → Text

-- `rpc_url` and `registry_address` are the variables `SESSION_REGISTRY_RPC_URL` and
-- `SESSION_REGISTRY_ADDRESS`. `workload_of` is the field `workloadId` of what `get_session`
-- returns.
pub record Registry : Type 1 where
  pub RegistryAddress : Type 0
  pub rpc_url : Option Text
  pub registry_address : Option Text
  pub parse_registry_address : Text → Option RegistryAddress
  pub parse_identity : Text → Option PublicIdentity
  pub verify_session_signature :
      Text → RegistryAddress → Bytes → PublicIdentity → Bytes → Bytes → Option Bool
  pub workload_of : Text → RegistryAddress → Bytes → Option Bytes
