-- ===== src/External/Http.antt =====
-- The crate `reqwest` and the JSON that serde derives. The state behind the network is a disk.
use validator_guardian.Prelude.{ℕ, Option}
use validator_guardian.Text.{Text}
use validator_guardian.Disk.{Exec}
use validator_guardian.External.Secp.{Secp}
use validator_guardian.Eth2.Signing.{BlsSignMsg}
use validator_guardian.Enclave.Types.{SignatureResponse}
use validator_guardian.Enclave.Keys.{KeyGenResponse, ListKeysResponse}
use validator_guardian.Enclave.Payload.{BlsKeygenPayload}
use validator_guardian.Enclave.Validator.{AttestFreshBlsKeyPayload}
use validator_guardian.Enclave.Guardian.{ValidateCustodyRequest, ValidateCustodyResponse}
use validator_guardian.Enclave.Exit.{KeygenWithBlockhashRequest, SignExitRequest, SignExitResponse}

pub data Method : Type 0 where
  get : Method
  post : Method

pub record HttpRequest : Type 0 where
  pub method : Method
  pub url : Text
  pub json : Option Text

pub record HttpResponse : Type 0 where
  pub status : ℕ
  pub body : Text

pub record Http : Type 0 where
  pub send : HttpRequest → Exec HttpResponse

pub record Json (secp : Secp) : Type 0 where
  pub eth_keygen_request : KeygenWithBlockhashRequest → Text
  pub bls_keygen_request : AttestFreshBlsKeyPayload secp → Text
  pub custody_request : ValidateCustodyRequest secp → Text
  pub exit_request : SignExitRequest → Text
  pub sign_request : BlsSignMsg → Text
  pub keygen_response : Text → Option KeyGenResponse
  pub list_response : Text → Option ListKeysResponse
  pub payload_response : Text → Option BlsKeygenPayload
  pub custody_response : Text → Option ValidateCustodyResponse
  pub exit_response : Text → Option SignExitResponse
  pub signature_response : Text → Option SignatureResponse
