-- ===== src/Client/Validator.antt =====
-- src/client/validator.rs.
use validator_guardian.Text.{strip_0x_prefix, Text}
use validator_guardian.Eth2.Types.{Epoch, ValidatorIndex, ForkInfo}
use validator_guardian.Eth2.Signing.{voluntary_exit_upper}
use validator_guardian.Enclave.Types.{SignatureResponse}
use validator_guardian.Enclave.Keys.{ListKeysResponse}
use validator_guardian.Enclave.Payload.{BlsKeygenPayload}
use validator_guardian.Enclave.Validator.{AttestFreshBlsKeyPayload}
use validator_guardian.Prelude.{Bool, none, some, [], ◌∷◌, ◌++◌}
use validator_guardian.Disk.{Exec}
use validator_guardian.External.Secp.{Secp}
use validator_guardian.External.Http.{Http, Json, get, post}
use validator_guardian.Client.Call.{upcheck, call}

pub record ValidatorClient : Type 0 where
  pub url : Text

module _ (http : Http) (secp : Secp) (json : Json secp) (client : ValidatorClient) where
  unfoldable pub health : Exec Bool
  health = upcheck http client.url

  -- "/bls/v1/keygen"
  unfoldable pub attest_fresh_bls_key : AttestFreshBlsKeyPayload secp → Exec BlsKeygenPayload
  attest_fresh_bls_key payload =
      call http post
        (client.url
          ++ (b'/' ∷ b'b' ∷ b'l' ∷ b's' ∷ b'/' ∷ b'v' ∷ b'1' ∷ b'/' ∷ b'k' ∷ b'e' ∷ b'y' ∷ b'g'
              ∷ b'e' ∷ b'n' ∷ []))
        (some (json.bls_keygen_request payload)) json.payload_response

  -- "/eth/v1/keystores"
  unfoldable pub list_bls_keys : Exec ListKeysResponse
  list_bls_keys =
      call http get
        (client.url
          ++ (b'/' ∷ b'e' ∷ b't' ∷ b'h' ∷ b'/' ∷ b'v' ∷ b'1' ∷ b'/' ∷ b'k' ∷ b'e' ∷ b'y' ∷ b's'
              ∷ b't' ∷ b'o' ∷ b'r' ∷ b'e' ∷ b's' ∷ []))
        none json.list_response

  -- "/api/v1/eth2/sign/"
  unfoldable pub sign_voluntary_exit_message :
      Text → Epoch → ValidatorIndex → ForkInfo → Exec SignatureResponse
  sign_voluntary_exit_message bls_pk_hex epoch validator_index fork_info =
      call http post
        (client.url
          ++ (b'/'
              ∷ b'a'
              ∷ b'p'
              ∷ b'i'
              ∷ b'/'
              ∷ b'v'
              ∷ b'1'
              ∷ b'/'
              ∷ b'e'
              ∷ b't'
              ∷ b'h'
              ∷ b'2'
              ∷ b'/'
              ∷ b's'
              ∷ b'i'
              ∷ b'g'
              ∷ b'n'
              ∷ b'/'
              ∷ strip_0x_prefix bls_pk_hex))
        (some (
          json.sign_request (
            voluntary_exit_upper (record {
              fork_info = fork_info;
              signing_root = none;
              voluntary_exit = record { epoch = epoch; validator_index = validator_index };
            }))))
        json.signature_response
