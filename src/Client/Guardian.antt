-- ===== src/Client/Guardian.antt =====
-- src/client/guardian.rs.
use validator_guardian.Prelude.{ℕ, Bool, none, some, [], ◌∷◌, ◌++◌}
use validator_guardian.Enclave.Keys.{KeyGenResponse, ListKeysResponse}
use validator_guardian.Enclave.Guardian.{ValidateCustodyRequest, ValidateCustodyResponse}
use validator_guardian.Enclave.Exit.{SignExitRequest, SignExitResponse}
use validator_guardian.Text.{Text}
use validator_guardian.Disk.{Exec}
use validator_guardian.External.Secp.{Secp}
use validator_guardian.External.Http.{Http, Json, get, post}
use validator_guardian.Client.Call.{upcheck, call}

pub record GuardianClient : Type 0 where
  pub url : Text

module _ (http : Http) (secp : Secp) (json : Json secp) (client : GuardianClient) where
  unfoldable pub health : Exec Bool
  health = upcheck http client.url

  -- "/eth/v1/keygen"
  unfoldable pub attest_fresh_eth_key : ℕ → Text → ℕ → Exec KeyGenResponse
  attest_fresh_eth_key block_number guardian_module_address chain_id =
      call http post
        (client.url
          ++ (b'/' ∷ b'e' ∷ b't' ∷ b'h' ∷ b'/' ∷ b'v' ∷ b'1' ∷ b'/' ∷ b'k' ∷ b'e' ∷ b'y' ∷ b'g'
              ∷ b'e' ∷ b'n' ∷ []))
        (some (
          json.eth_keygen_request (record {
            block_number = block_number;
            guardian_module_address = guardian_module_address;
            chain_id = chain_id;
          })))
        json.keygen_response

  -- "/eth/v1/keygen"
  unfoldable pub list_eth_keys : Exec ListKeysResponse
  list_eth_keys =
      call http get
        (client.url
          ++ (b'/' ∷ b'e' ∷ b't' ∷ b'h' ∷ b'/' ∷ b'v' ∷ b'1' ∷ b'/' ∷ b'k' ∷ b'e' ∷ b'y' ∷ b'g'
              ∷ b'e' ∷ b'n' ∷ []))
        none json.list_response

  -- "/guardian/v1/validate-custody"
  unfoldable pub validate_custody : ValidateCustodyRequest secp → Exec ValidateCustodyResponse
  validate_custody request =
      call http post
        (client.url
          ++ (b'/' ∷ b'g' ∷ b'u' ∷ b'a' ∷ b'r' ∷ b'd' ∷ b'i' ∷ b'a' ∷ b'n' ∷ b'/' ∷ b'v' ∷ b'1'
              ∷ b'/' ∷ b'v' ∷ b'a' ∷ b'l' ∷ b'i' ∷ b'd' ∷ b'a' ∷ b't' ∷ b'e' ∷ b'-' ∷ b'c' ∷ b'u'
              ∷ b's' ∷ b't' ∷ b'o' ∷ b'd' ∷ b'y' ∷ []))
        (some (json.custody_request request)) json.custody_response

  -- "/guardian/v1/sign-exit"
  unfoldable pub sign_exit : SignExitRequest → Exec SignExitResponse
  sign_exit request =
      call http post
        (client.url
          ++ (b'/' ∷ b'g' ∷ b'u' ∷ b'a' ∷ b'r' ∷ b'd' ∷ b'i' ∷ b'a' ∷ b'n' ∷ b'/' ∷ b'v' ∷ b'1'
              ∷ b'/' ∷ b's' ∷ b'i' ∷ b'g' ∷ b'n' ∷ b'-' ∷ b'e' ∷ b'x' ∷ b'i' ∷ b't' ∷ []))
        (some (json.exit_request request)) json.exit_response
