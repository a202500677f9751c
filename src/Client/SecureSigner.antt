-- ===== src/Client/SecureSigner.antt =====
-- src/client/secure_signer.rs.
use validator_guardian.Eth2.Signing.{BlsSignMsg}
use validator_guardian.Enclave.Types.{SignatureResponse}
use validator_guardian.Enclave.Keys.{KeyGenResponse, ListKeysResponse}
use validator_guardian.Prelude.{Bool, none, some, [], ◌∷◌, ◌++◌}
use validator_guardian.Text.{Text}
use validator_guardian.Disk.{Exec}
use validator_guardian.External.Secp.{Secp}
use validator_guardian.External.Http.{Http, Json, get, post}
use validator_guardian.Client.Call.{upcheck, call_unchecked}

pub record SecureSignerClient : Type 0 where
  pub url : Text

module _ (http : Http) (secp : Secp) (json : Json secp) (client : SecureSignerClient) where
  unfoldable pub health : Exec Bool
  health = upcheck http client.url

  -- "/eth/v1/keygen/secp256k1"
  unfoldable pub list_eth_keys : Exec ListKeysResponse
  list_eth_keys =
      call_unchecked http get
        (client.url
          ++ (b'/' ∷ b'e' ∷ b't' ∷ b'h' ∷ b'/' ∷ b'v' ∷ b'1' ∷ b'/' ∷ b'k' ∷ b'e' ∷ b'y' ∷ b'g'
              ∷ b'e' ∷ b'n' ∷ b'/' ∷ b's' ∷ b'e' ∷ b'c' ∷ b'p' ∷ b'2' ∷ b'5' ∷ b'6' ∷ b'k' ∷ b'1'
              ∷ []))
        none json.list_response

  -- "/eth/v1/keystores"
  unfoldable pub list_bls_keys : Exec ListKeysResponse
  list_bls_keys =
      call_unchecked http get
        (client.url
          ++ (b'/' ∷ b'e' ∷ b't' ∷ b'h' ∷ b'/' ∷ b'v' ∷ b'1' ∷ b'/' ∷ b'k' ∷ b'e' ∷ b'y' ∷ b's'
              ∷ b't' ∷ b'o' ∷ b'r' ∷ b'e' ∷ b's' ∷ []))
        none json.list_response

  -- "/eth/v1/keygen/secp256k1"
  unfoldable pub generate_eth_key : Exec KeyGenResponse
  generate_eth_key =
      call_unchecked http post
        (client.url
          ++ (b'/' ∷ b'e' ∷ b't' ∷ b'h' ∷ b'/' ∷ b'v' ∷ b'1' ∷ b'/' ∷ b'k' ∷ b'e' ∷ b'y' ∷ b'g'
              ∷ b'e' ∷ b'n' ∷ b'/' ∷ b's' ∷ b'e' ∷ b'c' ∷ b'p' ∷ b'2' ∷ b'5' ∷ b'6' ∷ b'k' ∷ b'1'
              ∷ []))
        none json.keygen_response

  -- "/eth/v1/keygen/bls"
  unfoldable pub generate_bls_key : Exec KeyGenResponse
  generate_bls_key =
      call_unchecked http post
        (client.url
          ++ (b'/' ∷ b'e' ∷ b't' ∷ b'h' ∷ b'/' ∷ b'v' ∷ b'1' ∷ b'/' ∷ b'k' ∷ b'e' ∷ b'y' ∷ b'g'
              ∷ b'e' ∷ b'n' ∷ b'/' ∷ b'b' ∷ b'l' ∷ b's' ∷ []))
        none json.keygen_response

  -- "/api/v1/eth2/sign/"
  unfoldable pub secure_sign_bls : Text → BlsSignMsg → Exec SignatureResponse
  secure_sign_bls public_key_hex signing_data =
      call_unchecked http post
        (client.url
          ++ (b'/' ∷ b'a' ∷ b'p' ∷ b'i' ∷ b'/' ∷ b'v' ∷ b'1' ∷ b'/' ∷ b'e' ∷ b't' ∷ b'h' ∷ b'2'
              ∷ b'/' ∷ b's' ∷ b'i' ∷ b'g' ∷ b'n' ∷ b'/' ∷ public_key_hex))
        (some (json.sign_request signing_data)) json.signature_response
