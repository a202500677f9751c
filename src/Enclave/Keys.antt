-- ===== src/Enclave/Keys.antt =====
-- src/enclave/types.rs: the answers about keys; and the listing endpoints of
-- src/enclave/shared/handlers.
use validator_guardian.Prelude.{Bool, true, not, leb, List, [], ◌∷◌, ◌==◌, ◌&&◌, map, if◌then◌else◌}
use validator_guardian.Text.{Text, strip_0x_prefix}
use validator_guardian.Outcome
use validator_guardian.Outcome.{Outcome, ok, panic}
use validator_guardian.Disk.{Exec, ◌>>=◌, lift}
use validator_guardian.External.Hex.{Hex}
use validator_guardian.External.Bls.{Bls}
use validator_guardian.External.Secp.{Secp}
use validator_guardian.Io.KeyManagement.{list_bls_keys, list_eth_keys}
use validator_guardian.Io.RemoteAttestation.{AttestationEvidence}
use validator_guardian.Enclave.Types.{
  Response, status_ok, internal_server_error, respond, respond_with, match_result,
}

pub record KeyGenResponse : Type 0 where
  pub pk_hex : Text
  pub evidence : AttestationEvidence

unfoldable pub from_eth_key :
    (hex : Hex) (secp : Secp) → secp.PublicKey → AttestationEvidence → KeyGenResponse
from_eth_key hex secp pk evidence = record {
  pk_hex = b'0' ∷ b'x' ∷ strip_0x_prefix (hex.encode (secp.serialize pk));
  evidence = evidence;
}

unfoldable pub from_bls_key : (bls : Bls) → bls.PublicKey → AttestationEvidence → KeyGenResponse
from_bls_key bls pk evidence = record {
  pk_hex = b'0' ∷ b'x' ∷ bls.public_key_to_hex pk;
  evidence = evidence;
}

pub record ListKeysResponseInner : Type 0 where
  pub pubkey : Text

pub record ListKeysResponse : Type 0 where
  pub keys : List ListKeysResponseInner

-- the byte 2 is none that goes on with a character
unfoldable pub is_boundary : Text → Bool
is_boundary [] = true
is_boundary (e ∷ t) = not (leb 128 e && leb e 191)

-- The slice `pk[0..2]` panics on a shorter name, and if it cuts a character.
unfoldable pub prefixed : Text → Outcome ListKeysResponseInner
prefixed [] = panic
prefixed (c ∷ []) = panic
prefixed (c ∷ d ∷ t) =
    if not (is_boundary t)
    then panic
    else if c == b'0' && d == b'x'
    then ok (record { pubkey = c ∷ d ∷ t })
    else ok (record { pubkey = b'0' ∷ b'x' ∷ c ∷ d ∷ t })

unfoldable pub prefixed_all : List Text → Outcome (List ListKeysResponseInner)
prefixed_all [] = ok []
prefixed_all (pk ∷ keys) =
    Outcome.◌>>=◌ (prefixed pk)
      λ inner. Outcome.◌>>=◌ (prefixed_all keys) λ inners. ok (inner ∷ inners)

-- `ListKeysResponse::new`
unfoldable pub new_list_keys_response : List Text → Outcome ListKeysResponse
new_list_keys_response keys =
    Outcome.◌>>=◌ (prefixed_all keys) λ inners. ok (record { keys = inners })

-- the body of the two listing handlers
list_keys_with : Exec (List Text) → Exec (Response ListKeysResponse)
list_keys_with listed =
    match_result listed
      (λ list_res. lift (new_list_keys_response list_res) >>= λ resp. respond_with status_ok resp)
      (λ e. respond internal_server_error)

unfoldable pub list_bls_keys_handler : Exec (Response ListKeysResponse)
unfolding list_keys_with
list_bls_keys_handler = list_keys_with list_bls_keys

unfoldable pub list_eth_keys_handler : Exec (Response ListKeysResponse)
unfolding list_keys_with
list_eth_keys_handler = list_keys_with list_eth_keys

unfoldable pub list_bls_keys_for_vc_handler : Exec (Response (List Text))
list_bls_keys_for_vc_handler =
    match_result list_bls_keys
      (λ list_res. respond_with status_ok (map (λ x. b'0' ∷ b'x' ∷ strip_0x_prefix x) list_res))
      (λ e. respond internal_server_error)
