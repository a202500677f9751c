-- ===== src/Client/Builder.antt =====
-- src/client/mod.rs: the clients of the three servers.
use validator_guardian.Prelude.{Option, none, some, [], ◌∷◌}
use validator_guardian.Text.{Text}
use validator_guardian.Client.Guardian.{GuardianClient}
use validator_guardian.Client.Validator.{ValidatorClient}
use validator_guardian.Client.SecureSigner.{SecureSignerClient}

pub record Client : Type 0 where
  pub validator : ValidatorClient
  pub secure_signer : SecureSignerClient
  pub guardian : GuardianClient

-- "http://localhost:9002"
abbrev default_client_guardian_url : Text
default_client_guardian_url =
    b'h' ∷ b't' ∷ b't' ∷ b'p' ∷ b':' ∷ b'/' ∷ b'/' ∷ b'l' ∷ b'o' ∷ b'c' ∷ b'a' ∷ b'l' ∷ b'h' ∷ b'o'
    ∷ b's' ∷ b't' ∷ b':' ∷ b'9' ∷ b'0' ∷ b'0' ∷ b'2' ∷ []

-- "http://localhost:9003"
abbrev default_client_validator_url : Text
default_client_validator_url =
    b'h' ∷ b't' ∷ b't' ∷ b'p' ∷ b':' ∷ b'/' ∷ b'/' ∷ b'l' ∷ b'o' ∷ b'c' ∷ b'a' ∷ b'l' ∷ b'h' ∷ b'o'
    ∷ b's' ∷ b't' ∷ b':' ∷ b'9' ∷ b'0' ∷ b'0' ∷ b'3' ∷ []

-- "http://localhost:9001"
abbrev default_client_secure_signer_url : Text
default_client_secure_signer_url =
    b'h' ∷ b't' ∷ b't' ∷ b'p' ∷ b':' ∷ b'/' ∷ b'/' ∷ b'l' ∷ b'o' ∷ b'c' ∷ b'a' ∷ b'l' ∷ b'h' ∷ b'o'
    ∷ b's' ∷ b't' ∷ b':' ∷ b'9' ∷ b'0' ∷ b'0' ∷ b'1' ∷ []

pub record ClientBuilder : Type 0 where
  pub validator_url : Option Text
  pub secure_signer_url : Option Text
  pub guardian_url : Option Text

-- `new`
unfoldable pub new_client_builder : ClientBuilder
new_client_builder = record { validator_url = none; secure_signer_url = none; guardian_url = none }

abbrev url_or : Option Text → Text → Text
url_or none default = default
url_or (some url) default = url

unfoldable pub build : ClientBuilder → Client
build builder = record {
  validator = record { url = url_or builder.validator_url default_client_validator_url };
  guardian = record { url = url_or builder.guardian_url default_client_guardian_url };
  secure_signer = record {
    url = url_or builder.secure_signer_url default_client_secure_signer_url;
  };
}

unfoldable pub with_validator_url : ClientBuilder → Text → ClientBuilder
with_validator_url builder url = record builder { validator_url = some url }

unfoldable pub with_guardian_url : ClientBuilder → Text → ClientBuilder
with_guardian_url builder url = record builder { guardian_url = some url }

unfoldable pub with_secure_signer_url : ClientBuilder → Text → ClientBuilder
with_secure_signer_url builder url = record builder { secure_signer_url = some url }
