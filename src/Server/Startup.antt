-- ===== src/Server/Startup.antt =====
-- src/bin: the start of a server, with its port and its genesis fork version.
pub mod Ports
use validator_guardian.Prelude.{
  ℕ, ◌+◌, ◌-◌, ◌*◌, ◌^◌, ◌&&◌, Option, none, some, [], ◌∷◌, ◌==◌, leb, ltb, length, if◌then◌else◌,
}
use validator_guardian.Text.{Text, Bytes, strip_0x_prefix}
use validator_guardian.Outcome.{Outcome, ok, panic, ◌>>=◌, assert}
use validator_guardian.External.Hex.{Hex}
use validator_guardian.Eth2.Types.{Version}
use validator_guardian.Eth2.Signing.{unwrap_or}
use validator_guardian.Enclave.Shared.{AppState}

-- the loop of `str::parse::<u16>`: each digit must keep the number below 2 ^ 16
unfoldable pub u16_digits : ℕ → Text → Option ℕ
u16_digits acc [] = some acc
u16_digits acc (c ∷ t) =
    let rest = u16_digits (acc * 10 + (c - 48)) t in
    if leb 48 c && leb c 57 && ltb (acc * 10 + (c - 48)) (2 ^ 16) then rest else none

-- `str::parse::<u16>`: a plus may stand before the digits, of which there is one at least
unfoldable pub parse_u16 : Text → Option ℕ
parse_u16 [] = none
parse_u16 (c ∷ []) = u16_digits 0 (c ∷ [])
parse_u16 (c ∷ d ∷ t) = if c == b'+' then u16_digits 0 (d ∷ t) else u16_digits 0 (c ∷ d ∷ t)

-- `expect` and `unwrap`
abbrev pub expect {ℓ} : {A : Type ℓ} → Option A → Outcome A
expect none = panic
expect (some a) = ok a

-- the variable, or else the argument of the command line, or else the default
unfoldable pub setting : Option Text → Option Text → Text → Text
setting (some var) arg default = var
setting none (some arg) default = arg
setting none none default = default

-- "00000000"
abbrev pub default_fork_version : Text
default_fork_version = b'0' ∷ b'0' ∷ b'0' ∷ b'0' ∷ b'0' ∷ b'0' ∷ b'0' ∷ b'0' ∷ []

module _ (hex : Hex) where
  -- `copy_from_slice` panics on another length than 4
  unfoldable pub parse_fork_version : Text → Outcome Version
  parse_fork_version genesis_fork_version_str = do
    bytes ← expect (hex.decode (strip_0x_prefix genesis_fork_version_str))
    _ ← assert (length bytes == 4)
    ok bytes

  -- `port_var` and `version_var` are the environment variables, and `port_arg` and `version_arg`
  -- the arguments of the command line
  unfoldable pub start_with :
      Text → Option Text → Option Text → Option Text → Option Text → Outcome (ℕ × AppState)
  start_with default_port port_var version_var port_arg version_arg = do
    port ← expect (parse_u16 (setting port_var port_arg default_port))
    version ← parse_fork_version (setting version_var version_arg default_fork_version)
    ok (port, record { genesis_fork_version = version })

  -- "9001"
  unfoldable pub start_secure_signer :
      Option Text → Option Text → Option Text → Option Text → Outcome (ℕ × AppState)
  unfolding start_with
  start_secure_signer = start_with (b'9' ∷ b'0' ∷ b'0' ∷ b'1' ∷ [])

  -- "3031"
  unfoldable pub start_guardian :
      Option Text → Option Text → Option Text → Option Text → Outcome (ℕ × AppState)
  unfolding start_with
  start_guardian = start_with (b'3' ∷ b'0' ∷ b'3' ∷ b'1' ∷ [])

  -- "3031"
  unfoldable pub start_validator :
      Option Text → Option Text → Option Text → Option Text → Outcome (ℕ × AppState)
  unfolding start_with
  start_validator = start_with (b'3' ∷ b'0' ∷ b'3' ∷ b'1' ∷ [])
