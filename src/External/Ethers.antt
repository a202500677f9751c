-- ===== src/External/Ethers.antt =====
-- The crate `ethers`: ABI encoding and wallets.
use validator_guardian.Prelude.{ℕ, Bool, Option, List}
use validator_guardian.Text.{Bytes, Text}

pub data Token (Address : Type 0) : Type 0 where
  string : Text → Token Address
  address : Address → Token Address
  uint : ℕ → Token Address
  bytes : Bytes → Token Address
  fixed_bytes : Bytes → Token Address

-- `none` is an `Err`. A wallet signs the prefixed hash of a message.
pub record Ethers : Type 1 where
  pub Address : Type 0
  pub Wallet : Type 0
  pub WalletSignature : Type 0
  pub parse_address : Text → Option Address
  pub same_address : Address → Address → Bool
  pub encode_tokens : List (Token Address) → Bytes
  pub parse_wallet : Text → Option Wallet
  pub wallet_address : Wallet → Address
  pub sign_message : Wallet → Bytes → Option WalletSignature
  pub signature_to_string : WalletSignature → Text
  pub recover : WalletSignature → Bytes → Option Address
