-- ===== src/Constants.antt =====
-- src/constants.rs
use validator_guardian.Prelude.{ℕ, Bool, false, [], ◌∷◌}
use validator_guardian.Text.{Text}

-- "./data/keys/bls_keys/"
abbrev pub bls_keys_dir : Text
bls_keys_dir =
    b'.' ∷ b'/' ∷ b'd' ∷ b'a' ∷ b't' ∷ b'a' ∷ b'/' ∷ b'k' ∷ b'e' ∷ b'y' ∷ b's' ∷ b'/' ∷ b'b' ∷ b'l'
    ∷ b's' ∷ b'_' ∷ b'k' ∷ b'e' ∷ b'y' ∷ b's' ∷ b'/' ∷ []

-- "./data/keys/eth_keys/"
abbrev pub eth_keys_dir : Text
eth_keys_dir =
    b'.' ∷ b'/' ∷ b'd' ∷ b'a' ∷ b't' ∷ b'a' ∷ b'/' ∷ b'k' ∷ b'e' ∷ b'y' ∷ b's' ∷ b'/' ∷ b'e' ∷ b't'
    ∷ b'h' ∷ b'_' ∷ b'k' ∷ b'e' ∷ b'y' ∷ b's' ∷ b'/' ∷ []

-- "./data/slashing/"
abbrev pub slashing_protection_dir : Text
slashing_protection_dir =
    b'.' ∷ b'/' ∷ b'd' ∷ b'a' ∷ b't' ∷ b'a' ∷ b'/' ∷ b's' ∷ b'l' ∷ b'a' ∷ b's' ∷ b'h' ∷ b'i' ∷ b'n'
    ∷ b'g' ∷ b'/' ∷ []

abbrev pub bls_sig_bytes : ℕ
bls_sig_bytes = 96

abbrev pub bls_pub_key_bytes : ℕ
bls_pub_key_bytes = 48

abbrev pub eth_compressed_pk_bytes : ℕ
eth_compressed_pk_bytes = 33

abbrev pub eth_uncompressed_pk_bytes : ℕ
eth_uncompressed_pk_bytes = 65

abbrev pub allow_growable_slash_protection_db : Bool
allow_growable_slash_protection_db = false

abbrev pub full_deposit_amount : ℕ
full_deposit_amount = 32_000_000_000

abbrev pub withdrawal_credentials_bytes : ℕ
withdrawal_credentials_bytes = 32

abbrev pub eth_signature_bytes : ℕ
eth_signature_bytes = 64
