-- ===== src/Server/Paths.antt =====
-- src/io/key_management.rs and src/eth2/slash_protection.rs: the paths of key files are none of the
-- paths from which a record is read.
use validator_guardian.Prelude.{◌≤◌, ◌≡◌, ◌⊎◌, false, [], ◌∷◌, All, arith, refl}
use validator_guardian.Text.{Text, text_eq, strip_0x_prefix}
use validator_guardian.Disk.{Files, insert, join, lookup-insert}
use validator_guardian.Constants.{bls_keys_dir, eth_keys_dir, slashing_protection_dir}
use validator_guardian.Eth2.SlashProtection.Storage.{Serde}
use validator_guardian.Enclave.Shared.Records.{recorded, path_of}

-- a text that does not begin with a slash
abbrev pub IsRelative : Text → Type 0
IsRelative [] = Unit
IsRelative (c ∷ t) = (c ≡ b'/') → ⊥

bls_key_apart_from :
    (name t : Text)
    → IsRelative name
    → text_eq (join bls_keys_dir name) (join slashing_protection_dir t) ≡ false
unfolding join text_eq
bls_key_apart_from [] [] h = refl
bls_key_apart_from [] (d ∷ t) h = ground arith
bls_key_apart_from (c ∷ name) [] h = ground arith
bls_key_apart_from (c ∷ name) (d ∷ t) h = ground arith

eth_key_apart_from :
    (name t : Text)
    → IsRelative name
    → text_eq (join eth_keys_dir name) (join slashing_protection_dir t) ≡ false
unfolding join text_eq
eth_key_apart_from [] [] h = refl
eth_key_apart_from [] (d ∷ t) h = ground arith
eth_key_apart_from (c ∷ name) [] h = ground arith
eth_key_apart_from (c ∷ name) (d ∷ t) h = ground arith

-- a guardian's own keys and the key shares that it keeps
pub bls_path_apart :
    (name t : Text)
    → IsRelative name
    → text_eq (join eth_keys_dir name) (join bls_keys_dir t) ≡ false
unfolding join text_eq
bls_path_apart [] [] h = refl
bls_path_apart [] (d ∷ t) h = ground arith
bls_path_apart (c ∷ name) [] h = ground arith
bls_path_apart (c ∷ name) (d ∷ t) h = ground arith

pub bls_key_apart :
    (name k : Text) → IsRelative name → text_eq (join bls_keys_dir name) (path_of k) ≡ false
bls_key_apart name k h = bls_key_apart_from name (strip_0x_prefix k) h

pub eth_key_apart :
    (name k : Text) → IsRelative name → text_eq (join eth_keys_dir name) (path_of k) ≡ false
eth_key_apart name k h = eth_key_apart_from name (strip_0x_prefix k) h

-- a file elsewhere leaves the record of a key
pub recorded-insert_apart :
    (serde : Serde) (path text k : Text) (files : Files)
    → text_eq path (path_of k) ≡ false
    → recorded serde (insert path text files) k ≡ recorded serde files k
unfolding recorded
recorded-insert_apart serde path text k files apart =
    ground (arith, apart, lookup-insert path (path_of k) text files)

-- the name of a file with hexadecimal digits
pub IsRelative-digits :
    (t : Text) → All (λ c. (48 ≤ c × c ≤ 57) ⊎ (97 ≤ c × c ≤ 102)) t → IsRelative t
IsRelative-digits [] h = tt
IsRelative-digits (c ∷ t) h = λ e. ground arith
