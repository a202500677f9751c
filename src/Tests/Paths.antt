-- ===== src/Tests/Paths.antt =====
-- Which paths exist on a disk with one key file, and what its directory lists.
use validator_guardian.Prelude.{Bool, ◌≡◌, refl, true, false, List, [], ◌∷◌}
use validator_guardian.Text.{Text, text_eq, strip_0x_prefix}
use validator_guardian.Outcome.{ok}
use validator_guardian.Disk.{
  Disk, join, read_dir, is_dir, names_in, strip_dir, first_component, is_among,
}
use validator_guardian.Disk.Resolve.{exists}
use validator_guardian.Text.Utf8.{is_utf8, is_utf8_from, utf8_lead}
use validator_guardian.Constants.{bls_keys_dir}
use validator_guardian.Io.KeyManagement.{
  bls_key_exists, key_exists, list_bls_keys, list_fnames, file_names,
}

abbrev key_name : Text
key_name = b'a' ∷ b'7' ∷ []

abbrev disk : Disk
disk = record {
  files =
      (
        b'.' ∷ b'/' ∷ b'd' ∷ b'a' ∷ b't' ∷ b'a' ∷ b'/' ∷ b'k' ∷ b'e' ∷ b'y' ∷ b's' ∷ b'/' ∷ b'b'
            ∷ b'l' ∷ b's' ∷ b'_' ∷ b'k' ∷ b'e' ∷ b'y' ∷ b's' ∷ b'/' ∷ key_name,
        [],
      )
      ∷ [];
  dirs = bls_keys_dir ∷ [];
  denied = λ p. false;
}

-- The key, ".", "..", "a7/." and "a8".
abbrev answers : List Bool
answers =
    bls_key_exists key_name disk
    ∷ bls_key_exists (b'.' ∷ []) disk
    ∷ bls_key_exists (b'.' ∷ b'.' ∷ []) disk
    ∷ bls_key_exists (b'a' ∷ b'7' ∷ b'/' ∷ b'.' ∷ []) disk
    ∷ bls_key_exists (b'a' ∷ b'8' ∷ []) disk
    ∷ []

answers_as_expected : answers ≡ true ∷ true ∷ true ∷ false ∷ false ∷ []
unfolding bls_key_exists key_exists exists join strip_0x_prefix text_eq
answers_as_expected = refl

listed_as_expected : (list_bls_keys disk).0 ≡ ok (key_name ∷ [])
unfolding list_bls_keys list_fnames file_names read_dir is_dir names_in strip_dir first_component
    is_among is_utf8 is_utf8_from utf8_lead text_eq
listed_as_expected = refl
