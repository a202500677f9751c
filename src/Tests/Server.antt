-- ===== src/Tests/Server.antt =====
-- A secure signer that starts with no files, generates a key and votes with it.
use validator_guardian.Prelude.{ℕ, ◌≡◌, refl, [], ◌++◌, replicate, false, List, length}
use validator_guardian.Text.{Text, strip_0x_prefix, text_eq}
use validator_guardian.Disk.{
  Disk, lookup, join, parent, has_slash, read_file, write_file, create_dir_all, insert,
}
use validator_guardian.Enclave.Shared.Records.{recorded}
use validator_guardian.Enclave.Shared.Update.{WellNamed}
use validator_guardian.Enclave.Shared.History.{Signed, IsSafe, logged}
use validator_guardian.Server.Life.{Life}
use validator_guardian.Server.Keeps.{Keeps}
use validator_guardian.Server.SecureSigner.{Call, Answer, bls_keygen, secure_sign_bls, serve}
use validator_guardian.Server.Recording.{DrawsFresh}
use validator_guardian.Server.SecureSigner.Life.{SignerLife, call_logged, serve-Keeps, Life-IsSafe}
use validator_guardian.Outcome.{Outcome}
use validator_guardian.Tests.HexWorld.{
  hex_world, hex_world-IsHex, hex_world-IsHexText, encode, decode, digit, value, byte_of,
}
use validator_guardian.Tests.SerdeWorld.{
  serde_world, serde_world-IsSerde, print, parse, put_bytes, get_bytes, put_items, get_items,
  put_block, get_block, put_attestation, get_attestation, put_root, get_root,
}
use validator_guardian.Tests.World.{tree_world, bls_world, bls_world-IsBlsKeys, state, vote_from}
use validator_guardian.Tests.CustodyWorld.{secp_world, ssz_world, stub_world}
use validator_guardian.Enclave.Shared.{
  sign_validator_message, check_and_sign, record_and_sign, is_slashable, verdict, save,
  update_slash_protection_db, sign_root, is_deposit_upper,
}
use validator_guardian.Crypto.BlsKeys.{
  sanitize_bls_pk_hex, bls_agg_sign_from_saved_sk, fetch_bls_sk, bls_agg_sign, new_bls_key,
  save_bls_key,
}
use validator_guardian.Enclave.Shared.Levels.{statement_of}
use validator_guardian.Eth2.Signing.{can_be_slashed, to_signing_root, compute_signing_root}
use validator_guardian.Eth2.SlashProtection.Storage.{read, write, file_path}
use validator_guardian.Eth2.SlashProtection.{
  new_block, new_attestation, get_latest_signed_block_slot, get_latest_signed_attestation_epochs,
  is_slashable_block_slot, is_slashable_attestation_epochs, latest, max_by_key, max_from,
  push_or_overwrite, from_pk_hex, new,
}
use validator_guardian.Io.KeyManagement.{read_bls_key, read_key, write_bls_key, write_key}
use validator_guardian.Enclave.Types.{new_signature_response}
use validator_guardian.Enclave.SecureSigner.{attest_new_bls_key, bls_keygen_handler}
use validator_guardian.Io.RemoteAttestation.{attest}

abbrev pub empty_disk : Disk
empty_disk = record { files = []; dirs = []; denied = λ p. false }

pub empty_disk-WellNamed : WellNamed hex_world serde_world empty_disk.files
unfolding recorded lookup
empty_disk-WellNamed k d h = cc

pub empty_disk-DrawsFresh :
    (t entropy : ℕ) → DrawsFresh hex_world ssz_world serde_world bls_world t entropy empty_disk
unfolding recorded lookup
empty_disk-DrawsFresh t entropy sk db drawn empty k same = refl

abbrev pub pk_hex : Text
pk_hex = encode (replicate 48 9)

serve_at : Call → Disk → Outcome Answer × Disk
serve_at call disk =
    serve hex_world ssz_world serde_world tree_world secp_world bls_world stub_world state call disk

serve-Keeps_example :
    Keeps hex_world serde_world empty_disk.files (serve_at (bls_keygen 9) empty_disk).1.files
unfolding serve_at
serve-Keeps_example =
    serve-Keeps hex_world ssz_world serde_world tree_world secp_world bls_world stub_world state
      hex_world-IsHex hex_world-IsHexText bls_world-IsBlsKeys serde_world-IsSerde (bls_keygen 9)
      empty_disk empty_disk-WellNamed (empty_disk-DrawsFresh 0 9)

abbrev generated : Outcome Answer × Disk
generated = serve_at (bls_keygen 9) empty_disk

abbrev voted : Outcome Answer × Disk
voted = serve_at (secure_sign_bls pk_hex (vote_from 2 3)) generated.1

abbrev voted_again : Outcome Answer × Disk
voted_again = serve_at (secure_sign_bls pk_hex (vote_from 1 4)) voted.1

abbrev log : List Signed
log =
    call_logged (bls_keygen 9) generated.0
    ++ (call_logged (secure_sign_bls pk_hex (vote_from 2 3)) voted.0
        ++ (call_logged (secure_sign_bls pk_hex (vote_from 1 4)) voted_again.0 ++ []))

life :
    SignerLife hex_world ssz_world serde_world tree_world secp_world bls_world stub_world state
      empty_disk log voted_again.1
unfolding serve_at
life = Life.next (bls_keygen 9) (empty_disk-DrawsFresh 0 9) (
    Life.next (secure_sign_bls pk_hex (vote_from 2 3)) tt
      (Life.next (secure_sign_bls pk_hex (vote_from 1 4)) tt Life.here))

Life-IsSafe_example : IsSafe log
Life-IsSafe_example =
    Life-IsSafe hex_world ssz_world serde_world tree_world secp_world bls_world stub_world state
      hex_world-IsHex hex_world-IsHexText bls_world-IsBlsKeys serde_world-IsSerde
      empty_disk-WellNamed life

-- The first vote was signed, and the vote that surrounds it was not.
length-log : length log ≡ 1
unfolding call_logged serve_at serve bls_keygen_handler sign_validator_message check_and_sign
    record_and_sign is_slashable verdict save update_slash_protection_db sign_root is_deposit_upper
    sanitize_bls_pk_hex strip_0x_prefix logged statement_of can_be_slashed read write file_path join
    parent has_slash read_file write_file create_dir_all lookup insert text_eq new_block
    new_attestation get_latest_signed_block_slot get_latest_signed_attestation_epochs
    is_slashable_block_slot is_slashable_attestation_epochs latest max_by_key max_from
    push_or_overwrite to_signing_root print parse put_bytes get_bytes put_items get_items put_block
    get_block put_attestation get_attestation put_root get_root bls_agg_sign_from_saved_sk
    fetch_bls_sk read_bls_key read_key bls_agg_sign encode decode digit value byte_of
    compute_signing_root new_signature_response attest_new_bls_key new_bls_key save_bls_key
    write_bls_key write_key from_pk_hex new attest
length-log = refl
