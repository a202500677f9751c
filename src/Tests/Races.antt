-- ===== src/Tests/Races.antt =====
-- Two blocks for one slot, asked for at the same time.
use validator_guardian.Eth2.Signing.{BlsSignMsg, block_v2_upper, to_signing_root}
use validator_guardian.Enclave.Shared.Interleaved.{arrived, answered, together, in_turns}
use validator_guardian.Enclave.Shared.Interleaved.Races.{both_signed}
use validator_guardian.Enclave.Shared.Availability.{signed_by}
use validator_guardian.Crypto.BlsKeys.{sanitize_bls_pk_hex}
use validator_guardian.Tests.Signing.{serde_total}
use validator_guardian.Enclave.Shared.Levels.{statement_of, level_of, proposal}
use validator_guardian.Text.{strip_0x_prefix, text_eq}
use validator_guardian.Enclave.Shared.Records.{recorded}
use validator_guardian.Disk.{lookup, join, Disk}
use validator_guardian.Tests.SerdeWorld.{
  parse, get_bytes, get_items, get_block, get_attestation, get_root, print, put_bytes, put_items,
  put_block, put_attestation, put_root, serde_world,
}
use validator_guardian.Eth2.SlashProtection.{
  get_latest_signed_block_slot, latest, max_by_key, max_from,
}
use validator_guardian.Eth2.SlashProtection.Storage.{file_path}
use validator_guardian.Crypto.BlsKeys.Stored.{stored_key}
use validator_guardian.Io.KeyManagement.Laws.{key_bytes}
use validator_guardian.Tests.HexWorld.{encode, decode, digit, value, byte_of, hex_world}
use validator_guardian.Outcome.{ok}
use validator_guardian.Tests.World.{
  tree_world, bls_world, disk, pk_hex, state, fresh, block_at, fork_info,
}
use validator_guardian.Prelude.{some, none, refl, arith, [], ◌∷◌, ◌≡◌}

-- another block for slot 5
abbrev other_block : BlsSignMsg
other_block = block_v2_upper (record {
  fork_info = fork_info;
  signing_root = none;
  beacon_block = record {
    version = [];
    block_header = record {
      slot = 5;
      proposer_index = 3;
      parent_root = [];
      state_root = 1 ∷ [];
      body_root = [];
    };
  };
})

both_signed_example :
    (disk' : Disk) × (together hex_world serde_world tree_world bls_world pk_hex state
        (block_at 5)
        other_block
        in_turns
        (arrived, (arrived, disk))
      ≡ (
        answered (
            ok (
              signed_by hex_world bls_world
                (1, 7)
                (to_signing_root tree_world (block_at 5) (some state.genesis_fork_version)))),
        (
          answered (
              ok (
                signed_by hex_world bls_world
                  (1, 7)
                  (to_signing_root tree_world other_block (some state.genesis_fork_version)))),
          disk',
        ),
      ))
unfolding sanitize_bls_pk_hex statement_of strip_0x_prefix recorded lookup text_eq parse get_bytes
    get_items get_block get_attestation get_root level_of get_latest_signed_block_slot latest
    max_by_key max_from file_path join stored_key key_bytes encode decode digit value byte_of print
    put_bytes put_items put_block put_attestation put_root
both_signed_example =
    both_signed hex_world serde_world tree_world bls_world serde_total pk_hex state fresh refl refl
      (block_at 5) other_block (proposal 5) (proposal 5) (1, 7) disk refl refl (omega arith)
      (omega arith) refl (λ path. refl) refl refl refl
