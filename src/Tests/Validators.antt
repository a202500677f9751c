-- ===== src/Tests/Validators.antt =====
-- A validator that starts with no files, generates a key for two guardians and votes with it.
use validator_guardian.Prelude.{true, false, [], ◌∷◌, ◌++◌, replicate, List}
use validator_guardian.Disk.{Disk}
use validator_guardian.Outcome.{Outcome}
use validator_guardian.Enclave.Shared.History.{Signed, IsSafe}
use validator_guardian.Enclave.Validator.{AttestFreshBlsKeyPayload, threshold_below}
use validator_guardian.Server.Life.{Life}
use validator_guardian.Server.Validator.{Call, Answer, keygen, secure_sign_bls, serve}
use validator_guardian.Server.Validator.Life.{ValidatorLife, call_logged, ValidatorLife-IsSafe}
use validator_guardian.Tests.HexWorld.{hex_world, hex_world-IsHex, hex_world-IsHexText}
use validator_guardian.Tests.SerdeWorld.{serde_world, serde_world-IsSerde}
use validator_guardian.Tests.World.{tree_world, bls_world, bls_world-IsBlsKeys, state, vote_from}
use validator_guardian.Tests.CustodyWorld.{secp_world, ssz_world, agent_world}
use validator_guardian.Tests.Server.{
  empty_disk, empty_disk-WellNamed, empty_disk-DrawsFresh, pk_hex,
}

abbrev payload : AttestFreshBlsKeyPayload secp_world
payload = record {
  guardian_pubkeys = false ∷ true ∷ [];
  withdrawal_credentials = replicate 32 2;
  threshold = 2;
  fork_version = replicate 4 0;
  do_remote_attestation = false;
}

serve_at : Call secp_world → Disk → Outcome Answer × Disk
serve_at call disk =
    serve hex_world ssz_world serde_world tree_world secp_world bls_world agent_world state call
      disk

abbrev generated : Outcome Answer × Disk
generated = serve_at (keygen (λ i. 9) payload) empty_disk

abbrev voted : Outcome Answer × Disk
voted = serve_at (secure_sign_bls pk_hex (vote_from 2 3)) generated.1

abbrev log : List Signed
log =
    call_logged (keygen (λ i. 9) payload) generated.0
    ++ (call_logged {secp = secp_world} (secure_sign_bls pk_hex (vote_from 2 3)) voted.0 ++ [])

life :
    ValidatorLife hex_world ssz_world serde_world tree_world secp_world bls_world agent_world state
      empty_disk log voted.1
unfolding serve_at
life =
    Life.next (keygen (λ i. 9) payload) (empty_disk-DrawsFresh (threshold_below 2) 9)
      (Life.next (secure_sign_bls pk_hex (vote_from 2 3)) tt Life.here)

ValidatorLife-IsSafe_example : IsSafe log
ValidatorLife-IsSafe_example =
    ValidatorLife-IsSafe hex_world ssz_world serde_world tree_world secp_world bls_world agent_world
      state hex_world-IsHex hex_world-IsHexText bls_world-IsBlsKeys serde_world-IsSerde
      empty_disk-WellNamed life
