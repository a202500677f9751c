-- ===== src/Tests/Deposits.antt =====
-- The deposit endpoint of the secure signer in the concrete world.
use validator_guardian.Enclave.SecureSigner.Deposits.{Answers, validator_deposit_handler_cases}
use validator_guardian.Tests.HexWorld.{hex_world}
use validator_guardian.Tests.World.{tree_world, bls_world, disk}
use validator_guardian.Tests.Signing.{deposit_request}

validator_deposit_handler_cases_example :
    Answers hex_world tree_world bls_world deposit_request disk
validator_deposit_handler_cases_example =
    validator_deposit_handler_cases hex_world tree_world bls_world deposit_request disk
