-- ===== src/Server/Guardian.antt =====
-- src/bin/guardian.rs: the guardian.
pub mod Custody
pub mod Exits
use validator_guardian.Prelude.{ℕ, List, [], ◌∷◌}
use validator_guardian.Disk.{Disk, Exec}
use validator_guardian.External.Hex.{Hex}
use validator_guardian.External.Ssz.{Ssz}
use validator_guardian.External.TreeHash.{TreeHash}
use validator_guardian.External.Bls.{Bls}
use validator_guardian.External.Secp.{Secp}
use validator_guardian.External.Ethers.{Ethers}
use validator_guardian.External.Session.{Agent, Registry}
use validator_guardian.Enclave.Types.{Response}
use validator_guardian.Enclave.Keys.{KeyGenResponse, ListKeysResponse, list_eth_keys_handler}
use validator_guardian.Enclave.Guardian.{
  ValidateCustodyRequest, ValidateCustodyResponse, validate_custody_handler,
}
use validator_guardian.Enclave.Exit.{
  SignExitRequest, SignExitResponse, KeygenWithBlockhashRequest, sign_exit_handler,
  attest_fresh_eth_key_handler,
}
use validator_guardian.Server.Quiet.{answered}
use validator_guardian.Server.SecureSigner.{health_handler}

-- A request that the router has matched, with the entropy that it draws.
pub data Call (secp : Secp) : Type 0 where
  upcheck : Call secp
  keygen : ℕ → KeygenWithBlockhashRequest → Call secp
  list_eth_keys : Call secp
  validate_custody : ValidateCustodyRequest secp → Call secp
  sign_exit : SignExitRequest → Call secp

pub data Answer : Type 0 where
  health : Response Unit → Answer
  generated : Response KeyGenResponse → Answer
  listed : Response ListKeysResponse → Answer
  validated : Response ValidateCustodyResponse → Answer
  exited : Response SignExitResponse → Answer

module _ (hex : Hex) (ssz : Ssz) (tree : TreeHash) (secp : Secp) (bls : Bls) (ethers : Ethers)
    (agent : Agent) (registry : Registry) where
  -- the routes with their handlers
  unfoldable pub serve : Call secp → Exec Answer
  serve upcheck = answered health health_handler
  serve (keygen entropy request) =
      answered generated (attest_fresh_eth_key_handler hex secp ethers agent entropy request)
  serve list_eth_keys = answered listed list_eth_keys_handler
  serve (validate_custody request) =
      answered validated (validate_custody_handler hex ssz tree secp bls ethers registry request)
  serve (sign_exit request) = answered exited (sign_exit_handler hex tree bls request)

  -- the disk after calls that are answered one after the other
  unfoldable pub after : List (Call secp) → Disk → Disk
  after [] disk = disk
  after (call ∷ calls) disk = after calls (serve call disk).1
