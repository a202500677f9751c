-- ===== src/Server/SecureSigner/Life.antt =====
-- src/bin/secure-signer.rs: everything that a secure signer signs over any sequence of calls.
use validator_guardian.Prelude.{◌≡◌, sym, ap, inl, inr, List, [], arith}
use validator_guardian.Text.{Text}
use validator_guardian.Outcome.{Outcome, ok, Outcome-cases}
use validator_guardian.Disk.{Disk}
use validator_guardian.External.Hex.{Hex, IsHex, IsHexText}
use validator_guardian.External.Ssz.{Ssz}
use validator_guardian.External.TreeHash.{TreeHash}
use validator_guardian.External.Bls.{Bls, IsBlsKeys}
use validator_guardian.External.Secp.{Secp}
use validator_guardian.External.Session.{Agent}
use validator_guardian.Eth2.Signing.{BlsSignMsg}
use validator_guardian.Eth2.SlashProtection.Storage.{Serde}
use validator_guardian.Enclave.Shared.{AppState, sign_validator_message}
use validator_guardian.Enclave.Shared.Records.{IsSerde}
use validator_guardian.Enclave.Shared.Update.{WellNamed}
use validator_guardian.Enclave.Shared.History.{Signed, IsSafe, logged, Step, request}
use validator_guardian.Enclave.Keys.{list_bls_keys_handler, list_eth_keys_handler}
use validator_guardian.Enclave.SecureSigner.{
  eth_keygen_handler, bls_keygen_handler, validator_deposit_handler,
}
use validator_guardian.Server.Quiet.{answered, answered_disk}
use validator_guardian.Server.Life.{quiet-Keeps, answered-Step, Life, Step-Keeps, Steps-IsSafe}
use validator_guardian.Server.Keeps.{Keeps, Keeps-refl}
use validator_guardian.Server.SecureSigner.{
  Call, upcheck, eth_keygen, bls_keygen, list_eth_keys, list_bls_keys, validator_deposit,
  secure_sign_bls, Answer, health, generated, listed, deposited, signed, health_handler, serve,
}
use validator_guardian.Server.Recording.{DrawsFresh}
use validator_guardian.Server.SecureSigner.Generation.{eth_keygen-Keeps, bls_keygen-Keeps}
use validator_guardian.Server.SecureSigner.Calls.{
  list_bls_keys_disk, list_eth_keys_disk, validator_deposit_disk,
}

-- the log entry of an answered call
unfoldable pub call_logged : Call → Outcome Answer → List Signed
call_logged (secure_sign_bls pk_hex req) (ok (signed resp)) = logged pk_hex req (ok resp)
call_logged _ _ = []

module _ (hex : Hex) (ssz : Ssz) (serde : Serde) (tree : TreeHash) (secp : Secp) (bls : Bls)
    (agent : Agent) (state : AppState) where
  -- Only the generation of a BLS key makes a record, and the record of the key that it draws is to
  -- have no file yet.
  abbrev pub IsFreshCall : Call → Disk → Type 0
  IsFreshCall (bls_keygen entropy) disk = DrawsFresh hex ssz serde bls 0 entropy disk
  IsFreshCall _ disk = Unit

  -- a sequence of calls of the secure signer and what is signed in it
  abbrev pub SignerLife : Disk → List Signed → Disk → Type 0
  SignerLife = Life (serve hex ssz serde tree secp bls agent state) call_logged IsFreshCall

  module _ (is_hex : IsHex hex) (is_text : IsHexText hex) (is_keys : IsBlsKeys hex bls)
      (is_serde : IsSerde serde) where
    sign-logged :
        (pk_hex : Text) (req : BlsSignMsg) (disk : Disk)
        → call_logged
            (secure_sign_bls pk_hex req)
            (answered signed (sign_validator_message hex serde tree bls pk_hex state req) disk).0
          ≡ logged pk_hex req (sign_validator_message hex serde tree bls pk_hex state req disk).0
    unfolding call_logged logged
    sign-logged pk_hex req disk =
        elim (Outcome-cases (sign_validator_message hex serde tree bls pk_hex state req disk).0) [
          | inl (r, e) ↦ ground (arith, e)
          | inr (inl (x, e)) ↦ ground (arith, e)
          | inr (inr e) ↦ ground (arith, e)
        ]

    call-Step :
        (call : Call) (disk : Disk)
        → WellNamed hex serde disk.files
        → IsFreshCall call disk
        → Step hex serde tree bls disk
            (call_logged call (serve hex ssz serde tree secp bls agent state call disk).0)
            (serve hex ssz serde tree secp bls agent state call disk).1
    unfolding serve call_logged health_handler
    call-Step upcheck disk named fresh =
        answered-Step hex serde tree bls health health_handler disk
          (Keeps-refl hex serde disk.files named)
    call-Step (eth_keygen entropy) disk named fresh =
        answered-Step hex serde tree bls generated (eth_keygen_handler hex secp agent entropy) disk
          (eth_keygen-Keeps hex serde is_hex is_text secp agent entropy disk named)
    call-Step (bls_keygen entropy) disk named fresh =
        answered-Step hex serde tree bls generated
          (bls_keygen_handler hex ssz serde bls agent entropy) disk
          (bls_keygen-Keeps hex serde ssz bls agent is_hex is_text is_keys is_serde entropy disk
            fresh named)
    call-Step list_eth_keys disk named fresh =
        answered-Step hex serde tree bls listed list_eth_keys_handler disk (
          quiet-Keeps hex serde tree bls disk (list_eth_keys_handler disk).1 named
            (list_eth_keys_disk disk))
    call-Step list_bls_keys disk named fresh =
        answered-Step hex serde tree bls listed list_bls_keys_handler disk (
          quiet-Keeps hex serde tree bls disk (list_bls_keys_handler disk).1 named
            (list_bls_keys_disk disk))
    call-Step (validator_deposit req) disk named fresh =
        answered-Step hex serde tree bls deposited (validator_deposit_handler hex tree bls req) disk
          (quiet-Keeps hex serde tree bls disk (validator_deposit_handler hex tree bls req disk).1
            named (validator_deposit_disk hex tree bls req disk))
    call-Step (secure_sign_bls pk_hex req) disk named fresh =
        let run = sign_validator_message hex serde tree bls pk_hex state req in
        request pk_hex state req (run disk).0
          (ap (λ d. ((run disk).0, d)) (sym (answered_disk signed run disk)))
          (sign-logged pk_hex req disk)

    -- Every call of the secure signer, failed ones included, leaves every record in the file of its
    -- own key and lets no record fall back, if a key that it generates is fresh.
    pub serve-Keeps :
        (call : Call) (disk : Disk)
        → WellNamed hex serde disk.files
        → IsFreshCall call disk
        → Keeps hex serde disk.files
            (serve hex ssz serde tree secp bls agent state call disk).1.files
    serve-Keeps call disk named fresh =
        Step-Keeps (serve hex ssz serde tree secp bls agent state) call_logged IsFreshCall hex serde
          tree bls is_serde call-Step call disk named fresh

    -- Over any sequence of calls of the secure signer that starts where every record stands in the
    -- file of its own key and in which the generated keys are fresh, no two signatures under one
    -- public key are a double proposal, a double vote or a surrounding vote.
    pub Life-IsSafe :
        {disk disk' : Disk} {log : List Signed}
        → WellNamed hex serde disk.files
        → SignerLife disk log disk'
        → IsSafe log
    Life-IsSafe named life =
        Steps-IsSafe (serve hex ssz serde tree secp bls agent state) call_logged IsFreshCall hex
          serde tree bls is_serde call-Step named life
