-- ===== src/Tests/World.antt =====
-- Small hashes and keys, a disk with one validator, and requests for it.
use validator_guardian.Prelude.{
  ℕ, ◌+◌, ◌%◌, ◌≡◌, refl, false, Option, none, some, List, [], ◌∷◌, ◌++◌, arith, length, take,
  replicate, length-take, length-append, Bool-cases, inl, inr,
}
use validator_guardian.Text.{Bytes, Text, text_eq, text_eq_iff}
use validator_guardian.Disk.{Disk, lookup, join}
use validator_guardian.Constants.{bls_keys_dir}
use validator_guardian.External.TreeHash.{TreeHash, IsTreeHash}
use validator_guardian.External.Bls.{Bls, IsBls, IsBlsKeys}
use validator_guardian.Eth2.Types.{ForkInfo}
use validator_guardian.Eth2.SlashProtection.{SlashingProtectionData}
use validator_guardian.Eth2.SlashProtection.Storage.{file_path}
use validator_guardian.Eth2.Signing.{
  BlsSignMsg, block_v2_upper, attestation, randao_reveal, aggregation_slot,
}
use validator_guardian.Enclave.Shared.{AppState}
use validator_guardian.Enclave.Shared.Records.{recorded, path_of}
use validator_guardian.Enclave.Shared.Update.{WellNamed}
use validator_guardian.Tests.HexWorld.{hex_world, encode, digit}
use validator_guardian.Tests.SerdeWorld.{
  serde_world, text_of, parse, parse_text, get_bytes, get_items, get_block,
}

abbrev pub pad : List ℕ → List ℕ
pad t = take 32 (t ++ replicate 32 0)

length-pad : (t : List ℕ) → length (pad t) ≡ 32
length-pad t = omega (arith, length-take 32 (t ++ replicate 32 0), length-append t (replicate 32 0))

-- The hash of signing data leaves the domain out, so that it has collisions.
abbrev pub tree_world : TreeHash
tree_world = record {
  hash_signing_data = λ d. pad d.object_root;
  hash_fork_data = λ f. pad f.current_version;
  hash_block = λ b. pad (b.slot ∷ b.state_root);
  hash_block_header = λ b. pad (b.slot ∷ b.state_root);
  hash_attestation_data = λ a. pad (a.source.epoch ∷ a.target.epoch ∷ []);
  hash_u64 = λ n. pad (n ∷ []);
  hash_bytes32 = λ r. r;
  hash_aggregate_and_proof = λ a. pad (a.aggregator_index ∷ []);
  hash_deposit_message = λ d. pad (d.amount % 256 ∷ d.pubkey);
  hash_deposit_data = λ d. pad (d.amount % 256 ∷ d.signature);
  hash_voluntary_exit = λ v. pad (v.epoch ∷ v.validator_index ∷ []);
  hash_selection_data = λ s. pad (s.slot ∷ []);
  hash_contribution_and_proof = λ c. pad (c.aggregator_index ∷ []);
  hash_registration = λ r. pad (r.gas_limit ∷ []);
}

pub tree_world-IsTreeHash : IsTreeHash tree_world
tree_world-IsTreeHash = record { length-hash_fork_data = λ f. length-pad f.current_version }

-- A key set is its threshold and one number, which is its public key too; share i adds i to it. A
-- signature is filled up to 96 bytes.
abbrev pub pair_of : Bytes → Option (ℕ × ℕ)
pair_of (t ∷ s ∷ []) = some (t, s)
pair_of (s ∷ rest) = some (0, s)
pair_of [] = none

abbrev pub single_of : Bytes → Option ℕ
single_of (s ∷ rest) = some s
single_of [] = none

abbrev pub fill : List ℕ → List ℕ
fill t = take 96 (t ++ replicate 96 0)

abbrev pub bls_world : Bls
bls_world = record {
  SecretKeySet = ℕ × ℕ;
  PublicKeySet = ℕ × ℕ;
  SecretKey = ℕ;
  PublicKey = ℕ;
  Signature = List ℕ;
  SecretKeyShare = ℕ;
  PublicKeyShare = ℕ;
  SignatureShare = List ℕ;
  random = λ t e. some (t, e);
  threshold = λ k. k.0;
  public_keys = λ k. k;
  secret_key = λ k. k.1;
  secret_key_share = λ k i. k.1 + i;
  secret_key_to_bytes = λ s. s ∷ replicate 31 0;
  secret_key_set_to_bytes = λ k. k.0 ∷ k.1 ∷ [];
  secret_key_set_from_bytes = pair_of;
  public_key = λ k. k.1;
  public_key_share = λ k i. k.1 + i;
  public_key_set_threshold = λ k. k.0;
  public_key_set_to_bytes = λ k. k.0 ∷ k.1 ∷ [];
  public_key_set_from_bytes = pair_of;
  public_key_to_bytes = λ k. replicate 48 k;
  public_key_to_hex = λ k. encode (replicate 48 k);
  sign = λ k m. fill (k ∷ m);
  verify = λ k s m. text_eq s (fill (k ∷ m));
  signature_to_bytes = λ s. s;
  signature_from_bytes = λ b. some b;
  secret_key_share_to_bytes = λ s. s % 256 ∷ replicate 31 0;
  secret_key_share_from_bytes = single_of;
  derive_public_key_share = λ s. s % 256;
  public_key_share_to_bytes = λ s. s ∷ [];
  sign_share = λ s m. fill (s % 256 ∷ m);
  signature_share_to_bytes = λ s. s;
  verify_share = λ k s m. text_eq s (fill (k ∷ m));
  combine_signatures = λ k l. none;
}

pub bls_world-IsBls : IsBls bls_world
bls_world-IsBls = record {
  secret_key_share_to_bytes-IsBytes = λ s. (omega arith, ground arith);
  share_key_set = λ s. (0, s % 256);
  secret_key_set_from_bytes-eq = λ s. refl;
  sign-share_key_set = λ s m. refl;
}

pub bls_world-IsBlsKeys : IsBlsKeys hex_world bls_world
bls_world-IsBlsKeys = record { from_bytes-to_bytes = λ k. refl; public_key_to_hex-eq = λ p. refl }

-- The validator with key 7.
abbrev pub pubkey : Bytes
pubkey = replicate 48 7

abbrev pub pk_hex : Text
pk_hex = b'0' ∷ b'x' ∷ encode pubkey

abbrev pub fresh : SlashingProtectionData
fresh = record { pubkey = pubkey; signed_blocks = []; signed_attestations = [] }

abbrev pub slash_path : Text
slash_path = file_path hex_world fresh

abbrev pub key_path : Text
key_path = join bls_keys_dir (encode pubkey)

abbrev pub disk : Disk
disk = record {
  files = (slash_path, text_of fresh) ∷ (key_path, encode (1 ∷ 7 ∷ [])) ∷ [];
  dirs = [];
  denied = λ p. false;
}

no_record : parse (encode (1 ∷ 7 ∷ [])) ≡ none
unfolding parse get_bytes get_items get_block encode digit
no_record = refl

pub disk-WellNamed : WellNamed hex_world serde_world disk.files
unfolding recorded lookup
disk-WellNamed k d h = elim (Bool-cases (text_eq slash_path (path_of k))) [
  | inl same ↦
      let e : fresh ≡ d = ground (arith, parse_text fresh) in
      rw (← e) ((text_eq_iff slash_path (path_of k)).0 same)
  | inr other ↦ absurd (ground (arith, no_record))
]

abbrev pub fork_info : ForkInfo
fork_info = record {
  fork = record {
    previous_version = 0 ∷ 0 ∷ 0 ∷ 1 ∷ [];
    current_version = 0 ∷ 0 ∷ 0 ∷ 2 ∷ [];
    epoch = 1;
  };
  genesis_validators_root = replicate 32 0;
}

abbrev pub state : AppState
state = record { genesis_fork_version = 0 ∷ 0 ∷ 0 ∷ 0 ∷ [] }

abbrev pub block_at : ℕ → BlsSignMsg
block_at slot = block_v2_upper (record {
  fork_info = fork_info;
  signing_root = none;
  beacon_block = record {
    version = [];
    block_header = record {
      slot = slot;
      proposer_index = 3;
      parent_root = [];
      state_root = [];
      body_root = [];
    };
  };
})

abbrev pub vote_from : ℕ → ℕ → BlsSignMsg
vote_from source target = attestation (record {
  fork_info = fork_info;
  signing_root = none;
  attestation = record {
    slot = target;
    index = 0;
    beacon_block_root = [];
    source = record { epoch = source; root = [] };
    target = record { epoch = target; root = [] };
  };
})

abbrev pub randao_at : ℕ → BlsSignMsg
randao_at epoch = randao_reveal (record {
  fork_info = fork_info;
  signing_root = none;
  randao_reveal = record { epoch = epoch };
})

abbrev pub selection_at : ℕ → BlsSignMsg
selection_at slot = aggregation_slot (record {
  fork_info = fork_info;
  signing_root = none;
  aggregation_slot = record { slot = slot };
})
