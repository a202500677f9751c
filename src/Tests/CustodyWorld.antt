-- ===== src/Tests/CustodyWorld.antt =====
-- A guardian with one key, services that agree, and a payload for it.
use validator_guardian.Prelude.{
  ℕ, zero, suc, ◌<◌, arith, ◌≡◌, refl, subst, Bool, true, false, Option, none, some, [], ◌∷◌, ◌++◌,
  ◌==◌, length, replicate, take, if◌then◌else◌,
}
use validator_guardian.Text.{Bytes, Text, text_eq}
use validator_guardian.Disk.{Disk, join}
use validator_guardian.Constants.{eth_keys_dir}
use validator_guardian.External.Hex.{IsBytes}
use validator_guardian.External.Secp.{Secp, IsSecp}
use validator_guardian.External.Ssz.{Ssz, IsSsz}
use validator_guardian.External.Ethers.{Ethers}
use validator_guardian.External.Session.{Agent, Registry}
use validator_guardian.Enclave.Payload.{BlsKeygenPayload}
use validator_guardian.Enclave.Guardian.{ValidateCustodyRequest}
use validator_guardian.Tests.HexWorld.{encode}
use validator_guardian.Tests.World.{pubkey, fill, pad}

-- There are two keys; a secret key is its public key.
abbrev pub byte : Bool → ℕ
byte true = 1
byte false = 0

abbrev pub key_of : Bytes → Option Bool
key_of [] = none
key_of (b ∷ rest) = some (b == 1)

pub key_of-byte : (k : Bool) (rest : Bytes) → key_of (byte k ∷ rest) ≡ some k
key_of-byte true rest = refl
key_of-byte false rest = refl

pub byte-bound : (k : Bool) → byte k < 256
byte-bound true = omega arith
byte-bound false = omega arith

pub zeros-IsBytes : (n : ℕ) → IsBytes (replicate n 0)
zeros-IsBytes zero = tt
zeros-IsBytes (suc n) = (omega arith, zeros-IsBytes n)

-- An envelope begins with the byte of its recipient.
abbrev seal : Bytes → Bytes → Option Bytes
seal [] message = none
seal (k ∷ rest) message = some (k ∷ message)

abbrev open_with : Bytes → Bytes → Option Bytes
open_with (k ∷ rest) (b ∷ message) = if k == b then some message else none
open_with _ _ = none

abbrev pub secp_world : Secp
secp_world = record {
  SecretKey = Bool;
  PublicKey = Bool;
  Signature = Bytes;
  Message = Bytes;
  generate_keypair = λ entropy. (entropy == 1, entropy == 1);
  serialize_secret_key = λ k. byte k ∷ replicate 31 0;
  serialize = λ k. byte k ∷ replicate 64 0;
  serialize_compressed = λ k. byte k ∷ replicate 32 0;
  parse = key_of;
  parse_compressed = key_of;
  parse_secret_key = key_of;
  parse_message = λ m. some m;
  parse_signature = λ s. some s;
  sign = λ m k. byte k ∷ m;
  verify = λ m s k. text_eq s (byte k ∷ m);
  encrypt = λ k m entropy. seal k m;
  decrypt = open_with;
  keccak256 = λ m. take 32 (m ++ replicate 32 0);
}

pub secp_world-IsSecp : IsSecp secp_world
secp_world-IsSecp = record {
  parse-serialize = λ k. key_of-byte k (replicate 64 0);
  parse_compressed-serialize_compressed = λ k. key_of-byte k (replicate 32 0);
  parse-serialize_secret_key = λ k. key_of-byte k (replicate 31 0);
  length-serialize = λ k. refl;
  length-serialize_compressed = λ k. refl;
  serialize-IsBytes = λ k. (byte-bound k, zeros-IsBytes 64);
  serialize_compressed-IsBytes = λ k. (byte-bound k, zeros-IsBytes 32);
  serialize_secret_key-IsBytes = λ k. (byte-bound k, zeros-IsBytes 31);
}

abbrev pub ssz_world : Ssz
ssz_world = record { fixed_vector = λ n b. take n (b ++ replicate n 0) }

-- A wallet is the length of its key's text, and so is its address.
abbrev first_of : Bytes → Option ℕ
first_of [] = none
first_of (b ∷ rest) = some b

abbrev pub ethers_world : Ethers
ethers_world = record {
  Address = ℕ;
  Wallet = ℕ;
  WalletSignature = Bytes;
  parse_address = λ t. some (length t);
  same_address = λ a b. a == b;
  encode_tokens = λ tokens. length tokens ∷ [];
  parse_wallet = λ t. some (length t);
  wallet_address = λ w. w;
  sign_message = λ w m. some (w ∷ m);
  signature_to_string = λ s. encode s;
  recover = λ s m. first_of s;
}

abbrev pub registry_world : Registry
registry_world = record {
  RegistryAddress = ℕ;
  rpc_url = some [];
  registry_address = some [];
  parse_registry_address = λ t. some (length t);
  parse_identity = λ t. none;
  verify_session_signature = λ url at id key message sig. some true;
  workload_of = λ url at id. some (replicate 32 9);
}

abbrev pub message_root : Bytes
message_root = pad (0 ∷ pubkey)

abbrev pub sealed : ℕ → ℕ → Text
sealed k s = encode (k ∷ s ∷ replicate 31 0)

-- The first share is for the other guardian, and the second for this one.
abbrev pub payload : BlsKeygenPayload
payload = record {
  bls_pub_key_set = encode (1 ∷ 7 ∷ []);
  bls_pub_key = encode pubkey;
  signature = encode (fill (7 ∷ message_root));
  deposit_data_root = encode (pad (0 ∷ fill (7 ∷ message_root)));
  bls_enc_priv_key_shares = sealed 0 7 ∷ sealed 1 8 ∷ [];
  session_id = encode (replicate 32 5);
  attestation_signature = encode (6 ∷ []);
  session_public_key = encode (4 ∷ []);
  guardian_eth_pub_keys = encode (0 ∷ replicate 64 0) ∷ encode (1 ∷ replicate 64 0) ∷ [];
  withdrawal_credentials = encode (replicate 32 2);
  fork_version = 0 ∷ 0 ∷ 0 ∷ 0 ∷ [];
}

abbrev pub request : ValidateCustodyRequest secp_world
request = record {
  keygen_payload = payload;
  guardian_enclave_public_key = true;
  workload_id = encode (replicate 32 9);
  verify_session = true;
  validator_index = 3;
}

abbrev pub guardian_disk : Disk
guardian_disk = record {
  files = (join eth_keys_dir (encode (1 ∷ replicate 32 0)), encode (1 ∷ replicate 31 0)) ∷ [];
  dirs = [];
  denied = λ p. false;
}

abbrev pub agent_world : Agent
agent_world = record {
  is_stub = false;
  sign_with_session = λ message. none;
  default_identity = record { type_id = 0; key = [] };
  identity_key_to_string = λ key. key;
}

-- the agent of local tests
abbrev pub stub_world : Agent
stub_world = record agent_world { is_stub = true }

take-append_length : (b c : Bytes) → take (length b) (b ++ c) ≡ b
take-append_length [] c = refl
take-append_length (x ∷ b) c = rw (take-append_length b c)

pub ssz_world-IsSsz : IsSsz ssz_world
ssz_world-IsSsz = record {
  fixed_vector-eq = λ n b h.
      subst (λ k. take k (b ++ replicate k 0) ≡ b) h
        (take-append_length b (replicate (length b) 0));
}
