-- ===== src/Examples/Loading.antt =====
-- A process with three variables, two chain ids, and felts of 32 bytes.
use snip36_prover_web.Common.{
  ℕ, zero, suc, ◌*◌, ◌/◌, ◌%◌, ◌^◌, ◌<◌, ◌≡◌, ◌↔◌, ◌⊎◌, refl, false, String, none, some, List, [],
  ◌∷◌, ◌++◌, ◌+◌, ap, ◌∙◌, All-append, length-append, length, ok, arith, ◌==◌, string_eq,
  if◌then◌else◌,
}
use snip36_prover_web.Common.Text.{◌+++◌, decimal, as_bytes}
use snip36_prover_web.Common.Bits.{be_value}
use snip36_prover_web.Proofs.Types.{Felt}
use snip36_prover_web.Signing.Crates.{prime}
use snip36_prover_web.Core.Config.{Config, Process, Environment, load_env, from_env, chain_id_felt}
use snip36_prover_web.Core.ChainId.{AreBytes, chain_id_felt-apart}
use snip36_prover_web.Core.Encoding.{Encoders, cairo_serde_to_base64}
use snip36_prover_web.Core.Words.{words, HasBytes, be_from-append, cairo_serde_to_base64_lem}
use snip36_prover_web.Core.Loading.{IsGiven, from_env_iff}

abbrev three_set : Environment
three_set name =
    if name == "STARKNET_RPC_URL"
    then some "http://node"
    else if name == "MASTER_ACCOUNT_ADDRESS"
    then some "0x1"
    else if name == "STARKNET_PRIVATE_KEY"
    then some "0x2"
    else none

abbrev process : Process
process = record {
  environment = three_set;
  exists = λ path. false;
  from_path = λ path env. env;
  dotenv = λ env. env;
  current_dir = some "/work";
  join = λ a b. a +++ "/" +++ b;
}

from_env_iff_example : ((config : Config) × (from_env process none ≡ ok config)) ↔ (
    IsGiven (load_env process none) "STARKNET_RPC_URL"
    × (IsGiven (load_env process none) "STARKNET_ACCOUNT_ADDRESS"
        ⊎ IsGiven (load_env process none) "MASTER_ACCOUNT_ADDRESS")
    × (IsGiven (load_env process none) "STARKNET_PRIVATE_KEY"
        ⊎ IsGiven (load_env process none) "MASTER_PRIVATE_KEY"))
from_env_iff_example = from_env_iff process none

abbrev on_chain : String → Config
on_chain id = record {
  rpc_url = "";
  account_address = "";
  private_key = "";
  chain_id = id;
  gateway_url = none;
  project_dir = ".";
  output_dir = "./output";
  deps_dir = "./deps";
}

abbrev from_be : List ℕ → Felt
from_be bytes = be_value bytes % prime

chain_id_felt-apart_example :
    (r : Felt) × (s : Felt) × (chain_id_felt from_be (on_chain "SN_MAIN") ≡ ok r)
    × (chain_id_felt from_be (on_chain "SN_SEPOLIA") ≡ ok s)
    × ((r ≡ s) ↔ (as_bytes "SN_MAIN" ≡ as_bytes "SN_SEPOLIA"))
unfolding as_bytes
chain_id_felt-apart_example =
    chain_id_felt-apart from_be (on_chain "SN_MAIN") (on_chain "SN_SEPOLIA") (λ buffer h. refl)
      (omega arith) (omega arith) (ground arith) (ground arith) (ground arith) (ground arith)

abbrev bytes_of : ℕ → Felt → List ℕ
bytes_of zero f = []
bytes_of (suc n) f = bytes_of n (f / 256) ++ f % 256 ∷ []

length-bytes_of : (n : ℕ) (f : Felt) → length (bytes_of n f) ≡ n
length-bytes_of zero f = refl
length-bytes_of (suc n) f =
    length-append (bytes_of n (f / 256)) (f % 256 ∷ []) ∙ omega (arith, length-bytes_of n (f / 256))

bytes_of-AreBytes : (n : ℕ) (f : Felt) → AreBytes (bytes_of n f)
bytes_of-AreBytes zero f = tt
bytes_of-AreBytes (suc n) f =
    All-append (λ b. b < 256) (bytes_of n (f / 256)) (f % 256 ∷ []) (bytes_of-AreBytes n (f / 256))
      (omega arith, tt)

be_value-bytes_of : (n : ℕ) (f : Felt) → f < 256 ^ n → be_value (bytes_of n f) ≡ f
be_value-bytes_of zero f h = omega (arith, h)
be_value-bytes_of (suc n) f h =
    let p : 256 ^ suc n ≡ 256 * 256 ^ n = omega arith in
    be_from-append (bytes_of n (f / 256)) (f % 256 ∷ []) 0
    ∙ ap (λ t. t * 256 + f % 256) (be_value-bytes_of n (f / 256) (omega (arith, h, p)))
    ∙ omega arith

abbrev encoders : Encoders
encoders = record {
  from_hex = λ text. if text == "0x100000001" then ok 4294967297 else ok 255;
  to_bytes_be = bytes_of 32;
  encode = λ bytes. decimal (be_value bytes);
}

encoders-HasBytes : HasBytes (bytes_of 32)
encoders-HasBytes = record {
  length_lem = length-bytes_of 32;
  bytes = bytes_of-AreBytes 32;
  value = λ f h. be_value-bytes_of 32 f (omega (arith, h));
}

cairo_serde_to_base64_lem_example :
    (bytes : List ℕ) × (cairo_serde_to_base64 encoders ("0xff" ∷ "0x100000001" ∷ [])
      ≡ ok (encoders.encode bytes))
    × (length bytes ≡ 8)
    × (words bytes ≡ 255 ∷ 1 ∷ [])
cairo_serde_to_base64_lem_example =
    cairo_serde_to_base64_lem encoders encoders-HasBytes ("0xff" ∷ "0x100000001" ∷ [])
      (255 ∷ 4294967297 ∷ []) refl (omega arith, (omega arith, tt))
