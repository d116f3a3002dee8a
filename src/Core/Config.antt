-- ===== src/Core/Config.antt =====
-- crates/snip36-core/src/config.rs: `Config`. An environment gives the value of a variable that is
-- set to a text.
use snip36_prover_web.Common.{
  ℕ, ◌-◌, Bool, String, Option, none, some, List, ◌++◌, length, take, replicate, ltb, ◌==◌,
  string_eq, if◌then◌else◌, Result, ok, err, ◌>>=◌, ok_or,
}
use snip36_prover_web.Common.Text.{◌+++◌, decimal, as_bytes}
use snip36_prover_web.Proofs.Types.{Felt}

pub data ConfigError : Type 0 where
  missing : String → ConfigError
  invalid_chain_id : String → ConfigError

pub record Config : Type 0 where
  pub rpc_url : String
  pub account_address : String
  pub private_key : String
  pub chain_id : String
  pub gateway_url : Option String
  pub project_dir : String
  pub output_dir : String
  pub deps_dir : String

abbrev pub Environment : Type 0
Environment = String → Option String

-- The process: its variables, its files, and the dotenvy crate, which gives the environment that a
-- file leaves.
pub record Process : Type 0 where
  pub environment : Environment
  pub exists : String → Bool
  pub from_path : String → Environment → Environment
  pub dotenv : Environment → Environment
  pub current_dir : Option String
  pub join : String → String → String

unfoldable pub load_env : Process → Option String → Environment
load_env p none = p.dotenv p.environment
load_env p (some path) = if p.exists path then p.from_path path p.environment else p.environment

-- `or_else`, `unwrap_or_else` and `filter`
abbrev pub first_of : Option String → Option String → Option String
first_of none other = other
first_of (some a) other = some a

abbrev pub unwrap_or : Option String → String → String
unwrap_or none other = other
unwrap_or (some a) other = a

abbrev pub nonempty : Option String → Option String
nonempty none = none
nonempty (some s) = if s == "" then none else some s

-- The struct that the function builds, with the defaults of the other variables.
abbrev pub config_of : Process → Environment → String → String → String → Config
config_of p var rpc_url account_address private_key =
    let project_dir = unwrap_or (var "SNIP36_PROJECT_DIR") (unwrap_or p.current_dir ".") in
    record {
      rpc_url = rpc_url;
      account_address = account_address;
      private_key = private_key;
      chain_id = unwrap_or (var "STARKNET_CHAIN_ID") "SN_SEPOLIA";
      gateway_url = nonempty (var "STARKNET_GATEWAY_URL");
      project_dir = project_dir;
      output_dir = p.join project_dir "output";
      deps_dir = p.join project_dir "deps";
    }

unfoldable pub from_env : Process → Option String → Result ConfigError Config
unfolding load_env
from_env p env_file = do
  let var = load_env p env_file
  rpc_url ← ok_or (var "STARKNET_RPC_URL") (ConfigError.missing "STARKNET_RPC_URL")
  account_address ←
      ok_or (first_of (var "STARKNET_ACCOUNT_ADDRESS") (var "MASTER_ACCOUNT_ADDRESS"))
        (ConfigError.missing "STARKNET_ACCOUNT_ADDRESS")
  private_key ←
      ok_or (first_of (var "STARKNET_PRIVATE_KEY") (var "MASTER_PRIVATE_KEY"))
        (ConfigError.missing "STARKNET_PRIVATE_KEY")
  ok (config_of p var rpc_url account_address private_key)

-- The buffer of 32 bytes that ends in the bytes of the chain id.
unfoldable pub right_aligned : List ℕ → List ℕ
right_aligned bytes = take (32 - length bytes) (replicate 32 0) ++ bytes

-- `from_bytes_be` is the felt crate's.
unfoldable pub chain_id_felt : (List ℕ → Felt) → Config → Result ConfigError Felt
unfolding as_bytes right_aligned decimal
chain_id_felt from_bytes_be config =
    let bytes = as_bytes config.chain_id in
    if ltb 31 (length bytes)
    then err (
        ConfigError.invalid_chain_id (
          "chain_id '"
          +++ config.chain_id
          +++ "' is "
          +++ decimal (length bytes)
          +++ " bytes, max is 31"))
    else ok (from_bytes_be (right_aligned bytes))
