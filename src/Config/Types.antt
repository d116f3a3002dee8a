-- ===== src/Config/Types.antt =====
-- portable-core/starknet_transaction_prover/src/server/config.rs and config.rs: the types.
use snip36_prover_web.Common.{ℕ, String, Option, none, some, List, Bool, Result, ok, err}
use snip36_prover_web.Proofs.Types.{ContractAddress}
use snip36_prover_web.Config.Cors.{ConfigError}

pub data TransportMode : Type 0 where
  http : TransportMode
  https : String → String → TransportMode

-- `TransportMode::new`
unfoldable pub transport_mode : Option String → Option String → Result ConfigError TransportMode
transport_mode none none = ok http
transport_mode (some cert) (some key) = ok (https cert key)
transport_mode (some cert) none =
    err (ConfigError.incomplete_tls_config "tls_cert_file is set but tls_key_file is missing")
transport_mode none (some key) =
    err (ConfigError.incomplete_tls_config "tls_key_file is set but tls_cert_file is missing")

-- `C` is starknet_api's `ChainId`, `I` the standard library's `IpAddr`, `B` the `BouncerConfig`.
pub record RawServiceConfig (C I : Type 0) : Type 0 where
  pub rpc_node_url : String
  pub chain_id : C
  pub validate_zero_fee_fields : Bool
  pub strk_fee_token_address : Option ContractAddress
  pub compiled_class_cache_size : ℕ
  pub prefetch_state : Bool
  pub use_latest_versioned_constants : Bool
  pub ip : I
  pub port : ℕ
  pub max_concurrent_requests : ℕ
  pub max_connections : ℕ
  pub cors_allow_origin : List String
  pub tls_cert_file : Option String
  pub tls_key_file : Option String

-- `ProverConfig` with the two configurations inside it that are set from the flat one.
pub record ProverConfig (C B : Type 0) : Type 0 where
  pub contract_cache_size : ℕ
  pub chain_id : C
  pub rpc_node_url : String
  pub prefetch_state : Bool
  pub bouncer_config : B
  pub use_latest_versioned_constants : Bool
  pub strk_fee_token_address : Option ContractAddress
  pub validate_zero_fee_fields : Bool

pub record ServiceConfig (C I B : Type 0) : Type 0 where
  pub prover_config : ProverConfig C B
  pub ip : I
  pub port : ℕ
  pub max_concurrent_requests : ℕ
  pub max_connections : ℕ
  pub cors_allow_origin : List String
  pub transport : TransportMode

pub record CliArgs : Type 0 where
  pub config_file : Option String
  pub rpc_url : Option String
  pub chain_id : Option String
  pub port : Option ℕ
  pub ip : Option String
  pub max_concurrent_requests : Option ℕ
  pub max_connections : Option ℕ
  pub tls_cert_file : Option String
  pub tls_key_file : Option String
  pub strk_fee_token_address : Option String
  pub prefetch_state : Option Bool
  pub use_latest_versioned_constants : Option Bool
  pub skip_fee_field_validation : Bool
  pub no_cors : Bool
  pub cors_allow_origin : List String
  pub compiled_class_cache_size : Option ℕ
  pub bouncer_config_override : Option String
