-- ===== src/Config/Args.antt =====
-- portable-core/starknet_transaction_prover/src/server/config.rs: `ServiceConfig::from_args`. The
-- source assigns a new value only where it differs from the old one, so that it can log the change;
-- assigning it always is the same.
use snip36_prover_web.Common.{
  String, Option, none, some, List, [], true, false, not, ◌&&◌, is_empty, nat_beq, ◌==◌, string_eq,
  if◌then◌else◌, Result, ok, ◌>>=◌, ◌>>◌, reject_if, map_err,
}
use snip36_prover_web.Common.Text.{◌+++◌}
use snip36_prover_web.Proofs.Types.{ContractAddress}
use snip36_prover_web.Config.Cors.{ConfigError, Url, normalize_cors_allow_origins}
use snip36_prover_web.Config.Types.{transport_mode, RawServiceConfig, ServiceConfig, CliArgs}

-- The file system and the parsers of the other crates, each with the text of its error.
pub record Platform (C I B : Type 0) : Type 0 where
  pub read_to_string : String → Result String String
  pub parse_config : String → Result String (RawServiceConfig C I)
  pub parse_bouncer_config : String → Result String B
  -- `resources/bouncer_config.json`, which the source expects to parse
  pub embedded_bouncer_config : B
  pub parse_ip : String → Result String I
  pub parse_address : String → Result String ContractAddress
  pub parse_url : String → Result String Url
  pub chain_id_from : String → C
  pub mainnet : C
  pub default_ip : I

abbrev pub or_else {ℓ} : {A : Type ℓ} → Option A → A → A
or_else none a = a
or_else (some b) a = b

-- An argument that is parsed before it overrides.
abbrev pub parse_override :
    {A : Type 0} → String → (String → Result String A) → Option String → A → Result ConfigError A
parse_override what parse none old = ok old
parse_override what parse (some text) old =
    map_err (λ e. ConfigError.invalid_argument ("Invalid " +++ what +++ ": " +++ e)) (parse text)

abbrev pub some_or : Option String → Option String → Option String
some_or none old = old
some_or (some new) old = some new

-- The origins that the arguments leave.
unfoldable pub override_origins : CliArgs → List String → List String
override_origins args old =
    if args.no_cors
    then []
    else if not (is_empty args.cors_allow_origin)
    then args.cors_allow_origin
    else old

module _ {C I B : Type 0} (p : Platform C I B) where
  -- `RawServiceConfig::default()`
  unfoldable pub default_config : RawServiceConfig C I
  default_config = record {
    rpc_node_url = "";
    chain_id = p.mainnet;
    validate_zero_fee_fields = true;
    strk_fee_token_address = none;
    compiled_class_cache_size = 600;
    prefetch_state = false;
    use_latest_versioned_constants = true;
    ip = p.default_ip;
    port = 3000;
    max_concurrent_requests = 2;
    max_connections = 10;
    cors_allow_origin = [];
    tls_cert_file = none;
    tls_key_file = none;
  }

  -- `read_to_string` and `from_str`, with the two messages about the file.
  abbrev load : {A : Type 0} → String → (String → Result String A) → String → Result ConfigError A
  load what parse path =
      map_err
        (λ e.
          ConfigError.config_file_error
            ("Failed to read " +++ what +++ " " +++ path +++ ": " +++ e))
        (p.read_to_string path)
      >>= λ contents.
          map_err
            (λ e.
              ConfigError.config_file_error
                ("Failed to parse " +++ what +++ " " +++ path +++ ": " +++ e))
            (parse contents)

  unfoldable pub base_config : Option String → Result ConfigError (RawServiceConfig C I)
  unfolding default_config
  base_config none = ok default_config
  base_config (some config_file) = load "config file" p.parse_config config_file

  abbrev pub override_chain : Option String → C → C
  override_chain none old = old
  override_chain (some text) old = p.chain_id_from text

  abbrev pub override_token :
      Option String → Option ContractAddress → Result ConfigError (Option ContractAddress)
  override_token none old = ok old
  override_token (some hex_str) old =
      map_err (λ e. ConfigError.invalid_argument ("Invalid strk_fee_token_address: " +++ e))
        (p.parse_address hex_str)
      >>= λ address. ok (some address)

  -- The overrides, in the source's order.
  unfoldable pub override :
      CliArgs → RawServiceConfig C I → Result ConfigError (RawServiceConfig C I)
  unfolding override_origins
  override args config = parse_override "IP address" p.parse_ip args.ip config.ip >>= λ ip.
      reject_if (args.no_cors && not (is_empty args.cors_allow_origin))
        (ConfigError.invalid_argument "--no-cors and --cors-allow-origin are mutually exclusive")
      >> (override_token args.strk_fee_token_address config.strk_fee_token_address >>= λ token.
          ok (record {
            rpc_node_url = or_else args.rpc_url config.rpc_node_url;
            chain_id = override_chain args.chain_id config.chain_id;
            validate_zero_fee_fields =
                if args.skip_fee_field_validation && config.validate_zero_fee_fields
                then false
                else config.validate_zero_fee_fields;
            strk_fee_token_address = token;
            compiled_class_cache_size =
                or_else args.compiled_class_cache_size config.compiled_class_cache_size;
            prefetch_state = or_else args.prefetch_state config.prefetch_state;
            use_latest_versioned_constants =
                or_else args.use_latest_versioned_constants config.use_latest_versioned_constants;
            ip = ip;
            port = or_else args.port config.port;
            max_concurrent_requests =
                or_else args.max_concurrent_requests config.max_concurrent_requests;
            max_connections = or_else args.max_connections config.max_connections;
            cors_allow_origin = override_origins args config.cors_allow_origin;
            tls_cert_file = some_or args.tls_cert_file config.tls_cert_file;
            tls_key_file = some_or args.tls_key_file config.tls_key_file;
          }))

  unfoldable pub load_bouncer_config : Option String → Result ConfigError B
  load_bouncer_config none = ok p.embedded_bouncer_config
  load_bouncer_config (some path) = load "bouncer config file" p.parse_bouncer_config path

  -- From the validation of the required fields to the nested configuration.
  unfoldable pub validate :
      Option String → RawServiceConfig C I → Result ConfigError (ServiceConfig C I B)
  unfolding transport_mode normalize_cors_allow_origins load_bouncer_config
  validate bouncer_config_override config =
      reject_if (config.rpc_node_url == "") (
        ConfigError.missing_required_field
          "rpc_node_url is required (provide via --rpc-url or config file)")
      >> (reject_if (nat_beq config.max_concurrent_requests 0)
            (ConfigError.invalid_argument "max_concurrent_requests must be at least 1")
          >> (reject_if (nat_beq config.max_connections 0)
                (ConfigError.invalid_argument "max_connections must be at least 1")
              >> (transport_mode config.tls_cert_file config.tls_key_file >>= λ transport.
                  normalize_cors_allow_origins p.parse_url config.cors_allow_origin
                  >>= λ cors_allow_origin.
                      load_bouncer_config bouncer_config_override >>= λ bouncer_config. ok (record {
                        prover_config = record {
                          contract_cache_size = config.compiled_class_cache_size;
                          chain_id = config.chain_id;
                          rpc_node_url = config.rpc_node_url;
                          prefetch_state = config.prefetch_state;
                          bouncer_config = bouncer_config;
                          use_latest_versioned_constants = config.use_latest_versioned_constants;
                          strk_fee_token_address = config.strk_fee_token_address;
                          validate_zero_fee_fields = config.validate_zero_fee_fields;
                        };
                        ip = config.ip;
                        port = config.port;
                        max_concurrent_requests = config.max_concurrent_requests;
                        max_connections = config.max_connections;
                        cors_allow_origin = cors_allow_origin;
                        transport = transport;
                      }))))

  unfoldable pub from_args : CliArgs → Result ConfigError (ServiceConfig C I B)
  unfolding base_config override validate
  from_args args = base_config args.config_file >>= λ config.
      override args config >>= λ config'. validate args.bouncer_config_override config'
