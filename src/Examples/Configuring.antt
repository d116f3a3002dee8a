-- ===== src/Examples/Configuring.antt =====
-- A platform without files, and arguments that name an address, TLS files and two origins.
use snip36_prover_web.Common.{
  ℕ, String, ◌≡◌, refl, true, false, none, some, [], ◌∷◌, Result, ok, err,
}
use snip36_prover_web.Common.Text.{decimal, digits}
use snip36_prover_web.Config.Cors.{
  Url, ConfigError, normalize_cors_allow_origin, normalize_each, normalize_cors_allow_origins,
  origin_of, port_suffix, contains, cors_mode,
}
use snip36_prover_web.Config.Origins.{IsNodup, requested_mode, normalize_cors_allow_origins_lem}
use snip36_prover_web.Config.Types.{ServiceConfig, CliArgs, TransportMode, transport_mode}
use snip36_prover_web.Config.Args.{
  Platform, from_args, base_config, default_config, override, override_origins, validate,
  load_bouncer_config,
}
use snip36_prover_web.Config.Overrides.{IsServable, Obeys, from_args_lem}

-- Any text is read as the host of an origin at port 5173.
abbrev url_of : String → Result String Url
url_of text = ok (record {
  scheme = "http";
  host = some text;
  username = "";
  password = none;
  path = "/";
  query = none;
  fragment = none;
  port = some 5173;
})

abbrev platform : Platform String ℕ ℕ
platform = record {
  read_to_string = λ path. err "no such file";
  parse_config = λ contents. err "no configuration";
  parse_bouncer_config = λ contents. err "no bouncer configuration";
  embedded_bouncer_config = 0;
  parse_ip = λ text. ok 1;
  parse_address = λ text. ok 2;
  parse_url = url_of;
  chain_id_from = λ text. text;
  mainnet = "SN_MAIN";
  default_ip = 0;
}

abbrev args : CliArgs
args = record {
  config_file = none;
  rpc_url = some "http://node";
  chain_id = some "SN_SEPOLIA";
  port = some 3001;
  ip = some "127.0.0.1";
  max_concurrent_requests = none;
  max_connections = some 4;
  tls_cert_file = some "cert.pem";
  tls_key_file = some "key.pem";
  strk_fee_token_address = none;
  prefetch_state = some true;
  use_latest_versioned_constants = none;
  skip_fee_field_validation = true;
  no_cors = false;
  cors_allow_origin = "localhost" ∷ "localhost" ∷ "example" ∷ [];
  compiled_class_cache_size = none;
  bouncer_config_override = none;
}

abbrev blank : ServiceConfig String ℕ ℕ
blank = record {
  prover_config = record {
    contract_cache_size = 0;
    chain_id = "";
    rpc_node_url = "";
    prefetch_state = false;
    bouncer_config = 0;
    use_latest_versioned_constants = false;
    strk_fee_token_address = none;
    validate_zero_fee_fields = false;
  };
  ip = 0;
  port = 0;
  max_concurrent_requests = 0;
  max_connections = 0;
  cors_allow_origin = [];
  transport = TransportMode.http;
}

abbrev or_blank : Result ConfigError (ServiceConfig String ℕ ℕ) → ServiceConfig String ℕ ℕ
or_blank (ok s) = s
or_blank (err e) = blank

configured : from_args platform args ≡ ok (or_blank (from_args platform args))
unfolding from_args base_config default_config override override_origins validate
    load_bouncer_config transport_mode normalize_cors_allow_origins normalize_each
    normalize_cors_allow_origin origin_of port_suffix decimal digits contains
configured = refl

from_args_lem_example :
    IsServable (or_blank (from_args platform args))
    × Obeys args (or_blank (from_args platform args))
from_args_lem_example = from_args_lem platform args (or_blank (from_args platform args)) configured

normalized :
    normalize_cors_allow_origins url_of ("localhost" ∷ "localhost" ∷ "example" ∷ [])
    ≡ ok ("http://localhost:5173" ∷ "http://example:5173" ∷ [])
unfolding normalize_cors_allow_origins normalize_each normalize_cors_allow_origin origin_of
    port_suffix decimal digits contains
normalized = refl

normalize_cors_allow_origins_lem_example :
    (cors_mode ("http://localhost:5173" ∷ "http://example:5173" ∷ [])
      ≡ requested_mode url_of ("localhost" ∷ "localhost" ∷ "example" ∷ []))
    × IsNodup ("http://localhost:5173" ∷ "http://example:5173" ∷ [])
normalize_cors_allow_origins_lem_example =
    normalize_cors_allow_origins_lem url_of ("localhost" ∷ "localhost" ∷ "example" ∷ [])
      ("http://localhost:5173" ∷ "http://example:5173" ∷ []) normalized
