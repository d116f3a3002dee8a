-- ===== src/Config/Cors.antt =====
-- portable-core/starknet_transaction_prover/src/server/cors.rs, and `ConfigError` of errors.rs.
use snip36_prover_web.Common.{
  ℕ, String, Option, none, some, List, [], ◌∷◌, ◌++◌, Bool, true, false, not, ◌&&◌, ◌||◌, any, ◌==◌,
  string_eq, nat_beq, if◌then◌else◌, Result, ok, ◌>>=◌, ◌>>◌, reject_if, map_err, traverse,
}
use snip36_prover_web.Common.Text.{◌+++◌, decimal}

pub data ConfigError : Type 0 where
  config_file_error : String → ConfigError
  invalid_argument : String → ConfigError
  missing_required_field : String → ConfigError
  incomplete_tls_config : String → ConfigError

-- What the source reads of a parsed `url::Url`; `host` is the text that the host prints as.
pub record Url : Type 0 where
  pub scheme : String
  pub host : Option String
  pub username : String
  pub password : Option String
  pub path : String
  pub query : Option String
  pub fragment : Option String
  pub port : Option ℕ

abbrev pub is_some {ℓ} : {A : Type ℓ} → Option A → Bool
is_some none = false
is_some (some a) = true

abbrev pub invalid : String → String → ConfigError
invalid origin why = invalid_argument ("Invalid cors_allow_origin '" +++ origin +++ "': " +++ why)

-- `:port`, unless the port is the scheme's own.
unfoldable pub port_suffix : String → Option ℕ → String
unfolding decimal
port_suffix scheme none = ""
port_suffix scheme (some port) =
    if (scheme == "http" && nat_beq port 80) || (scheme == "https" && nat_beq port 443)
    then ""
    else ":" +++ decimal port

abbrev pub host_text : Option String → String
host_text none = ""
host_text (some host) = host

unfoldable pub contains : List String → String → Bool
contains origins origin = any (λ o. o == origin) origins

-- The host is there when it is printed, as the source's `expect` says.
unfoldable pub origin_of : String → Url → Result ConfigError String
unfolding port_suffix
origin_of origin parsed =
    reject_if (not (parsed.scheme == "http" || parsed.scheme == "https"))
      (invalid origin "only http:// and https:// are supported.")
    >> (reject_if (not (is_some parsed.host)) (invalid origin "host is required.")
        >> (reject_if (not (parsed.username == "") || is_some parsed.password)
              (invalid origin "userinfo is not supported.")
            >> (reject_if
                  (not (parsed.path == "/") || is_some parsed.query || is_some parsed.fragment)
                  (invalid origin
                    "must be '*' or '<scheme>://<host>[:port]' without a path, query, or fragment.")
                >> ok (
                    parsed.scheme
                    +++ "://"
                    +++ host_text parsed.host
                    +++ port_suffix parsed.scheme parsed.port))))

-- `Url::parse`, with the text of its error.
module _ (parse_url : String → Result String Url) where
  unfoldable pub normalize_cors_allow_origin : String → Result ConfigError String
  unfolding origin_of
  normalize_cors_allow_origin origin =
      map_err (invalid origin) (parse_url origin) >>= origin_of origin

  -- The loop, with the origins that are normalized so far.
  unfoldable pub normalize_each : List String → List String → Result ConfigError (List String)
  unfolding contains
  normalize_each normalized [] = ok normalized
  normalize_each normalized (origin ∷ rest) = normalize_cors_allow_origin origin >>= λ n.
      normalize_each (if contains normalized n then normalized else normalized ++ n ∷ []) rest

  unfoldable pub normalize_cors_allow_origins : List String → Result ConfigError (List String)
  unfolding normalize_each
  normalize_cors_allow_origins origins =
      if any (λ origin. origin == "*") origins then ok ("*" ∷ []) else normalize_each [] origins

unfoldable pub cors_mode : List String → String
cors_mode [] = "disabled"
cors_mode (single ∷ []) = if single == "*" then "wildcard" else "allowlist"
cors_mode (a ∷ b ∷ rest) = "allowlist"

pub data AllowOrigin (H : Type 0) : Type 0 where
  any_origin : AllowOrigin H
  list_of : List H → AllowOrigin H

-- The parts of tower_http's `CorsLayer` that the source sets.
pub record CorsLayer (H : Type 0) : Type 0 where
  pub allow_origin : AllowOrigin H
  pub allow_methods : List String
  pub allow_headers : List String

abbrev is_wildcard : List String → Bool
is_wildcard [] = false
is_wildcard (single ∷ []) = single == "*"
is_wildcard (a ∷ b ∷ rest) = false

-- `HeaderValue::from_str`; the error is the text of the context that the source gives it.
module _ {E H : Type 0} (header_value : String → Result E H) where
  abbrev header_of : String → Result String H
  header_of origin =
      map_err (λ e. "Invalid cors_allow_origin header value '" +++ origin +++ "'")
        (header_value origin)

  abbrev layer : AllowOrigin H → CorsLayer H
  layer allow_origin = record {
    allow_origin = allow_origin;
    allow_methods = "POST" ∷ [];
    allow_headers = "content-type" ∷ [];
  }

  unfoldable pub build_cors_layer : List String → Result String (Option (CorsLayer H))
  build_cors_layer [] = ok none
  build_cors_layer (o ∷ rest) =
      if is_wildcard (o ∷ rest)
      then ok (some (layer any_origin))
      else traverse header_of (o ∷ rest) >>= λ values. ok (some (layer (list_of values)))
