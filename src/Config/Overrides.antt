-- ===== src/Config/Overrides.antt =====
-- portable-core/starknet_transaction_prover/src/server/config.rs: what the service runs with.
use snip36_prover_web.Common.{
  ℕ, String, Option, none, some, List, [], ◌∷◌, Bool, true, false, not, ◌&&◌, is_empty, nat_beq,
  ◌==◌, string_eq, eq_iff, Result, ok, ◌≡◌, ◌≢◌, refl, ◌≤◌, ◌↔◌, sym, subst, arith, >>=-eq-ok,
  reject_if-eq-ok, if◌then◌else◌,
}
use snip36_prover_web.Config.Cors.{ConfigError, normalize_cors_allow_origins, normalize_each}
use snip36_prover_web.Config.Origins.{IsNodup, normalize_cors_allow_origins_lem}
use snip36_prover_web.Config.Types.{
  TransportMode, https, transport_mode, RawServiceConfig, ServiceConfig, CliArgs,
}
use snip36_prover_web.Config.Args.{
  Platform, base_config, override, override_token, override_origins, validate, from_args,
  load_bouncer_config, parse_override, or_else, some_or,
}

-- A value that is given on the command line is the one that is used.
abbrev pub Takes : {A : Type 0} → Option A → A → Type 0
Takes none v = Unit
Takes (some a) v = v ≡ a

-- A TLS file that is given on the command line is the one that is used.
abbrev pub TakesTls : Option String → Option String → TransportMode → Type 0
TakesTls none none mode = Unit
TakesTls none (some key) mode = (c : String) × (mode ≡ https c key)
TakesTls (some cert) none mode = (k : String) × (mode ≡ https cert k)
TakesTls (some cert) (some key) mode = mode ≡ https cert key

module _ {C I B : Type 0} where
  abbrev pub IsServable : ServiceConfig C I B → Type 0
  IsServable s =
      (s.prover_config.rpc_node_url ≢ "")
      × (1 ≤ s.max_concurrent_requests)
      × (1 ≤ s.max_connections)
      × IsNodup s.cors_allow_origin

  abbrev pub Obeys : CliArgs → ServiceConfig C I B → Type 0
  Obeys args s =
      Takes args.rpc_url s.prover_config.rpc_node_url
      × Takes args.port s.port
      × Takes args.max_concurrent_requests s.max_concurrent_requests
      × Takes args.max_connections s.max_connections
      × Takes args.prefetch_state s.prover_config.prefetch_state
      × Takes args.compiled_class_cache_size s.prover_config.contract_cache_size
      × TakesTls args.tls_cert_file args.tls_key_file s.transport
      × (args.skip_fee_field_validation ≡ true → s.prover_config.validate_zero_fee_fields ≡ false)
      × (args.no_cors ≡ true → (s.cors_allow_origin ≡ []) × (args.cors_allow_origin ≡ []))

tls_lem :
    (a b c d : Option String) (m : TransportMode)
    → transport_mode (some_or a c) (some_or b d) ≡ ok m
    → TakesTls a b m
unfolding transport_mode
tls_lem none none c d m h = tt
tls_lem none (some key) none d m h = cc
tls_lem none (some key) (some c) d m h = (c, cc)
tls_lem (some cert) none c none m h = cc
tls_lem (some cert) none c (some d) m h = (d, cc)
tls_lem (some cert) (some key) c d m h = cc

Takes-or_else : {A : Type 0} (o : Option A) (a : A) → Takes o (or_else o a)
Takes-or_else none a = tt
Takes-or_else (some b) a = refl

test_refutes : {A : Type 0} {b : Bool} → (b ≡ true) ↔ A → b ≡ false → ¬ A
test_refutes i h a = ground (arith, i)

positive : (n : ℕ) → nat_beq n 0 ≡ false → 1 ≤ n
positive n h = ground arith

none_left :
    {ns : List String} → ◌≡◌ {A = Result ConfigError (List String)} (ok []) (ok ns) → ns ≡ []
none_left h = cc

empty_lem : (xs : List String) → not (is_empty xs) ≡ false → xs ≡ []
empty_lem [] h = refl
empty_lem (x ∷ xs) h = cc

fee_check : (b : Bool) → (if true && b then false else b) ≡ false
fee_check true = refl
fee_check false = refl

module _ {C I B : Type 0} (p : Platform C I B) where
  -- What the service takes over from the flat configuration.
  abbrev Carries : RawServiceConfig C I → ServiceConfig C I B → Type 0
  Carries config s =
      (s.prover_config.rpc_node_url ≡ config.rpc_node_url)
      × (s.port ≡ config.port)
      × (s.max_concurrent_requests ≡ config.max_concurrent_requests)
      × (s.max_connections ≡ config.max_connections)
      × (s.prover_config.prefetch_state ≡ config.prefetch_state)
      × (s.prover_config.contract_cache_size ≡ config.compiled_class_cache_size)
      × (s.prover_config.validate_zero_fee_fields ≡ config.validate_zero_fee_fields)
      × (transport_mode config.tls_cert_file config.tls_key_file ≡ ok s.transport)
      × (normalize_cors_allow_origins p.parse_url config.cors_allow_origin ≡ ok s.cors_allow_origin)

  ok-service :
      {s t : ServiceConfig C I B}
      → ◌≡◌ {A = Result ConfigError (ServiceConfig C I B)} (ok s) (ok t)
      → s ≡ t
  ok-service h = cc

  ok-raw :
      {s t : RawServiceConfig C I}
      → ◌≡◌ {A = Result ConfigError (RawServiceConfig C I)} (ok s) (ok t)
      → s ≡ t
  ok-raw h = cc

  validate-Carries :
      (path : Option String) (config : RawServiceConfig C I) (s : ServiceConfig C I B)
      → validate p path config ≡ ok s
      → IsServable s × Carries config s
  unfolding validate
  validate-Carries path config s h =
      let (url, h1) =
        reject_if-eq-ok (config.rpc_node_url == "")
          (ConfigError.missing_required_field
            "rpc_node_url is required (provide via --rpc-url or config file)")
          _ h in
      let (requests, h2) =
        reject_if-eq-ok (nat_beq config.max_concurrent_requests 0)
          (ConfigError.invalid_argument "max_concurrent_requests must be at least 1") _ h1 in
      let (connections, h3) =
        reject_if-eq-ok (nat_beq config.max_connections 0)
          (ConfigError.invalid_argument "max_connections must be at least 1") _ h2 in
      let (mode, e4, h4) =
        >>=-eq-ok (transport_mode config.tls_cert_file config.tls_key_file) _ h3 in
      let (origins, e5, h5) =
        >>=-eq-ok (normalize_cors_allow_origins p.parse_url config.cors_allow_origin) _ h4 in
      let (bouncer, e6, h6) = >>=-eq-ok (load_bouncer_config p path) _ h5 in
      subst (λ t. IsServable t × Carries config t) (ok-service h6)
        (
          (
            λ e. test_refutes (eq_iff config.rpc_node_url "") url e,
            positive config.max_concurrent_requests requests,
            positive config.max_connections connections,
            (normalize_cors_allow_origins_lem p.parse_url config.cors_allow_origin origins e5).1,
          ),
          (refl, refl, refl, refl, refl, refl, refl, e4, e5),
        )

  no_cors_lem :
      (args : CliArgs) (old ns : List String)
      → args.no_cors ≡ true
      → (args.no_cors && not (is_empty args.cors_allow_origin)) ≡ false
      → normalize_cors_allow_origins p.parse_url (override_origins args old) ≡ ok ns
      → (ns ≡ []) × (args.cors_allow_origin ≡ [])
  unfolding override_origins normalize_cors_allow_origins normalize_each
  no_cors_lem args old ns no_cors exclusive h =
      (none_left (rw no_cors at h), empty_lem args.cors_allow_origin (rw no_cors at exclusive))

  -- The tests of `override` on a given configuration.
  override-Obeys :
      (args : CliArgs) (config next : RawServiceConfig C I) (s : ServiceConfig C I B)
      → override p args config ≡ ok next
      → Carries next s
      → Obeys args s
  unfolding override
  override-Obeys args config next s h carries =
      let (ip, e1, h1) = >>=-eq-ok (parse_override "IP address" p.parse_ip args.ip config.ip) _ h in
      let (exclusive, h2) =
        reject_if-eq-ok (args.no_cors && not (is_empty args.cors_allow_origin))
          (ConfigError.invalid_argument "--no-cors and --cors-allow-origin are mutually exclusive")
          _ h1 in
      let (token, e3, h3) =
        >>=-eq-ok (override_token p args.strk_fee_token_address config.strk_fee_token_address) _
          h2 in
      let (url, port, requests, connections, prefetch, cache, fees, mode, origins) =
        subst (λ n. Carries n s) (sym (ok-raw h3)) carries in
      (
        rw url (Takes-or_else args.rpc_url config.rpc_node_url),
        rw port (Takes-or_else args.port config.port),
        rw requests (Takes-or_else args.max_concurrent_requests config.max_concurrent_requests),
        rw connections (Takes-or_else args.max_connections config.max_connections),
        rw prefetch (Takes-or_else args.prefetch_state config.prefetch_state),
        rw cache (Takes-or_else args.compiled_class_cache_size config.compiled_class_cache_size),
        tls_lem args.tls_cert_file args.tls_key_file config.tls_cert_file config.tls_key_file
            s.transport mode,
        (λ skip. rw (fees, skip) (fee_check config.validate_zero_fee_fields)),
        (λ no_cors.
            no_cors_lem args config.cors_allow_origin s.cors_allow_origin no_cors exclusive
              origins),
      )

  -- A configuration that is accepted has a node URL, at least one request and one connection, and
  -- no origin twice. A URL, port, limit, prefetch flag or cache size that is given on the command
  -- line is the one in it, TLS files given there are those of the transport, skipping the fee
  -- validation turns it off, and with --no-cors there are no origins.
  pub from_args_lem :
      (args : CliArgs) (s : ServiceConfig C I B)
      → from_args p args ≡ ok s
      → IsServable s × Obeys args s
  unfolding from_args
  from_args_lem args s h =
      let (config, e1, h1) = >>=-eq-ok (base_config p args.config_file) _ h in
      let (next, e2, h2) = >>=-eq-ok (override p args config) _ h1 in
      let (servable, carries) = validate-Carries args.bouncer_config_override next s h2 in
      (servable, override-Obeys args config next s e2 carries)
