-- ===== src/Core/Loading.antt =====
-- crates/snip36-core/src/config.rs: what `from_env` requires.
use snip36_prover_web.Common.{
  ◌≡◌, ◌≢◌, ◌↔◌, ◌⊎◌, refl, String, Option, none, some, ok, ok_or, >>=-eq-ok, arith,
}
use snip36_prover_web.Core.Config.{
  Config, Environment, Process, ConfigError, load_env, from_env, first_of, config_of,
}

-- A variable that is set.
abbrev pub IsGiven : Environment → String → Type 0
IsGiven var name = var name ≢ none

given : (o : Option String) → o ≢ none → (s : String) × (o ≡ some s)
given none h = absurd (h refl)
given (some s) h = (s, refl)

ok_or-given : {s : String} (o : Option String) (e : ConfigError) → ok_or o e ≡ ok s → o ≢ none
ok_or-given none e h k = cc
ok_or-given (some s) e h k = cc

first_of-given : (a b : Option String) → (first_of a b ≢ none) ↔ ((a ≢ none) ⊎ (b ≢ none))
first_of-given none b = ground arith
first_of-given (some a) b = ground arith

-- The core configuration is loaded exactly when, after the .env file, the node's URL is set, and
-- account address and private key each under at least one of their two names.
pub from_env_iff :
    (p : Process) (env_file : Option String)
    → ((config : Config) × (from_env p env_file ≡ ok config)) ↔ (
        IsGiven (load_env p env_file) "STARKNET_RPC_URL"
        × (IsGiven (load_env p env_file) "STARKNET_ACCOUNT_ADDRESS"
            ⊎ IsGiven (load_env p env_file) "MASTER_ACCOUNT_ADDRESS")
        × (IsGiven (load_env p env_file) "STARKNET_PRIVATE_KEY"
            ⊎ IsGiven (load_env p env_file) "MASTER_PRIVATE_KEY"))
unfolding from_env
from_env_iff p env_file =
    let var = load_env p env_file in
    let url = var "STARKNET_RPC_URL" in
    let account = first_of (var "STARKNET_ACCOUNT_ADDRESS") (var "MASTER_ACCOUNT_ADDRESS") in
    let key = first_of (var "STARKNET_PRIVATE_KEY") (var "MASTER_PRIVATE_KEY") in
    let account_iff =
      first_of-given (var "STARKNET_ACCOUNT_ADDRESS") (var "MASTER_ACCOUNT_ADDRESS") in
    let key_iff = first_of-given (var "STARKNET_PRIVATE_KEY") (var "MASTER_PRIVATE_KEY") in
    (
      λ (config, h).
          let no_url = ConfigError.missing "STARKNET_RPC_URL" in
          let no_account = ConfigError.missing "STARKNET_ACCOUNT_ADDRESS" in
          let no_key = ConfigError.missing "STARKNET_PRIVATE_KEY" in
          let (u, has_url, h1) = >>=-eq-ok (ok_or url no_url) _ h in
          let (a, has_account, h2) = >>=-eq-ok (ok_or account no_account) _ h1 in
          let (k, has_key, h3) = >>=-eq-ok (ok_or key no_key) _ h2 in
          (
            ok_or-given url no_url has_url,
            account_iff.0 (ok_or-given account no_account has_account),
            key_iff.0 (ok_or-given key no_key has_key),
          ),
      λ (has_url, has_account, has_key).
          let (u, e1) = given url has_url in
          let (a, e2) = given account (account_iff.1 has_account) in
          let (k, e3) = given key (key_iff.1 has_key) in
          (config_of p var u a k, rw (e1, e2, e3) refl),
    )
