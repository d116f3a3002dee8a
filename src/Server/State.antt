-- ===== src/Server/State.antt =====
-- crates/snip36-server/src/state.rs: the state that the handlers share. Each handler takes the
-- state before it and gives the state after it; a handler holds a map's lock for one access only.
use snip36_prover_web.Common.{ℕ, String, Option, none, some, [], Bool, false, string_eq}
use snip36_prover_web.Common.Assoc.{Assoc, lookup, insert}

pub record CoinFlipDeployment : Type 0 where
  pub contract_address : String
  pub class_hash : String
  pub deploy_block : ℕ

pub record BetCommitment : Type 0 where
  pub commitment : String
  pub seed_block : ℕ
  pub player : String

-- crates/snip36-core/src/types.rs
pub record Session : Type 0 where
  pub account_address : Option String
  pub account_deployed : Bool
  pub contract_address : Option String
  pub class_hash : Option String
  pub last_invoke_tx : Option String
  pub invoke_block : Option ℕ
  pub prove_block : Option ℕ
  pub proof_file : Option String
  pub deploy_block : Option ℕ
  pub last_reference_block : Option ℕ

abbrev pub default_session : Session
default_session = record {
  account_address = none;
  account_deployed = false;
  contract_address = none;
  class_hash = none;
  last_invoke_tx = none;
  invoke_block = none;
  prove_block = none;
  proof_file = none;
  deploy_block = none;
  last_reference_block = none;
}

pub record AppState : Type 0 where
  pub sessions : Assoc String Session
  pub coinflip : Option CoinFlipDeployment
  pub commitments : Assoc String BetCommitment

-- `AppState::new`; its configuration and RPC client do not change and are parameters where they
-- are used.
abbrev pub new : AppState
new = record { sessions = []; coinflip = none; commitments = [] }

abbrev pub session_or_default : Option Session → Session
session_or_default none = default_session
session_or_default (some s) = s

-- `get_session`: `entry(..).or_default()` stores the default that it returns.
unfoldable pub get_session : AppState → String → AppState × Session
unfolding lookup insert
get_session state session_id =
    let session = session_or_default (lookup session_id state.sessions) in
    (
      record {
        sessions = insert session_id session state.sessions;
        coinflip = state.coinflip;
        commitments = state.commitments;
      },
      session,
    )

unfoldable pub update_session_with : AppState → String → (Session → Session) → AppState
unfolding lookup insert
update_session_with state session_id f = record {
  sessions =
      insert session_id (f (session_or_default (lookup session_id state.sessions))) state.sessions;
  coinflip = state.coinflip;
  commitments = state.commitments;
}
