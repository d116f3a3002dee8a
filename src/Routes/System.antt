-- ===== src/Routes/System.antt =====
-- crates/snip36-server/src/routes/mod.rs: the router. The handlers run side by side on the shared
-- state: in each turn one of them makes one access to the state, or sends one event.
use snip36_prover_web.Common.{
  ℕ, zero, suc, String, Option, none, some, List, [], ◌∷◌, Result, ok, err, string_eq,
}
use snip36_prover_web.Common.Assoc.{lookup}
use snip36_prover_web.Proofs.Types.{Felt}
use snip36_prover_web.Signing.Crates.{Crates}
use snip36_prover_web.Rpc.Client.{RpcError}
use snip36_prover_web.Server.State.{AppState, CoinFlipDeployment, new}
use snip36_prover_web.Server.Coinflip.{
  ErrorResponse, DeployWorld, deploy_contract, store_deployment, commit_bet, PlayQuery, play_from,
}
use snip36_prover_web.Routes.Program.{Program, done, fail, stop, access, emit, ◌>>=◌}
use snip36_prover_web.Routes.World.{World}
use snip36_prover_web.Routes.Fund.{
  DeployAccountRequest, fund_account, deploy_account, deploy_counter,
}
use snip36_prover_web.Routes.Read.{read_counter, get_nonce_route, health}
use snip36_prover_web.Routes.Invoke.{InvokeRequest, invoke_increment}
use snip36_prover_web.Routes.Submit.{Files, submit_proof}
use snip36_prover_web.Routes.Prove.{Prover, prove_transaction}
use snip36_prover_web.Routes.ProveBlock.{Workshop, ProveBlockQuery}
use snip36_prover_web.Routes.Landing.{prove_block}

-- A handler whose answer is on its way to the client.
abbrev pub Handler : Type 0
Handler = Program (Unit {0})

abbrev pub answered : {A : Type 0} → Program A → Handler
answered p = p >>= λ a. done tt

-- An access that leaves nothing to do.
abbrev pub once : (AppState → AppState) → Handler
once write = access write (λ s. done tt)

-- `deploy_coinflip`: the deployment is looked for first, and stored in a later move.
abbrev pub deploying : Option CoinFlipDeployment → Result ErrorResponse CoinFlipDeployment → Handler
deploying (some d) r = done tt
deploying none (err e) = done tt
deploying none (ok d) = once (λ s. (store_deployment s none (ok d)).0)

unfoldable pub deploy_flip : DeployWorld → Handler
unfolding deploy_contract
deploy_flip w = access (λ s. s) (λ s. deploying s.coinflip (deploy_contract w))

-- `play_coinflip`: the deployment is read first, and the commitment removed in a later move.
module _ (c : Crates) (pedersen_hash : Felt → Felt → Felt) (id : String) (params : PlayQuery) where
  unfoldable pub playing : Option CoinFlipDeployment → Handler
  unfolding lookup
  playing none = done tt
  playing (some d) =
      once (λ s. (play_from c pedersen_hash id params s (some d) (lookup id s.commitments)).0)

  unfoldable pub play_flip : Handler
  unfolding playing
  play_flip = access (λ s. s) (λ s. playing s.coinflip)

-- `api_router`: the handlers of the routes. That of the coin flip's status does not write.
pub data Routed : Handler → Type 0 where
  to_health : (w : World) → Routed (answered (health w))
  to_fund :
      (w : World) (account_address : String) → Routed (answered (fund_account w account_address))
  to_deploy_account :
      (w : World) (req : DeployAccountRequest) → Routed (answered (deploy_account w req))
  to_deploy_counter : (w : World) (id : String) → Routed (answered (deploy_counter w id))
  to_invoke : (w : World) (req : InvokeRequest) → Routed (answered (invoke_increment w req))
  to_prove : (w : World) (p : Prover) (id : String) → Routed (answered (prove_transaction w p id))
  to_prove_block :
      (c : Crates) (w : World) (k : Workshop) (id : String) (params : ProveBlockQuery)
      → Routed (answered (prove_block c w k id params))
  to_submit_proof :
      (c : Crates) (w : World) (f : Files) (id : String) → Routed (answered (submit_proof c w f id))
  to_read_counter :
      (w : World) (contract_address : String) → Routed (answered (read_counter w contract_address))
  to_nonce : (w : World) (address : String) → Routed (answered (get_nonce_route w address))
  to_coinflip_deploy : (w : DeployWorld) → Routed (deploy_flip w)
  to_coinflip_commit :
      (id : String) (block : Result RpcError ℕ) (commitment player : String)
      → Routed (once (λ s. (commit_bet id block commitment player s).0))
  to_coinflip_play :
      (c : Crates) (pedersen_hash : Felt → Felt → Felt) (id : String) (params : PlayQuery)
      → Routed (play_flip c pedersen_hash id params)

pub record System : Type 0 where
  pub state : AppState
  pub running : List Handler

-- One move of a handler; one that is over stays where it is.
abbrev pub advance : Handler → AppState → AppState × Handler
advance (done a) s = (s, done a)
advance (fail e) s = (s, fail e)
advance stop s = (s, stop)
advance (access write next) s = (write s, next s)
advance (emit e rest) s = (s, rest)

abbrev pub advance_at : ℕ → List Handler → AppState → AppState × List Handler
advance_at i [] s = (s, [])
advance_at zero (p ∷ ps) s = ((advance p s).0, (advance p s).1 ∷ ps)
advance_at (suc i) (p ∷ ps) s = ((advance_at i ps s).0, p ∷ (advance_at i ps s).1)

abbrev pub turn : ℕ → System → System
turn i x = record {
  state = (advance_at i x.running x.state).0;
  running = (advance_at i x.running x.state).1;
}

abbrev pub arrive : Handler → System → System
arrive p x = record { state = x.state; running = p ∷ x.running }

-- A request arrives, or a handler makes a move.
pub data Step : System → System → Type 0 where
  arrived : (p : Handler) (x : System) → Routed p → Step x (arrive p x)
  turned : (i : ℕ) (x : System) → Step x (turn i x)

pub data Reaches : System → Type 0 where
  start : Reaches (record { state = new; running = [] })
  step : (x y : System) → Reaches x → Step x y → Reaches y
