-- ===== src/Routes/Consistency.antt =====
-- The sessions of the server, whatever its handlers do side by side.
use snip36_prover_web.Common.{
  ℕ, zero, suc, String, Option, none, some, List, [], ◌∷◌, Result, ok, err, All, All-weaken, ◌≡◌,
  refl,
}
use snip36_prover_web.Common.Assoc.{lookup}
use snip36_prover_web.Proofs.Types.{Felt}
use snip36_prover_web.Signing.Crates.{Crates}
use snip36_prover_web.Rpc.Client.{RpcError}
use snip36_prover_web.Server.State.{AppState, CoinFlipDeployment, BetCommitment}
use snip36_prover_web.Server.Coinflip.{
  ErrorResponse, deploy_contract, commit_bet, PlayQuery, play_from,
}
use snip36_prover_web.Routes.Program.{Program, done, fail, stop, access, emit}
use snip36_prover_web.Routes.System.{
  deploying, deploy_flip, playing, play_flip, Handler, answered, Routed, to_health, to_fund,
  to_deploy_account, to_deploy_counter, to_invoke, to_prove, to_prove_block, to_submit_proof,
  to_read_counter, to_nonce, to_coinflip_deploy, to_coinflip_commit, to_coinflip_play, System,
  advance, advance_at, Step, arrived, turned, Reaches, start, step,
}
use snip36_prover_web.Routes.Sessions.{
  session_at, IsConsistent, Consistent, Grows, Grows-refl, same_sessions,
}
use snip36_prover_web.Routes.Safe.{Safe, Safe-bind, Safe-Grows}
use snip36_prover_web.Routes.Fund.{fund_account, deploy_account, deploy_counter}
use snip36_prover_web.Routes.Read.{read_counter, get_nonce_route}
use snip36_prover_web.Routes.Invoke.{invoke_increment}
use snip36_prover_web.Routes.Submit.{submit_proof}
use snip36_prover_web.Routes.Prove.{prove_transaction}
use snip36_prover_web.Routes.Landing.{prove_block}
use snip36_prover_web.Routes.Guarded.{
  fund_account-Safe, read_counter-Safe, get_nonce_route-Safe, deploy_account-Safe,
  deploy_counter-Safe, invoke_increment-Safe,
}
use snip36_prover_web.Routes.Tasks.{submit_proof-Safe, prove_transaction-Safe}
use snip36_prover_web.Routes.Cycle.{prove_block-Safe}

answered-Safe : {A : Type 0} (p : Program A) (s : AppState) → Safe s p → Safe s (answered p)
answered-Safe p s h = Safe-bind p (λ a. done tt) s h λ t a g. tt

commit_bet-sessions :
    (s : AppState) (id : String) (block : Result RpcError ℕ) (commitment player : String)
    → s.sessions ≡ (commit_bet id block commitment player s).0.sessions
unfolding commit_bet
commit_bet-sessions s id (err e) commitment player = refl
commit_bet-sessions s id (ok block) commitment player = refl

deploying-Safe :
    (s : AppState) (o : Option CoinFlipDeployment) (r : Result ErrorResponse CoinFlipDeployment)
    → Safe s (deploying o r)
deploying-Safe s (some d) r = tt
deploying-Safe s none (err e) = tt
deploying-Safe s none (ok d) = λ t g c. same_sessions t _ refl c

module _ (c : Crates) (pedersen_hash : Felt → Felt → Felt) (id : String) (params : PlayQuery) where
  play_from-sessions :
      (s : AppState) (d : CoinFlipDeployment) (found : Option BetCommitment)
      → s.sessions ≡ (play_from c pedersen_hash id params s (some d) found).0.sessions
  play_from-sessions s d none = refl
  play_from-sessions s d (some b) = refl

  playing-Safe :
      (s : AppState) (o : Option CoinFlipDeployment) → Safe s (playing c pedersen_hash id params o)
  unfolding playing
  playing-Safe s none = tt
  playing-Safe s (some d) = λ t g k. same_sessions t _ (play_from-sessions t d _) k

Routed-Safe : (p : Handler) (s : AppState) → Routed p → Safe s p
unfolding deploy_flip play_flip
Routed-Safe p s (to_health w) = tt
Routed-Safe p s (to_fund w a) = answered-Safe (fund_account w a) s (fund_account-Safe w s a)
Routed-Safe p s (to_deploy_account w req) =
    answered-Safe (deploy_account w req) s (deploy_account-Safe w s req)
Routed-Safe p s (to_deploy_counter w id) =
    answered-Safe (deploy_counter w id) s (deploy_counter-Safe w s id)
Routed-Safe p s (to_invoke w req) =
    answered-Safe (invoke_increment w req) s (invoke_increment-Safe w req s)
Routed-Safe p s (to_prove w r id) =
    answered-Safe (prove_transaction w r id) s (prove_transaction-Safe w r id s)
Routed-Safe p s (to_prove_block c w k id params) =
    answered-Safe (prove_block c w k id params) s (prove_block-Safe c w k s id params)
Routed-Safe p s (to_submit_proof c w f id) =
    answered-Safe (submit_proof c w f id) s (submit_proof-Safe c w f s id)
Routed-Safe p s (to_read_counter w a) = answered-Safe (read_counter w a) s (read_counter-Safe w s a)
Routed-Safe p s (to_nonce w a) = answered-Safe (get_nonce_route w a) s (get_nonce_route-Safe w s a)
Routed-Safe p s (to_coinflip_deploy w) =
    λ t g k. (k, Grows-refl t, deploying-Safe t t.coinflip (deploy_contract w))
Routed-Safe p s (to_coinflip_commit id block commitment player) =
    λ t g h. same_sessions t _ (commit_bet-sessions t id block commitment player) h
Routed-Safe p s (to_coinflip_play c pedersen_hash id params) =
    λ t g k. (k, Grows-refl t, playing-Safe c pedersen_hash id params t t.coinflip)

-- The state is consistent, and every handler that runs is safe from here on.
abbrev Sound : AppState → List Handler → Type 0
Sound s ps = Consistent s × All (Safe s) ps

advance-Sound :
    (p : Handler) (s : AppState)
    → Safe s p
    → Consistent s
    → Consistent (advance p s).0 × Grows s (advance p s).0 × Safe (advance p s).0 (advance p s).1
advance-Sound (done a) s h c = (c, Grows-refl s, tt)
advance-Sound (fail e) s h c = (c, Grows-refl s, tt)
advance-Sound stop s h c = (c, Grows-refl s, tt)
advance-Sound (emit e rest) s h c = (c, Grows-refl s, h)
advance-Sound (access write next) s h c = h s (Grows-refl s) c

advance_at-Sound :
    (i : ℕ) (ps : List Handler) (s : AppState)
    → All (Safe s) ps
    → Consistent s
    → Consistent (advance_at i ps s).0
      × Grows s (advance_at i ps s).0
      × All (Safe (advance_at i ps s).0) (advance_at i ps s).1
advance_at-Sound i [] s h c = (c, Grows-refl s, tt)
advance_at-Sound zero (p ∷ ps) s (h, hs) c =
    let (d, g, k) = advance-Sound p s h c in
    (
      d,
      g,
      (k, All-weaken (Safe s) (Safe (advance p s).0) (λ q. Safe-Grows q s (advance p s).0 g) ps hs),
    )
advance_at-Sound (suc i) (p ∷ ps) s (h, hs) c =
    let (d, g, k) = advance_at-Sound i ps s hs c in
    (d, g, (Safe-Grows p s (advance_at i ps s).0 g h, k))

Step-Sound : (x y : System) → Step x y → Sound x.state x.running → Sound y.state y.running
Step-Sound x y (arrived p _ r) (c, hs) = (c, (Routed-Safe p x.state r, hs))
Step-Sound x y (turned i _) (c, hs) =
    let (d, g, k) = advance_at-Sound i x.running x.state hs c in (d, k)

Reaches-Sound : (x : System) → Reaches x → Sound x.state x.running
unfolding session_at lookup
Reaches-Sound x start = (
  (λ id. record {
    account = λ h. cc;
    class_of_contract = λ h. cc;
    invoked = λ h. absurd (cc h);
    included = λ h. cc;
    proving = λ h. cc;
    proved = λ h. cc;
    deployed = λ h. cc;
    referenced = λ h. cc;
  }),
  tt,
)
Reaches-Sound x (step r _ reached taken) = Step-Sound r x taken (Reaches-Sound r reached)

-- In every state that the server reaches while its handlers run side by side, each access to the
-- state being one move, every session is consistent: a deployed account has its address, a
-- contract its class, a submitted transaction an account and a contract, an included block and a
-- block to prove against a submitted transaction, a proof file a block that it was proved against,
-- and a deploy or reference block a contract.
pub Reaches-Consistent :
    (x : System) (id : String) → Reaches x → IsConsistent (session_at x.state id)
Reaches-Consistent x id r = (Reaches-Sound x r).0 id
