-- ===== src/Server/Betting.antt =====
-- crates/snip36-server/src/routes/coinflip.rs: runs of the handlers, one request after another.
use snip36_prover_web.Common.{
  ℕ, ◌+◌, ◌≤◌, String, Option, none, some, List, [], ◌∷◌, Bool, true, false, ◌==◌, string_eq,
  eq_iff, Result, ok, err, ◌≡◌, refl, arith, Bool-cases, inl, inr,
}
use snip36_prover_web.Common.Assoc.{lookup, remove, lookup-insert, lookup-remove}
use snip36_prover_web.Proofs.Types.{Felt}
use snip36_prover_web.Signing.Crates.{Crates}
use snip36_prover_web.Rpc.Client.{RpcError}
use snip36_prover_web.Server.State.{AppState, CoinFlipDeployment, BetCommitment}
use snip36_prover_web.Server.Coinflip.{
  ErrorResponse, DeployWorld, deploy_contract, deploy_coinflip, commit_bet, Reveal, PlayQuery,
  verify_reveal, play_from, play_coinflip, store_deployment,
}

-- The requests that reach the three handlers, with what the outside answers to each.
pub data Request : Type 0 where
  deploy : DeployWorld → Request
  commit : String → Result RpcError ℕ → String → String → Request
  play : String → PlayQuery → Request

abbrev started : Result ErrorResponse Reveal → ℕ
started (ok r) = 1
started (err e) = 0

abbrev one_if : Bool → ℕ → ℕ
one_if true n = n
one_if false n = 0

module _ (c : Crates) (pedersen_hash : Felt → Felt → Felt) where
  unfoldable pub handle : Request → AppState → AppState
  unfolding deploy_coinflip commit_bet play_coinflip
  handle (deploy w) state = (deploy_coinflip w state).0
  handle (commit session_id block commitment player) state =
      (commit_bet session_id block commitment player state).0
  handle (play session_id params) state = (play_coinflip c pedersen_hash session_id params state).0

  -- How many flips the request starts for the session.
  abbrev starts_now : String → Request → AppState → ℕ
  starts_now sid (play session_id params) state =
      one_if (session_id == sid) (started (play_coinflip c pedersen_hash session_id params state).1)
  starts_now sid _ state = 0

  -- How many flips a run starts for the session, and how many bets it commits there.
  unfoldable pub starts : String → List Request → AppState → ℕ
  unfolding handle
  starts sid [] state = 0
  starts sid (r ∷ rs) state = starts_now sid r state + starts sid rs (handle r state)

abbrev commits_now : String → Request → ℕ
commits_now sid (commit session_id (ok block) commitment player) = one_if (session_id == sid) 1
commits_now sid _ = 0

unfoldable pub commits : String → List Request → ℕ
commits sid [] = 0
commits sid (r ∷ rs) = commits_now sid r + commits sid rs

abbrev present : Option BetCommitment → ℕ
present none = 0
present (some b) = 1

-- The bets that wait for a reveal in the session: at most one.
unfoldable pub pending : String → AppState → ℕ
unfolding lookup
pending sid state = present (lookup sid state.commitments)

started_le : (r : Result ErrorResponse Reveal) → started r ≤ 1
started_le (ok r) = omega arith
started_le (err e) = omega arith

-- A commitment that is removed and revealed, in the session `sid` and in any other.
consumed :
    (sid session_id : String) (state : AppState) (b : BetCommitment)
    (r : Result ErrorResponse Reveal)
    → lookup session_id state.commitments ≡ some b
    → one_if (session_id == sid) (started r)
        + present (lookup sid (remove session_id state.commitments))
      ≤ present (lookup sid state.commitments)
consumed sid session_id state b r found = elim (Bool-cases (session_id == sid)) [
  | inl same ↦
      let here : lookup sid state.commitments ≡ some b =
        rw⁻¹ ((eq_iff session_id sid).0 same) found in
      rw (lookup-remove session_id sid state.commitments, same, here) (omega (arith, started_le r))
  | inr other ↦ rw (lookup-remove session_id sid state.commitments, other) (omega arith)
]

missed :
    (sid session_id : String) (state : AppState)
    → one_if (session_id == sid) 0 + present (lookup sid (remove session_id state.commitments))
      ≤ present (lookup sid state.commitments)
missed sid session_id state = elim (Bool-cases (session_id == sid)) [
  | inl same ↦ rw (lookup-remove session_id sid state.commitments, same) (omega arith)
  | inr other ↦ rw (lookup-remove session_id sid state.commitments, other) (omega arith)
]

idle : (b : Bool) (n : ℕ) → one_if b 0 + n ≤ n
idle true n = omega arith
idle false n = omega arith

module _ (c : Crates) (pedersen_hash : Felt → Felt → Felt) (sid : String) where
  played :
      (session_id : String) (params : PlayQuery) (state : AppState) (o : Option CoinFlipDeployment)
      (m : Option BetCommitment)
      → lookup session_id state.commitments ≡ m
      → one_if
            (session_id == sid)
            (started (play_from c pedersen_hash session_id params state o m).1)
          + pending sid (play_from c pedersen_hash session_id params state o m).0
        ≤ pending sid state
  unfolding pending
  played session_id params state none m found = idle (session_id == sid) (pending sid state)
  played session_id params state (some d) none found = missed sid session_id state
  played session_id params state (some d) (some b) found =
      consumed sid session_id state b (verify_reveal c pedersen_hash d session_id params b) found

  stored :
      (state : AppState) (o : Option CoinFlipDeployment)
      (r : Result ErrorResponse CoinFlipDeployment)
      → pending sid (store_deployment state o r).0 ≤ pending sid state
  unfolding pending
  stored state (some d) r = omega arith
  stored state none (err e) = omega arith
  stored state none (ok d) = omega arith

  committed :
      (session_id : String) (block : Result RpcError ℕ) (commitment player : String)
      (state : AppState)
      → pending sid (commit_bet session_id block commitment player state).0
        ≤ commits_now sid (commit session_id block commitment player) + pending sid state
  unfolding pending commit_bet
  committed session_id (err e) commitment player state = omega arith
  committed session_id (ok block) commitment player state = elim (Bool-cases (session_id == sid)) [
    | inl same ↦ rw (lookup-insert session_id sid, same) (omega arith)
    | inr other ↦ rw (lookup-insert session_id sid, other) (omega arith)
  ]

  handle-pending :
      (r : Request) (state : AppState)
      → starts_now c pedersen_hash sid r state + pending sid (handle c pedersen_hash r state)
        ≤ commits_now sid r + pending sid state
  unfolding handle deploy_coinflip play_coinflip
  handle-pending (deploy w) state = omega (arith, stored state state.coinflip (deploy_contract w))
  handle-pending (commit session_id block commitment player) state =
      omega (arith, committed session_id block commitment player state)
  handle-pending (play session_id params) state = omega (
    arith,
    played session_id params state state.coinflip (lookup session_id state.commitments) refl,
  )

  -- In any run of deploy, commit and play requests, the flips that are started for a session are
  -- at most the bets committed there, plus the bet that was pending at the start.
  pub starts-le-commits :
      (rs : List Request) (state : AppState)
      → starts c pedersen_hash sid rs state ≤ commits sid rs + pending sid state
  unfolding starts commits
  starts-le-commits [] state = omega arith
  starts-le-commits (r ∷ rs) state =
      omega (arith, handle-pending r state, starts-le-commits rs (handle c pedersen_hash r state))
