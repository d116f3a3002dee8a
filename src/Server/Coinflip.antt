-- ===== src/Server/Coinflip.antt =====
-- crates/snip36-server/src/routes/coinflip.rs: the handlers, up to the task that `play_coinflip`
-- spawns.
use snip36_prover_web.Common.{
  ℕ, String, Option, none, some, Bool, true, false, not, ◌-◌, min, ◌==◌, string_eq, Result, ok, err,
  ◌>>=◌, ◌>>◌, ok_or, map_err, reject_if,
}
use snip36_prover_web.Common.Text.{◌+++◌, decimal}
use snip36_prover_web.Common.Json.{Json}
use snip36_prover_web.Common.Assoc.{Assoc, lookup, insert, remove}
use snip36_prover_web.Proofs.Types.{Felt}
use snip36_prover_web.Signing.Crates.{Crates}
use snip36_prover_web.Signing.Payload.{felt_from_hex}
use snip36_prover_web.Rpc.Client.{RpcError, receipt_block_number}
use snip36_prover_web.Server.State.{AppState, CoinFlipDeployment, BetCommitment}

-- An HTTP status and the text that goes with it; an error of the RPC client and
-- a JSON value are kept as they are.
pub data Detail : Type 0 where
  text : String → Detail
  rpc : String → RpcError → Detail
  shown : String → Json → Detail

pub record ErrorResponse : Type 0 where
  pub status : ℕ
  pub detail : Detail

abbrev pub error_response : ℕ → String → ErrorResponse
error_response status t = record { status = status; detail = text t }

abbrev pub rpc_response : ℕ → String → RpcError → ErrorResponse
rpc_response status t e = record { status = status; detail = rpc t e }

pub record Status : Type 0 where
  pub deployed : Bool
  pub contract_address : Option String

unfoldable pub coinflip_status : AppState → Status
coinflip_status state = status_of state.coinflip
  where
    status_of : Option CoinFlipDeployment → Status
    status_of none = record { deployed = false; contract_address = none }
    status_of (some d) = record { deployed = true; contract_address = some d.contract_address }

-- What a run of `sncast` prints, and whether it succeeded.
pub record Output : Type 0 where
  pub stdout : String
  pub stderr : String
  pub success : Bool

-- The world of `deploy_coinflip`: the two runs of `sncast`, the regular expressions of the two
-- helpers at the end of the file, and the wait for the deployment.
pub record DeployWorld : Type 0 where
  pub declare : Result String Output
  pub deploy : String → Result String Output
  pub extract_long_hex : String → Option String
  pub parse_hex : String → String → Option String
  pub wait_for_tx : String → Result RpcError Json

abbrev combined : Output → String
combined o = o.stdout +++ "\n" +++ o.stderr

abbrev or_zero : Option ℕ → ℕ
or_zero none = 0
or_zero (some n) = n

-- Everything between the two accesses to the shared deployment.
unfoldable pub deploy_contract : DeployWorld → Result ErrorResponse CoinFlipDeployment
unfolding receipt_block_number
deploy_contract w = map_err (error_response 500) w.declare >>= λ declared.
    ok_or (w.extract_long_hex (combined declared))
      (error_response 500 ("CoinFlip declare failed: " +++ combined declared))
    >>= λ class_hash. map_err (error_response 500) (w.deploy class_hash) >>= λ output.
        reject_if (not output.success)
          (error_response 500 ("CoinFlip deploy failed: " +++ combined output))
        >> (ok_or (w.parse_hex "contract_address" (combined output))
              (error_response 500 ("No contract_address in deploy output: " +++ combined output))
            >>= λ contract_address.
                ok_or (w.parse_hex "transaction_hash" (combined output)) (
                  error_response 500 ("No transaction_hash in deploy output: " +++ combined output))
                >>= λ tx_hash. map_err (rpc_response 504 "") (w.wait_for_tx tx_hash) >>= λ receipt.
                    ok (record {
                      contract_address = contract_address;
                      class_hash = class_hash;
                      deploy_block = or_zero (receipt_block_number receipt);
                    }))

-- The deployment that is stored already, or the new one.
abbrev pub store_deployment :
    AppState
    → Option CoinFlipDeployment
    → Result ErrorResponse CoinFlipDeployment
    → AppState × Result ErrorResponse CoinFlipDeployment
store_deployment state (some d) new = (state, ok d)
store_deployment state none (err e) = (state, err e)
store_deployment state none (ok d) =
    (record { sessions = state.sessions; coinflip = some d; commitments = state.commitments }, ok d)

unfoldable pub deploy_coinflip :
    DeployWorld → AppState → AppState × Result ErrorResponse CoinFlipDeployment
unfolding deploy_contract
deploy_coinflip w state = store_deployment state state.coinflip (deploy_contract w)

abbrev with_commitments : AppState → Assoc String BetCommitment → AppState
with_commitments state commitments = record {
  sessions = state.sessions;
  coinflip = state.coinflip;
  commitments = commitments;
}

-- `session_id` is the fresh UUID, `block_number` the node's answer.
unfoldable pub commit_bet :
    String
    → Result RpcError ℕ
    → String
    → String
    → AppState
    → AppState × Result ErrorResponse (String × ℕ)
unfolding insert
commit_bet session_id (err e) commitment player state =
    (state, err (rpc_response 500 "Failed to get block number: " e))
commit_bet session_id (ok block) commitment player state =
    let seed_block = block - 1 in
    (
      with_commitments state (
          insert session_id
            (record { commitment = commitment; seed_block = seed_block; player = player })
            state.commitments),
      ok (session_id, seed_block),
    )

-- What the spawned task is given.
pub record Reveal : Type 0 where
  pub deployment : CoinFlipDeployment
  pub session_id : String
  pub player : String
  pub bet : ℕ
  pub seed_block : ℕ

pub record PlayQuery : Type 0 where
  pub player : String
  pub bet : ℕ
  pub nonce : String

module _ (c : Crates) (pedersen_hash : Felt → Felt → Felt) where
  -- The checks of a request against the commitment that it has consumed.
  unfoldable pub verify_reveal :
      CoinFlipDeployment → String → PlayQuery → BetCommitment → Result ErrorResponse Reveal
  unfolding felt_from_hex decimal
  verify_reveal deployment session_id params commitment =
      let bet = min params.bet 1 in
      reject_if (not (params.player == commitment.player))
        (error_response 400 "Player address does not match commitment.")
      >> (map_err (λ e. error_response 400 ("Invalid nonce: " +++ e)) (felt_from_hex c params.nonce)
          >>= λ nonce_felt.
              let computed_hex = c.felt_hex (pedersen_hash (c.felt_from bet) nonce_felt) in
              reject_if (not (computed_hex == commitment.commitment)) (
                error_response 400 (
                  "Commitment mismatch: pedersen("
                  +++ decimal bet
                  +++ ", nonce) = "
                  +++ computed_hex
                  +++ ", expected "
                  +++ commitment.commitment))
              >> ok (record {
                deployment = deployment;
                session_id = session_id;
                player = params.player;
                bet = bet;
                seed_block = commitment.seed_block;
              }))

  -- The commitment is removed before it is checked, so that a failed reveal uses it up as well.
  abbrev pub play_from :
      String
      → PlayQuery
      → AppState
      → Option CoinFlipDeployment
      → Option BetCommitment
      → AppState × Result ErrorResponse Reveal
  play_from session_id params state none found = (
    state,
    err (
        error_response 400 "CoinFlip contract not deployed. Call POST /api/coinflip/deploy first."),
  )
  play_from session_id params state (some deployment) none = (
    with_commitments state (remove session_id state.commitments),
    err (
        error_response 400
          "No commitment found for this session. Call POST /api/coinflip/commit first."),
  )
  play_from session_id params state (some deployment) (some commitment) = (
    with_commitments state (remove session_id state.commitments),
    verify_reveal deployment session_id params commitment,
  )

  unfoldable pub play_coinflip :
      String → PlayQuery → AppState → AppState × Result ErrorResponse Reveal
  unfolding verify_reveal lookup remove
  play_coinflip session_id params state =
      play_from session_id params state state.coinflip (lookup session_id state.commitments)
