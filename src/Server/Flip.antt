-- ===== src/Server/Flip.antt =====
-- crates/snip36-server/src/routes/coinflip.rs: the task that `play_coinflip` spawns.
use package.text.Mathlib.Text.{find?}
use snip36_prover_web.Common.{
  ℕ, zero, suc, String, Bool, true, false, ◌&&◌, ◌||◌, ltb, nat_beq, ◌==◌, string_eq, if◌then◌else◌,
  Option, none, some, List, Result, ok, err,
}
use snip36_prover_web.Common.Text.{◌+++◌, decimal}
use snip36_prover_web.Common.Json.{Json, get, as_str}
use snip36_prover_web.Proofs.Types.{Felt}
use snip36_prover_web.Rpc.Client.{RpcError}
use snip36_prover_web.Server.Coinflip.{Detail, text}
use snip36_prover_web.Server.Task.{log, Ran, pure, send, fail, ◌>->◌, ◌>+>◌}

-- The configuration, the node, the files, the prover's process and the gateway, as the task meets
-- them. An error is the text that it displays.
pub record FlipWorld : Type 0 where
  pub account_address : String
  pub private_key : String
  -- `Config::chain_id_felt`
  pub chain_id : Result String Felt
  -- `get_nonce_at_block` for the account at the reference block
  pub nonce : Result RpcError ℕ
  pub write_transaction : Json → Result String (Unit {0})
  -- `find_snip36_bin`
  pub snip36_bin : String
  -- the start of the prover, and whether it succeeds
  pub prover : Result String Bool
  pub proof_size : ℕ
  -- the messages file, where it exists and parses
  pub messages : Option Json
  -- the proof file without the space around it, and the file of the proof facts
  pub proof : Result String String
  pub proof_facts : Result String String
  pub parse_proof_facts_json : String → Result String (List String)
  pub gateway_url : Option String
  -- the gateway's answer to each attempt at a payload: the request fails, or the body cannot be read, or a body
  pub gateway : Json → ℕ → Result String (Result String Json)
  pub wait_for_tx : String → Result RpcError Json

abbrev pub play_selector : String
play_selector = "0x21c4a0db2b08b026c4e31bf76d5dd9b92aa54c0978df57474355786073775e8"

abbrev pub side : ℕ → String
side bet = if nat_beq bet 0 then "heads" else "tails"

-- `unwrap_or("")` on a field that should be a string
abbrev pub text_at : String → Json → String
text_at key body = or_empty_text (get key body)
  where
    known : Option String → String
    known none = ""
    known (some s) = s

    or_empty_text : Option Json → String
    or_empty_text none = ""
    or_empty_text (some v) = known (as_str v)

abbrev found : Option ℕ → Bool
found none = false
found (some n) = true

-- The gateway has accepted the transaction.
unfoldable pub is_received : Json → Bool
is_received body = text_at "code" body == "TRANSACTION_RECEIVED"

-- The gateway does not know the reference block yet.
unfoldable pub is_not_ready : Json → Bool
is_not_ready body =
    found (find? (text_at "message" body) "too recent")
    || found (find? (text_at "message" body) "stored block hash: 0")

abbrev pub max_attempts : ℕ
max_attempts = 20

abbrev attempt_text : ℕ → String
attempt_text attempt = "(attempt " +++ decimal attempt +++ "/" +++ decimal max_attempts +++ ")"

-- The arms of one round of the loop; `rest` is the next round.
abbrev pub attempted : ℕ → Result String (Result String Json) → Ran Bool → Ran Bool
attempted attempt (err e) rest = fail (text ("Request failed: " +++ e))
attempted attempt (ok (err e)) rest = fail (text ("Failed to read response: " +++ e))
attempted attempt (ok (ok body)) rest =
    if is_received body
    then send (log ("Accepted " +++ attempt_text attempt)) >+> pure true
    else if is_not_ready body && ltb attempt max_attempts
    then send (log ("Not ready " +++ attempt_text attempt +++ ", waiting 10s...")) >+> rest
    else fail (Detail.shown "Rejected: " body)

-- `for attempt in 1..=max_attempts`, with the number of rounds that are left; the value is `accepted`.
unfoldable pub submit_from : (ℕ → Result String (Result String Json)) → ℕ → ℕ → Ran Bool
unfolding is_received is_not_ready decimal
submit_from gateway zero attempt = pure false
submit_from gateway (suc left) attempt =
    let rest = submit_from gateway left (suc attempt) in attempted attempt (gateway attempt) rest

unfoldable pub submit : (ℕ → Result String (Result String Json)) → Ran (Unit {0})
unfolding submit_from
submit gateway = submit_from gateway max_attempts 1 >-> λ accepted.
    if accepted then pure tt else fail (text "Not accepted after all retries")
