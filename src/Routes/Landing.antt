-- ===== src/Routes/Landing.antt =====
-- crates/snip36-server/src/routes/prove_block.rs: the last two phases of the task, and the handler.
use package.text.Mathlib.Text.{get?}
use snip36_prover_web.Common.{
  ℕ, zero, suc, String, true, false, ltb, Option, none, some, List, [], ◌∷◌, Result, ok, err,
  traverse, ok_or,
}
use snip36_prover_web.Common.Text.{◌+++◌, decimal}
use snip36_prover_web.Common.Lines.{trim}
use snip36_prover_web.Common.Json.{Json, str, number, obj}
use snip36_prover_web.Proofs.Types.{Felt}
use snip36_prover_web.Signing.Types.{SubmitParams, default_bounds}
use snip36_prover_web.Signing.Crates.{Crates}
use snip36_prover_web.Signing.Payload.{felt_from_hex, sign_error_text, sign_and_build_payload}
use snip36_prover_web.Rpc.Client.{
  RpcError, json_rpc, starknet_call, add_invoke_transaction, receipt_block_number,
}
use snip36_prover_web.Server.State.{Session}
use snip36_prover_web.Server.Coinflip.{text, rpc, error_response}
use snip36_prover_web.Server.Task.{phase, log, result}
use snip36_prover_web.Server.Run.{Constructed}
use snip36_prover_web.Routes.Program.{
  Program, done, emit, ◌>>=◌, ◌>>◌, try, send, stop_with, or_stop, session_of, update_session,
}
use snip36_prover_web.Routes.World.{World, tx_within}
use snip36_prover_web.Routes.Read.{get_counter_selector, counter_of}
use snip36_prover_web.Routes.ProveBlock.{
  Workshop, ProveBlockQuery, ProveBlock, expected_increment, proof_path, construct, prove,
}

abbrev pub with_reference_block : ℕ → Session → Session
with_reference_block block session = record session { last_reference_block = some block }

abbrev pub max_attempts : ℕ
max_attempts = 20

abbrev attempt_text : ℕ → String
attempt_text attempt = "(attempt " +++ decimal attempt +++ "/" +++ decimal max_attempts +++ ")"

-- The arms of one round of the loop; `rest` is the next round.
abbrev pub attempted :
    (Json → String) → ℕ → Result RpcError String → Program (Option String) → Program (Option String)
attempted to_string attempt (ok accepted_tx_hash) rest = do
  send (log ("RPC accepted " +++ attempt_text attempt +++ ": " +++ accepted_tx_hash))
  done (some accepted_tx_hash)
attempted to_string attempt (err (json_rpc msg)) rest = elim (ltb attempt max_attempts) [
  | true ↦
      emit
        (log (
          "RPC error " +++ attempt_text attempt +++ ", waiting 10s... (" +++ to_string msg +++ ")"))
        rest
  | false ↦ stop_with (rpc "RPC submission failed: " (json_rpc msg))
]
attempted to_string attempt (err e) rest = stop_with (rpc "RPC submission failed: " e)

-- `for attempt in 1..=max_attempts`, with the number of rounds that are left; the value is
-- `rpc_tx_hash`.
unfoldable pub submit_from :
    (Json → String) → (ℕ → Result RpcError String) → ℕ → ℕ → Program (Option String)
unfolding decimal
submit_from to_string node zero attempt = done none
submit_from to_string node (suc left) attempt =
    let rest = submit_from to_string node left (suc attempt) in
    attempted to_string attempt (node attempt) rest

unfoldable pub submit : (Json → String) → (ℕ → Result RpcError String) → Program String
unfolding submit_from
submit to_string node = do
  rpc_tx_hash ← submit_from to_string node max_attempts 1
  or_stop (ok_or rpc_tx_hash "RPC did not accept after all retries") text

abbrev pub block_or_zero : Option ℕ → ℕ
block_or_zero none = 0
block_or_zero (some n) = n

-- `hash.get(..18).unwrap_or(&hash)`
abbrev short : String → String
short hash = whole_or (get? hash 0 18)
  where
    whole_or : Option String → String
    whole_or none = hash
    whole_or (some s) = s

module _ (c : Crates) (w : World) (k : Workshop) (b : ProveBlock) where
  abbrev or_stop_text : {A : Type 0} → String → Result String A → Program A
  or_stop_text t r = or_stop r (λ e. text (t +++ e))

  abbrev pub params_of : Constructed → String → List Felt → SubmitParams
  params_of t proof_base64 proof_facts = record {
    sender_address = t.sender;
    private_key = t.private_key;
    calldata = t.calldata;
    proof_base64 = proof_base64;
    proof_facts = proof_facts;
    nonce = t.nonce;
    chain_id = t.chain_id;
    resource_bounds = default_bounds;
  }

  -- Phase 3: sign with the proof facts, and submit.
  unfoldable pub submit_signed : Constructed → Program String
  unfolding felt_from_hex sign_and_build_payload default_bounds add_invoke_transaction submit trim
  submit_signed t = do
    send (phase "submitting")
    proof_text ← or_stop_text "Failed to read proof: " (k.read_to_string (proof_path c w k b))
    proof_facts_str ←
        or_stop_text "Failed to read proof_facts: "
          (k.read_to_string (k.with_extension (proof_path c w k b) "proof_facts"))
    proof_facts_hex ←
        or_stop_text "Invalid proof_facts: " (k.parse_proof_facts_json proof_facts_str)
    proof_facts ←
        or_stop_text "Failed to parse proof_facts: " (traverse (felt_from_hex c) proof_facts_hex)
    signed ←
        or_stop (sign_and_build_payload c (params_of t (trim proof_text) proof_facts))
          (λ e. text ("SNIP-36 signing failed: " +++ sign_error_text e))
    send (log ("Submitting tx " +++ short (c.felt_hex signed.0) +++ " via RPC..."))
    submit k.to_string (λ attempt. add_invoke_transaction (w.network.net attempt) signed.1)

  -- The counter, or 0 where the call fails.
  abbrev pub counter_or_zero : Result RpcError (List String) → ℕ
  unfolding counter_of
  counter_or_zero (err e) = 0
  counter_or_zero (ok r) = counter_of r

  -- Phase 4: wait for the inclusion, note its block, and read the counter.
  unfoldable pub land : String → ℕ → Program (Unit {0})
  unfolding receipt_block_number decimal starknet_call counter_of
  land rpc_tx_hash proof_size = do
    send (phase "verifying")
    send (log "Waiting for tx inclusion...")
    receipt ← or_stop (tx_within w.network rpc_tx_hash 180) (rpc "Tx not confirmed: ")
    let bn = block_or_zero (receipt_block_number receipt)
    send (log ("Tx included in block " +++ decimal bn))
    update_session b.session_id (with_reference_block bn)
    let counter_value =
        counter_or_zero (starknet_call (w.network.net 0) b.contract_address get_counter_selector [])
    send (log ("Counter value: " +++ decimal counter_value))
    send (
        result (
          obj (
            ("tx_hash", str rpc_tx_hash)
            ∷ ("counter_value", number counter_value)
            ∷ ("proof_size", number proof_size)
            ∷ ("increment", number (expected_increment b.query))
            ∷ [])))

  unfoldable pub prove_block_task : Program (Unit {0})
  unfolding construct prove submit_signed land
  prove_block_task = do
    t ← construct c w k b
    proof_size ← prove c w k b
    rpc_tx_hash ← submit_signed t
    land rpc_tx_hash proof_size

-- `last_reference_block.or(deploy_block)`
abbrev pub reference_block_of : Session → Option ℕ
reference_block_of session = or (session.last_reference_block) session.deploy_block
  where
    or : Option ℕ → Option ℕ → Option ℕ
    or none other = other
    or (some n) other = some n

module _ (c : Crates) (w : World) (k : Workshop) where
  -- The handler, with its task.
  unfoldable pub prove_block : String → ProveBlockQuery → Program (Unit {0})
  unfolding prove_block_task
  prove_block session_id params = do
    session ← session_of session_id
    contract_address ←
        try (ok_or session.contract_address (error_response 400 "No counter contract deployed"))
    reference_block ←
        try (ok_or (reference_block_of session) (error_response 400 "Deploy block not tracked"))
    prove_block_task c w k (record {
      session_id = session_id;
      contract_address = contract_address;
      reference_block = reference_block;
      query = params;
    })
