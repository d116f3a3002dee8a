-- ===== src/Server/Run.antt =====
-- crates/snip36-server/src/routes/coinflip.rs: the phases of the task that `play_coinflip` spawns.
use Prim.Native.String.{slice, len}
use package.text.Mathlib.Text.{get?}
use snip36_prover_web.Common.{
  ℕ, min, String, Bool, false, ◌==◌, string_eq, if◌then◌else◌, Option, none, some, List, [], ◌∷◌,
  Result, traverse,
}
use snip36_prover_web.Common.Text.{◌+++◌, decimal, hex}
use snip36_prover_web.Common.Json.{
  Json, str, bool, number, obj, get, as_array, Items, no_items, item,
}
use snip36_prover_web.Proofs.Types.{Felt}
use snip36_prover_web.Signing.Types.{default_bounds, zero_fee, SubmitParams}
use snip36_prover_web.Signing.Crates.{Crates}
use snip36_prover_web.Signing.TxHash.{compute_invoke_v3_tx_hash}
use snip36_prover_web.Signing.Payload.{
  felt_from_hex, sign, sign_error_text, signature_hex, invoke_fields, sign_and_build_payload,
}
use snip36_prover_web.Rpc.Client.{RpcError, texts, receipt_block_number}
use snip36_prover_web.Server.Coinflip.{text, rpc, Reveal}
use snip36_prover_web.Server.Task.{
  phase, log, result, Ran, pure, send, sends, fail, ◌>->◌, ◌>+>◌, or_fail, or_panic,
}
use snip36_prover_web.Server.Flip.{FlipWorld, play_selector, side, submit}

-- What the first phase leaves for the later ones.
pub record Constructed : Type 0 where
  pub sender : Felt
  pub private_key : Felt
  pub calldata : List Felt
  pub chain_id : Felt
  pub nonce : Felt

abbrev pub or_fail_text : {A : Type 0} → Result String A → String → Ran A
or_fail_text r t = or_fail r (λ e. text (t +++ e))

-- `&player[..player.len().min(18)]`: none, where this ends inside a character, is a panic.
abbrev pub short : String → Option String
short player = get? player 0 (min (len player) 18)

-- The settlement message: the outcome's label, and whether the player has won.
abbrev pub settled_by : List String → Ran (String × Bool)
settled_by (a ∷ b ∷ c ∷ d ∷ e ∷ rest) =
    let label = if d == "0x0" then "heads" else "tails" in
    let won = e == "0x1" in
    send (log ("Settlement: outcome=" +++ label +++ " won=" +++ (if won then "true" else "false")))
    >+> pure (label, won)
settled_by _ = pure ("", false)

abbrev pub payload_of : Option Items → Ran (String × Bool)
payload_of none = pure ("", false)
payload_of (some fields) = settled_by (texts fields)

abbrev pub as_array_of : Option Json → Option Items
as_array_of none = none
as_array_of (some v) = as_array v

abbrev pub first_message : Option Items → Ran (String × Bool)
first_message none = pure ("", false)
first_message (some no_items) = pure ("", false)
first_message (some (item first rest)) = payload_of (as_array_of (get "payload" first))

unfoldable pub parse_settlement : Option Json → Ran (String × Bool)
parse_settlement none = pure ("", false)
parse_settlement (some messages) = first_message (as_array_of (get "l2_to_l1_messages" messages))

abbrev pub gateway_or_fail : Option String → Ran (Unit {0})
gateway_or_fail none = fail (text "STARKNET_GATEWAY_URL is required for coinflip submission")
gateway_or_fail (some url) = pure tt

module _ (c : Crates) (w : FlipWorld) (r : Reveal) where
  abbrev seed : String
  seed = hex r.seed_block

  abbrev pub calldata_strs : List String
  calldata_strs =
      "0x1"
      ∷ r.deployment.contract_address
      ∷ play_selector
      ∷ "0x3"
      ∷ seed
      ∷ r.player
      ∷ hex r.bet
      ∷ []

  abbrev or_fail_rpc : {A : Type 0} → Result RpcError A → String → Ran A
  or_fail_rpc m t = or_fail m (rpc t)

  -- Phase 1: construct and sign the transaction, and write it for the prover.
  unfoldable pub construct : Ran Constructed
  unfolding hex decimal felt_from_hex compute_invoke_v3_tx_hash sign invoke_fields zero_fee
  construct = or_panic (short r.player) >-> λ shown_player.
      sends (
        log (
          "CoinFlip: player="
          +++ shown_player
          +++ " bet="
          +++ decimal r.bet
          +++ " ("
          +++ side r.bet
          +++ ")")
        ∷ phase "constructing"
        ∷ [])
      >-> λ u.
          or_fail_text (traverse (felt_from_hex c) calldata_strs) "Failed to parse calldata: "
          >-> λ calldata.
              or_fail_text (felt_from_hex c w.account_address) "Invalid sender address: "
              >-> λ sender.
                  or_fail_text (felt_from_hex c w.private_key) "Invalid private key: "
                  >-> λ private_key. or_fail_text w.chain_id "Invalid chain_id: " >-> λ chain_id.
                      or_fail_rpc w.nonce "Failed to get nonce: " >-> λ nonce.
                      let nonce_felt = c.felt_from nonce in
                      let standard_tx_hash =
                        compute_invoke_v3_tx_hash c sender calldata chain_id nonce_felt 0 zero_fee
                          [] [] 0 0 [] in
                      or_fail (sign c private_key standard_tx_hash)
                        (λ e. text ("Signing failed: " +++ sign_error_text e))
                      >-> λ sig.
                          let tx_json = obj (
                            invoke_fields w.account_address calldata_strs (hex nonce) zero_fee
                              (signature_hex c sig)) in
                          or_fail_text (w.write_transaction tx_json) "Failed to write tx JSON: "
                          >-> λ u.
                              sends (
                                log (
                                  "Transaction constructed (nonce: "
                                  +++ decimal nonce
                                  +++ ", seed: "
                                  +++ seed
                                  +++ ")")
                                ∷ [])
                              >-> λ u. pure (record {
                                sender = sender;
                                private_key = private_key;
                                calldata = calldata;
                                chain_id = chain_id;
                                nonce = nonce_felt;
                              })

  -- Phase 2: run the prover, and read the settlement message. What the prover prints is sent by
  -- the two readers of `Streamed`.
  unfoldable pub prove : Ran (String × Bool)
  unfolding decimal parse_settlement
  prove =
      sends
        (phase "proving" ∷ log ("Proving against block " +++ decimal r.seed_block +++ "...") ∷ [])
      >-> λ u.
          or_fail_text w.prover ("Failed to spawn prover (" +++ w.snip36_bin +++ "): ")
          >-> λ success.
              (if success then pure tt else fail (text "Proof generation failed")) >-> λ u.
              sends (log ("Proof generated (" +++ decimal w.proof_size +++ " bytes)") ∷ []) >-> λ u.
              parse_settlement w.messages

  abbrev pub params_of : Constructed → String → List Felt → SubmitParams
  params_of t proof_b64 facts = record {
    sender_address = t.sender;
    private_key = t.private_key;
    calldata = t.calldata;
    proof_base64 = proof_b64;
    proof_facts = facts;
    nonce = t.nonce;
    chain_id = t.chain_id;
    resource_bounds = default_bounds;
  }

  -- The submission of the signed payload; the value is the hash.
  unfoldable pub submit_signed : Felt × Json → Ran String
  unfolding submit
  submit_signed (gw_tx_hash, payload) =
      let gw_tx_hash_hex = c.felt_hex gw_tx_hash in
      gateway_or_fail w.gateway_url >-> λ u.
      sends (
        log ("Submitting tx " +++ slice gw_tx_hash_hex 0 (min (len gw_tx_hash_hex) 18) +++ "...")
        ∷ [])
      >-> λ u. submit (w.gateway payload) >-> λ u. pure gw_tx_hash_hex

  -- Phase 3: sign with the proof facts, and submit to the gateway.
  unfoldable pub submit_proof : Constructed → Ran String
  unfolding felt_from_hex sign_and_build_payload default_bounds submit_signed
  submit_proof t = sends (phase "submitting" ∷ []) >-> λ u.
      or_fail_text w.proof "Failed to read proof: " >-> λ proof_b64.
      or_fail_text w.proof_facts "Failed to read proof_facts: " >-> λ facts_text.
      or_fail_text (w.parse_proof_facts_json facts_text) "Invalid proof_facts: " >-> λ facts_hex.
      or_fail_text (traverse (felt_from_hex c) facts_hex) "Failed to parse proof_facts: "
      >-> λ facts.
          or_fail (sign_and_build_payload c (params_of t proof_b64 facts))
            (λ e. text ("SNIP-36 signing failed: " +++ sign_error_text e))
          >-> submit_signed

  abbrev block_or_zero : Option ℕ → ℕ
  block_or_zero none = 0
  block_or_zero (some n) = n

  -- Phase 4: wait for the transaction to be included.
  unfoldable pub verify : String → Ran (Unit {0})
  unfolding receipt_block_number decimal
  verify tx_hash = sends (phase "verifying" ∷ log "Waiting for tx inclusion..." ∷ []) >-> λ u.
      or_fail_rpc (w.wait_for_tx tx_hash) "Tx not confirmed: " >-> λ receipt.
      send
        (log ("Tx included in block " +++ decimal (block_or_zero (receipt_block_number receipt))))

  abbrev pub result_json : String × Bool → String → Json
  result_json (outcome, won) tx_hash = obj (
      ("outcome", str outcome)
      ∷ ("bet", str (side r.bet))
      ∷ ("won", bool won)
      ∷ ("tx_hash", str tx_hash)
      ∷ ("proof_size", number w.proof_size)
      ∷ ("seed", str seed)
      ∷ ("player", str r.player)
      ∷ [])

  unfoldable pub run_flip : Ran (Unit {0})
  unfolding construct prove submit_proof verify hex
  run_flip = construct >-> λ t. prove >-> λ settlement. submit_proof t >-> λ tx_hash.
      verify tx_hash >-> λ u. send (result (result_json settlement tx_hash))
