-- ===== src/Examples/Flipping.antt =====
-- A gateway that is not ready twice, and a task that is stopped by the prover.
use snip36_prover_web.Common.{
  ℕ, ◌≤◌, ◌<◌, leb, true, false, if◌then◌else◌, String, none, some, List, [], ◌∷◌, ◌++◌, All, ok,
  err, ◌≡◌, refl, ◌⊎◌,
}
use snip36_prover_web.Common.Json.{Json, str, obj}
use snip36_prover_web.Server.Coinflip.{Reveal}
use snip36_prover_web.Server.Flip.{FlipWorld, submit}
use snip36_prover_web.Server.Task.{Event, log, Streamed, closed, task, stderr_line}
use snip36_prover_web.Server.Run.{short, run_flip}
use snip36_prover_web.Server.Submitting.{Gateway, Waits, IsLast, is_accepting, submit_lem}
use snip36_prover_web.Server.Streaming.{HasOneEnd, IsLog, run_flip-HasOneEnd}
use snip36_prover_web.Examples.Signing.{residues}

abbrev gateway : Gateway
gateway n =
    if leb n 2
    then ok (ok (obj (("message", str "block is too recent") ∷ [])))
    else ok (ok (obj (("code", str "TRANSACTION_RECEIVED") ∷ [])))

submit_lem_example :
    (n : ℕ) × (1 ≤ n)
    × (n ≤ 20)
    × ((j : ℕ) → 1 ≤ j → j < n → Waits gateway j)
    × IsLast gateway n
    × ((((submit gateway).value ≡ some tt) × (is_accepting gateway n ≡ true))
        ⊎ (((submit gateway).value ≡ none) × (is_accepting gateway n ≡ false)))
submit_lem_example = submit_lem gateway

abbrev world : FlipWorld
world = record {
  account_address = "0x7";
  private_key = "0x3";
  chain_id = ok 5;
  nonce = ok 12;
  write_transaction = λ t. ok tt;
  snip36_bin = "snip36";
  prover = ok false;
  proof_size = 0;
  messages = none;
  proof = err "no such file";
  proof_facts = err "no such file";
  parse_proof_facts_json = λ t. ok [];
  gateway_url = some "http://gateway";
  gateway = λ payload. gateway;
  wait_for_tx = λ h. ok Json.null;
}

abbrev reveal : Reveal
reveal = record {
  deployment = record { contract_address = "0xc"; class_hash = "0xd"; deploy_block = 1 };
  session_id = "s1";
  player = "0xa";
  bet = 1;
  seed_block = 41;
}

abbrev sent : List Event
sent = (run_flip residues world reveal).events

-- The 18th byte is the first of two.
test_cut : short "aaaaaaaaaaaaaaaaaλ" ≡ none
test_cut = refl

-- A line that is read after the last event of the task.
late : (line : String) (es : List Event) → Streamed es [] (line ∷ []) (es ++ log line ∷ [])
late line [] = stderr_line line [] [] [] [] closed
late line (e ∷ es) = task e es (es ++ log line ∷ []) [] (line ∷ []) (late line es)

run_flip-HasOneEnd_example :
    ((shown : String) × (short "0xa" ≡ some shown) × HasOneEnd (sent ++ log "out of memory" ∷ []))
    ⊎ ((short "0xa" ≡ none) × All IsLog (sent ++ log "out of memory" ∷ []))
run_flip-HasOneEnd_example =
    run_flip-HasOneEnd residues world reveal [] ("out of memory" ∷ [])
      (sent ++ log "out of memory" ∷ []) (late "out of memory" sent)
