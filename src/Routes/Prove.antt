-- ===== src/Routes/Prove.antt =====
-- crates/snip36-server/src/routes/prove.rs. Its event `complete` is the event `result` of the flips.
use snip36_prover_web.Common.{
  ℕ, zero, suc, String, Bool, true, false, Option, none, some, List, [], ◌∷◌, Result, ok_or, ◌==◌,
  string_eq,
}
use snip36_prover_web.Common.Text.{◌+++◌, decimal}
use snip36_prover_web.Common.Json.{str, number, obj}
use snip36_prover_web.Rpc.Client.{receipt_block_number}
use snip36_prover_web.Server.State.{Session}
use snip36_prover_web.Server.Coinflip.{text, error_response}
use snip36_prover_web.Server.Task.{log, result}
use snip36_prover_web.Routes.Program.{
  Program, done, emit, ◌>>=◌, ◌>>◌, try, send, stop_with, or_stop, session_of, update_session,
}
use snip36_prover_web.Routes.World.{World, tx_within}
use snip36_prover_web.Routes.Fund.{strk_token}

-- The directory `playground` under the output directory, the paths in it and in the project, and
-- the prover's script: its start, with the lines that it prints, and the proof that it leaves.
pub record Prover : Type 0 where
  pub create_dir_all : String → Result String (Unit {0})
  pub join : String → String → String
  pub spawn : String → List String → Result String (List String)
  pub exists : String → Bool
  pub file_size : String → ℕ

abbrev pub with_prove_block : ℕ → Session → Session
with_prove_block block session = record session { prove_block = some block }

abbrev pub with_proof_file : String → Session → Session
with_proof_file file session = record session { proof_file = some file }

-- The lines of a process, but for the empty ones.
abbrev pub send_lines : List String → Program (Unit {0})
send_lines [] = done tt
send_lines (line ∷ rest) =
    let later = send_lines rest in
    elim (line == "") [ true ↦ later | false ↦ emit (log line) later ]

-- `checked_sub(1)`
abbrev pub checked_pred : ℕ → Option ℕ
checked_pred zero = none
checked_pred (suc n) = some n

module _ (w : World) (p : Prover) where
  abbrev pub output_dir : String
  output_dir = p.join w.config.output_dir "playground"

  abbrev pub proof_output : String → String
  proof_output session_id = p.join output_dir (session_id +++ ".proof")

  -- The block of the transaction: the session's, or that of the receipt.
  abbrev pub invoke_block_of : String → Option ℕ → Program (Option ℕ)
  invoke_block_of tx_hash (some block) = done (some block)
  invoke_block_of tx_hash none = do
    send (log "Waiting for tx inclusion...")
    receipt ← or_stop (tx_within w.network tx_hash 120) (λ e. text "Tx not included in time")
    done (receipt_block_number receipt)

  abbrev pub prove_args : String → String → ℕ → List String
  prove_args session_id tx_hash prove_block =
      "--block-number"
      ∷ decimal prove_block
      ∷ "--tx-hash"
      ∷ tx_hash
      ∷ "--rpc-url"
      ∷ w.config.rpc_url
      ∷ "--output"
      ∷ proof_output session_id
      ∷ "--strk-fee-token"
      ∷ strk_token
      ∷ []

  abbrev run_script : String
  run_script = p.join (p.join w.config.project_dir "scripts") "run-virtual-os.sh"

  -- The end of the task: the proof's file is noted where it exists.
  abbrev pub note_proof : String → Bool → Program (Unit {0})
  note_proof session_id true = do
    update_session session_id (with_proof_file (proof_output session_id))
    send (
        result (
          obj (
            ("proof_size", number (p.file_size (proof_output session_id)))
            ∷ ("proof_file", str (proof_output session_id))
            ∷ [])))
  note_proof session_id false = stop_with (text "Proof generation failed")

  -- The task that the handler spawns.
  unfoldable pub prove_task : String → String → Program (Unit {0})
  unfolding receipt_block_number decimal
  prove_task session_id tx_hash = do
    send (log ("Starting proof generation for " +++ tx_hash +++ "..."))
    session ← session_of session_id
    found ← invoke_block_of tx_hash session.invoke_block
    invoke_block ← or_stop (ok_or found "Could not determine block number") text
    prove_block ←
        or_stop
          (ok_or (checked_pred invoke_block)
            "Cannot prove against block before genesis (invoke_block is 0)")
          text
    send (
        log (
          "Tx included in block "
          +++ decimal invoke_block
          +++ ". Proving against block "
          +++ decimal prove_block
          +++ "..."))
    update_session session_id (with_prove_block prove_block)
    or_stop (p.create_dir_all output_dir) (λ e. text ("Failed to create output dir: " +++ e))
    lines ←
        or_stop (p.spawn run_script (prove_args session_id tx_hash prove_block))
          (λ e. text ("Failed to spawn prover: " +++ e))
    send_lines lines
    note_proof session_id (p.exists (proof_output session_id))

  -- The handler, with its task.
  unfoldable pub prove_transaction : String → Program (Unit {0})
  unfolding prove_task
  prove_transaction session_id = do
    session ← session_of session_id
    tx_hash ← try (ok_or session.last_invoke_tx (error_response 400 "No invoke tx to prove"))
    prove_task session_id tx_hash
