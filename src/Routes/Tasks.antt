-- ===== src/Routes/Tasks.antt =====
-- The handlers that submit and prove are safe.
use snip36_prover_web.Common.{
  ℕ, String, Bool, true, false, Option, none, some, List, [], ◌∷◌, Result, ok, err, refl, ◌==◌,
  string_eq, Bool-cases, inl, inr, zero, suc, ltb,
}
use snip36_prover_web.Common.Json.{Json}
use snip36_prover_web.Signing.Crates.{Crates}
use snip36_prover_web.Rpc.Client.{RpcError, json_rpc}
use snip36_prover_web.Server.State.{AppState}
use snip36_prover_web.Routes.Program.{Program}
use snip36_prover_web.Routes.World.{World}
use snip36_prover_web.Routes.Submit.{Files, submit_params, submit_proof}
use snip36_prover_web.Routes.Prove.{
  Prover, prove_task, prove_transaction, invoke_block_of, note_proof, send_lines, with_prove_block,
  with_proof_file, proof_output,
}
use snip36_prover_web.Routes.Landing.{attempted, submit_from}
use snip36_prover_web.Routes.Sessions.{session_at, Has, Grows-trans}
use snip36_prover_web.Routes.Safe.{
  Safe, Safe-bind, Safe-try, Safe-or_stop, Safe-session_of, Safe-update_session,
}
use snip36_prover_web.Routes.Kept.{ok_or-Has, with_prove_block-Kept, with_proof_file-Kept}

module _ (c : Crates) (w : World) (f : Files) where
  submit_params-Safe :
      (s : AppState) (file contract account : String)
      → Safe s (submit_params c w f file contract account)
  unfolding submit_params
  submit_params-Safe s file contract account = Safe-try s _ _ λ a h. Safe-try s _ _ λ a h.
      Safe-try s _ _ λ a h. Safe-try s _ _ λ a h. Safe-try s _ _ λ a h. Safe-try s _ _ λ a h.
        Safe-try s _ _ λ a h. Safe-try s _ _ λ a h. Safe-try s _ _ λ a h. Safe-try s _ _ λ a h. tt

  pub submit_proof-Safe : (s : AppState) (id : String) → Safe s (submit_proof c w f id)
  unfolding submit_proof
  submit_proof-Safe s id = Safe-session_of s id _ λ t u g k consistent. Safe-try u _ _ λ file h.
      Safe-try u _ _ λ exists h. Safe-try u _ _ λ contract h.
        Safe-bind (submit_params c w f file contract w.config.account_address) _ u
          (submit_params-Safe u file contract w.config.account_address)
          λ v params i. Safe-try v _ _ λ signed h. Safe-try v _ _ λ hash h. tt

pub send_lines-Safe : (s : AppState) (lines : List String) → Safe s (send_lines lines)
send_lines-Safe s [] = tt
send_lines-Safe s (line ∷ lines) = elim (Bool-cases (line == "")) [
  | inl empty ↦ rw (empty, Safe) (send_lines-Safe s lines)
  | inr full ↦ rw (full, Safe) (send_lines-Safe s lines)
]

module _ (w : World) (p : Prover) (id : String) where
  invoke_block_of-Safe :
      (s : AppState) (tx_hash : String) (block : Option ℕ)
      → Safe s (invoke_block_of w p tx_hash block)
  invoke_block_of-Safe s tx_hash (some block) = tt
  invoke_block_of-Safe s tx_hash none = Safe-or_stop s _ _ _ λ receipt h. tt

  note_proof-Safe :
      (s : AppState) (exists : Bool)
      → Has (session_at s id).prove_block
      → Safe s (note_proof w p id exists)
  note_proof-Safe s false h = tt
  note_proof-Safe s true h =
      Safe-update_session s id (with_proof_file (proof_output w p id)) _
        (λ t g c.
          with_proof_file-Kept (session_at t id) (c id) (proof_output w p id) ((g id).block h))
        (λ t u g e. tt)

  prove_task-Safe :
      (s : AppState) (tx_hash : String)
      → Has (session_at s id).last_invoke_tx
      → Safe s (prove_task w p id tx_hash)
  unfolding prove_task
  prove_task-Safe s tx_hash tx = Safe-session_of s id _ λ t u g k c.
      Safe-bind (invoke_block_of w p tx_hash (session_at t id).invoke_block) _ u
        (invoke_block_of-Safe u tx_hash (session_at t id).invoke_block)
        λ v found i. Safe-or_stop v _ _ _ λ invoke_block h. Safe-or_stop v _ _ _ λ block h.
          Safe-update_session v id (with_prove_block block) _
            (λ x j d.
              with_prove_block-Kept (session_at x id) (d id) block
                ((Grows-trans s v x (Grows-trans s u v (Grows-trans s t u g k) i) j id).tx tx))
            λ x y j e. Safe-or_stop y _ _ _ λ made h. Safe-or_stop y _ _ _ λ lines h.
              Safe-bind (send_lines lines) _ y (send_lines-Safe y lines) λ z sent l.
                note_proof-Safe z (p.exists (proof_output w p id)) ((l id).block (rw e refl))

  pub prove_transaction-Safe : (s : AppState) → Safe s (prove_transaction w p id)
  unfolding prove_transaction
  prove_transaction-Safe s = Safe-session_of s id _ λ t u g k c.
      Safe-try u _ _ λ tx_hash tx. prove_task-Safe u tx_hash ((k id).tx (ok_or-Has _ _ tx))

pub submit_from-Safe :
    (s : AppState) (to_string : Json → String) (node : ℕ → Result RpcError String)
    (left attempt : ℕ)
    → Safe s (submit_from to_string node left attempt)
unfolding submit_from
submit_from-Safe s to_string node zero attempt = tt
submit_from-Safe s to_string node (suc left) attempt =
    round (node attempt) (submit_from to_string node left (suc attempt))
      (submit_from-Safe s to_string node left (suc attempt))
  where
    round :
        (r : Result RpcError String) (rest : Program (Option String))
        → Safe s rest
        → Safe s (attempted to_string attempt r rest)
    round (ok hash) rest h = tt
    round (err (RpcError.http e)) rest h = tt
    round (err (RpcError.unexpected t e)) rest h = tt
    round (err (RpcError.tx_timeout t n)) rest h = tt
    round (err (RpcError.tx_rejected e)) rest h = tt
    round (err (RpcError.block_timeout a b)) rest h = tt
    round (err (json_rpc msg)) rest h = elim (Bool-cases (ltb attempt 20)) [
      | inl again ↦ rw (again, Safe) h
      | inr over ↦ rw (over, Safe) tt
    ]
