-- ===== src/Routes/Cycle.antt =====
-- The handler `prove_block` and its task are safe.
use snip36_prover_web.Common.{ℕ, String, Bool, true, false, Result, ok_or, not, ◌||◌, if◌then◌else◌}
use snip36_prover_web.Common.Text.{◌+++◌}
use snip36_prover_web.Common.Json.{Json}
use snip36_prover_web.Signing.Crates.{Crates}
use snip36_prover_web.Rpc.Client.{RpcError, receipt_block_number, add_invoke_transaction}
use snip36_prover_web.Server.State.{AppState}
use snip36_prover_web.Server.Coinflip.{text}
use snip36_prover_web.Server.Task.{log}
use snip36_prover_web.Server.Run.{Constructed}
use snip36_prover_web.Routes.Program.{Program, done, send, stop_with}
use snip36_prover_web.Routes.World.{World}
use snip36_prover_web.Routes.Prove.{send_lines}
use snip36_prover_web.Routes.ProveBlock.{
  Workshop, ProveBlockQuery, ProveBlock, construct, prove, messages_file, proof_path,
}
use snip36_prover_web.Routes.Landing.{
  submit_from, submit, submit_signed, land, prove_block_task, prove_block, with_reference_block,
  block_or_zero,
}
use snip36_prover_web.Routes.Sessions.{session_at, Has, Grows-trans}
use snip36_prover_web.Routes.Safe.{
  Safe, Safe-bind, Safe-try, Safe-or_stop, Safe-or_stop_last, Safe-session_of, Safe-update_session,
}
use snip36_prover_web.Routes.Kept.{ok_or-Has, with_reference_block-Kept}
use snip36_prover_web.Routes.Tasks.{submit_from-Safe, send_lines-Safe}

-- Either of two programs is safe where both are.
if-Safe :
    {A : Type 0} (s : AppState) (b : Bool) (p q : Program A)
    → Safe s p
    → Safe s q
    → Safe s (if b then p else q)
if-Safe s true p q h k = h
if-Safe s false p q h k = k

submit-Safe :
    (s : AppState) (to_string : Json → String) (node : ℕ → Result RpcError String)
    → Safe s (submit to_string node)
unfolding submit
submit-Safe s to_string node =
    Safe-bind (submit_from to_string node 20 1) _ s (submit_from-Safe s to_string node 20 1)
      λ u hash g. Safe-or_stop_last u (ok_or hash "RPC did not accept after all retries") text

module _ (c : Crates) (w : World) (k : Workshop) (b : ProveBlock) (s : AppState) where
  construct-Safe : Safe s (construct c w k b)
  unfolding construct
  construct-Safe = Safe-or_stop s _ _ _ λ a h. Safe-or_stop s _ _ _ λ a h.
      Safe-or_stop s _ _ _ λ a h. Safe-or_stop s _ _ _ λ a h. Safe-or_stop s _ _ _ λ a h.
        Safe-or_stop s _ _ _ λ a h. Safe-or_stop s _ _ _ λ a h. Safe-or_stop s _ _ _ λ a h. tt

  prove-Safe : Safe s (prove c w k b)
  unfolding prove
  prove-Safe = Safe-or_stop s _ _ _ λ finished h.
      Safe-bind (send_lines finished.0) _ s (send_lines-Safe s finished.0) λ t u g.
        Safe-bind
          (if not finished.1 || not (k.surroundings.exists (proof_path c w k b))
            then stop_with (text "Proof generation failed")
            else done tt)
          _ t
          (if-Safe t (not finished.1 || not (k.surroundings.exists (proof_path c w k b))) _ _ tt tt)
          λ u v i.
            Safe-bind
              (if k.surroundings.exists (messages_file c w k b)
                then send (log ("L2→L1 messages saved: " +++ messages_file c w k b))
                else done tt)
              _ u (if-Safe u (k.surroundings.exists (messages_file c w k b)) _ _ tt tt) λ x y j. tt

  submit_signed-Safe : (t : Constructed) → Safe s (submit_signed c w k b t)
  unfolding submit_signed
  submit_signed-Safe t = Safe-or_stop s _ _ _ λ a h. Safe-or_stop s _ _ _ λ a h.
      Safe-or_stop s _ _ _ λ a h. Safe-or_stop s _ _ _ λ a h. Safe-or_stop s _ _ _ λ signed h.
        submit-Safe s k.to_string
          (λ attempt. add_invoke_transaction (w.network.net attempt) signed.1)

  land-Safe :
      (tx_hash : String) (proof_size : ℕ)
      → Has (session_at s b.session_id).contract_address
      → Safe s (land c w k b tx_hash proof_size)
  unfolding land
  land-Safe tx_hash proof_size h = Safe-or_stop s _ _ _ λ receipt e.
      Safe-update_session s b.session_id
        (with_reference_block (block_or_zero (receipt_block_number receipt))) _
        (λ t g consistent.
          with_reference_block-Kept (session_at t b.session_id) (consistent b.session_id)
            (block_or_zero (receipt_block_number receipt)) ((g b.session_id).contract h))
        (λ t u g e. tt)

module _ (c : Crates) (w : World) (k : Workshop) where
  task-Safe :
      (b : ProveBlock) (s : AppState)
      → Has (session_at s b.session_id).contract_address
      → Safe s (prove_block_task c w k b)
  unfolding prove_block_task
  task-Safe b s h = Safe-bind (construct c w k b) _ s (construct-Safe c w k b s) λ t constructed g.
      Safe-bind (prove c w k b) _ t (prove-Safe c w k b t) λ u size i.
        Safe-bind (submit_signed c w k b constructed) _ u (submit_signed-Safe c w k b u constructed)
          λ v hash j.
            land-Safe c w k b v hash size
              ((Grows-trans s u v (Grows-trans s t u g i) j b.session_id).contract h)

  pub prove_block-Safe :
      (s : AppState) (id : String) (params : ProveBlockQuery) → Safe s (prove_block c w k id params)
  unfolding prove_block
  prove_block-Safe s id params = Safe-session_of s id _ λ t u g i consistent.
      Safe-try u _ _ λ contract h.
        Safe-try u _ _ λ reference_block e. task-Safe _ u ((i id).contract (ok_or-Has _ _ h))
