-- ===== src/Routes/Endings.antt =====
-- crates/snip36-server/src/routes/prove.rs and prove_block.rs: how the streams of the tasks end.
use snip36_prover_web.Common.{
  ℕ, String, Bool, true, false, Option, none, some, Result, ok_or, not, ◌||◌, if◌then◌else◌,
}
use snip36_prover_web.Common.Text.{◌+++◌}
use snip36_prover_web.Common.Json.{Json}
use snip36_prover_web.Signing.Crates.{Crates}
use snip36_prover_web.Rpc.Client.{RpcError, add_invoke_transaction}
use snip36_prover_web.Server.Coinflip.{text}
use snip36_prover_web.Server.Task.{log}
use snip36_prover_web.Server.Run.{Constructed}
use snip36_prover_web.Routes.Program.{done, send, stop_with}
use snip36_prover_web.Routes.World.{World}
use snip36_prover_web.Routes.Prove.{
  Prover, prove_task, invoke_block_of, note_proof, send_lines, with_prove_block, with_proof_file,
  proof_output,
}
use snip36_prover_web.Routes.ProveBlock.{
  Workshop, ProveBlock, construct, prove, messages_file, proof_path,
}
use snip36_prover_web.Routes.Landing.{
  submit_from, submit, submit_signed, land, prove_block_task, with_reference_block,
}
use snip36_prover_web.Routes.Streams.{
  Streams, EndsOnce, Streams-bind, Streams-or_stop, Streams-or_stop_last, Streams-if,
  Streams-session_of, Streams-update_session, Streams-send_lines, Streams-submit_from,
}

module _ (w : World) (p : Prover) (id : String) where
  Streams-invoke_block_of :
      (tx_hash : String) (block : Option ℕ) → Streams Unit (invoke_block_of w p tx_hash block)
  Streams-invoke_block_of tx_hash (some block) = tt
  Streams-invoke_block_of tx_hash none = Streams-or_stop Unit _ _ _ λ receipt. tt

  EndsOnce-note_proof : (exists : Bool) → EndsOnce (note_proof w p id exists)
  EndsOnce-note_proof true =
      Streams-update_session ⊥ id (with_proof_file (proof_output w p id)) _ (tt, λ x. x)
  EndsOnce-note_proof false = tt

  -- Whatever the other handlers do to the state meanwhile, every run of the task of prove sends
  -- exactly one error or result, as its last event.
  pub prove_task-EndsOnce : (tx_hash : String) → EndsOnce (prove_task w p id tx_hash)
  unfolding prove_task
  prove_task-EndsOnce tx_hash = Streams-session_of ⊥ id _ λ session.
      Streams-bind ⊥ (invoke_block_of w p tx_hash session.invoke_block) _
        (Streams-invoke_block_of tx_hash session.invoke_block)
        λ found. Streams-or_stop ⊥ _ _ _ λ invoke_block. Streams-or_stop ⊥ _ _ _ λ block.
          Streams-update_session ⊥ id (with_prove_block block) _ (
            Streams-or_stop ⊥ _ _ _ λ made. Streams-or_stop ⊥ _ _ _ λ lines.
              Streams-bind ⊥ (send_lines lines) _ (Streams-send_lines lines)
                λ sent. EndsOnce-note_proof (p.exists (proof_output w p id)))

Streams-submit :
    (to_string : Json → String) (node : ℕ → Result RpcError String)
    → Streams Unit (submit to_string node)
unfolding submit
Streams-submit to_string node =
    Streams-bind Unit (submit_from to_string node 20 1) _ (Streams-submit_from to_string node 20 1)
      λ hash. Streams-or_stop_last (ok_or hash "RPC did not accept after all retries") text

module _ (c : Crates) (w : World) (k : Workshop) (b : ProveBlock) where
  Streams-construct : Streams Unit (construct c w k b)
  unfolding construct
  Streams-construct = Streams-or_stop Unit _ _ _ λ a. Streams-or_stop Unit _ _ _ λ a.
      Streams-or_stop Unit _ _ _ λ a. Streams-or_stop Unit _ _ _ λ a.
        Streams-or_stop Unit _ _ _ λ a.
          Streams-or_stop Unit _ _ _
            λ a. Streams-or_stop Unit _ _ _ λ a. Streams-or_stop Unit _ _ _ λ a. tt

  Streams-prove : Streams Unit (prove c w k b)
  unfolding prove
  Streams-prove = Streams-or_stop Unit _ _ _ λ finished.
      Streams-bind Unit (send_lines finished.0) _ (Streams-send_lines finished.0) λ u.
        Streams-bind Unit
          (if not finished.1 || not (k.surroundings.exists (proof_path c w k b))
            then stop_with (text "Proof generation failed")
            else done tt)
          _
          (Streams-if Unit (not finished.1 || not (k.surroundings.exists (proof_path c w k b))) _ _
            tt tt)
          λ u.
            Streams-bind Unit
              (if k.surroundings.exists (messages_file c w k b)
                then send (log ("L2→L1 messages saved: " +++ messages_file c w k b))
                else done tt)
              _ (Streams-if Unit (k.surroundings.exists (messages_file c w k b)) _ _ tt tt) λ u. tt

  Streams-submit_signed : (t : Constructed) → Streams Unit (submit_signed c w k b t)
  unfolding submit_signed
  Streams-submit_signed t = Streams-or_stop Unit _ _ _ λ a. Streams-or_stop Unit _ _ _ λ a.
      Streams-or_stop Unit _ _ _ λ a. Streams-or_stop Unit _ _ _ λ a.
        Streams-or_stop Unit _ _ _ λ signed.
          Streams-submit k.to_string
            (λ attempt. add_invoke_transaction (w.network.net attempt) signed.1)

  EndsOnce-land : (tx_hash : String) (size : ℕ) → EndsOnce (land c w k b tx_hash size)
  unfolding land
  EndsOnce-land tx_hash size =
      Streams-or_stop ⊥ _ _ _
        λ receipt. Streams-update_session ⊥ b.session_id (with_reference_block _) _ (tt, λ x. x)

  -- Whatever the other handlers do to the state meanwhile, every run of the task of prove_block
  -- sends exactly one error or result, as its last event.
  pub prove_block_task-EndsOnce : EndsOnce (prove_block_task c w k b)
  unfolding prove_block_task
  prove_block_task-EndsOnce = Streams-bind ⊥ (construct c w k b) _ Streams-construct λ t.
      Streams-bind ⊥ (prove c w k b) _ Streams-prove λ size.
        Streams-bind ⊥ (submit_signed c w k b t) _ (Streams-submit_signed t)
          λ hash. EndsOnce-land hash size
