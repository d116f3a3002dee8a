-- ===== src/Routes/Predecessor.antt =====
-- crates/snip36-server/src/routes/invoke.rs and prove.rs, one after the other: the block that a
-- transaction is proved against.
use snip36_prover_web.Common.{
  ℕ, zero, suc, String, Bool, true, false, Option, none, some, Result, ok, err, ◌≡◌, refl, sym, ap,
  ◌∙◌, subst, string_eq,
}
use snip36_prover_web.Common.Json.{Json}
use snip36_prover_web.Rpc.Client.{RpcError, receipt_block_number}
use snip36_prover_web.Server.State.{AppState, Session, get_session, update_session_with}
use snip36_prover_web.Server.Coinflip.{Detail}
use snip36_prover_web.Routes.Program.{Program, ◌>>=◌, or_stop, session_of, update_session, Ran, run}
use snip36_prover_web.Routes.World.{World, tx_within}
use snip36_prover_web.Routes.Invoke.{
  InvokeRequest, InvokeResponse, invoke_increment, await_inclusion, confirmed, with_invoke_tx,
  with_invoke_block,
}
use snip36_prover_web.Routes.Prove.{
  Prover, prove_task, prove_transaction, note_proof, with_prove_block, with_proof_file,
  proof_output,
}
use snip36_prover_web.Routes.Sessions.{session_at, session_at-updated}
use snip36_prover_web.Routes.Rules.{try-rule, try_ok, or_stop_ok, or_stop_err, send_lines-state}

-- The session notes the transaction and its block.
abbrev Noted : String → ℕ → Session → Type 0
Noted tx_hash block a = (a.last_invoke_tx ≡ some tx_hash) × (a.invoke_block ≡ some block)

module _ (w : World) (id : String) where
  await_inclusion-Noted :
      (tx_hash : String) (r : Result RpcError Json) (s : AppState) (resp : InvokeResponse)
      (block : ℕ)
      → (session_at s id).last_invoke_tx ≡ some tx_hash
      → (run (await_inclusion w id tx_hash r) s).value ≡ some (ok resp)
      → resp.block_number ≡ some block
      → Noted resp.tx_hash block (session_at (run (await_inclusion w id tx_hash r) s).state id)
  unfolding update_session
  await_inclusion-Noted tx_hash (err e) s resp block h v b = absurd (cc (v, b))
  await_inclusion-Noted tx_hash (ok receipt) s resp block h v b =
      noted (receipt_block_number receipt) v
    where
      noted :
          (found : Option ℕ)
          → (run (confirmed w id tx_hash found) s).value ≡ some (ok resp)
          → Noted resp.tx_hash block (session_at (run (confirmed w id tx_hash found) s).state id)
      noted none v = absurd (cc (v, b))
      noted (some n) v =
          let same = session_at-updated s id (with_invoke_block n) in
          let hash : tx_hash ≡ resp.tx_hash = cc v in
          let number : n ≡ block = cc (v, b) in
          (
            ap (λ (a : Session). a.last_invoke_tx) same ∙ h ∙ ap some hash,
            ap (λ (a : Session). a.invoke_block) same ∙ ap some number,
          )

invoke_increment-Noted :
    (w : World) (req : InvokeRequest) (s : AppState) (resp : InvokeResponse) (block : ℕ)
    → (run (invoke_increment w req) s).value ≡ some (ok resp)
    → resp.block_number ≡ some block
    → Noted resp.tx_hash block (session_at (run (invoke_increment w req) s).state req.session_id)
unfolding invoke_increment session_of update_session get_session
invoke_increment-Noted w req s resp block v b =
    let P =
      λ (r : Ran InvokeResponse). Noted resp.tx_hash block (session_at r.state req.session_id) in
    let t = (get_session s req.session_id).0 in
    try-rule P _ _ t resp v λ contract v. try-rule P _ _ t resp v λ account v.
      try-rule P _ _ t resp v λ result v. try-rule P _ _ t resp v λ tx_hash v.
        await_inclusion-Noted w req.session_id tx_hash (tx_within w.network tx_hash 120)
          (update_session_with t req.session_id (with_invoke_tx tx_hash)) resp block
          (ap (λ (a : Session). a.last_invoke_tx)
            (session_at-updated t req.session_id (with_invoke_tx tx_hash)))
          v b

module _ (v : World) (p : Prover) (id : String) where
  module _ (block : Option ℕ) where
    abbrev Against : AppState → Type 0
    Against s = (session_at s id).prove_block ≡ block

    or_stop-Against :
        {A E : Type 0} (r : Result E A) (d : E → Detail) (next : A → Program (Unit {0}))
        (s : AppState)
        → Against s
        → ((a : A) → Against (run (next a) s).state)
        → Against (run (or_stop r d >>= next) s).state
    unfolding or_stop
    or_stop-Against (ok a) d next s h k = k a
    or_stop-Against (err e) d next s h k = h

    note_proof-Against :
        (exists : Bool) (s : AppState)
        → Against s
        → Against (run (note_proof v p id exists) s).state
    unfolding update_session
    note_proof-Against true s h =
        ap (λ (a : Session). a.prove_block)
          (session_at-updated s id (with_proof_file (proof_output v p id)))
        ∙ h
    note_proof-Against false s h = h

-- The block before `b`, or what there was where there is none.
abbrev pub proved_against : Option ℕ → ℕ → Option ℕ
proved_against old zero = old
proved_against old (suc n) = some n

session_at-get_session :
    (s : AppState) (id : String) → session_at (get_session s id).0 id ≡ session_at s id
unfolding get_session update_session_with session_at
session_at-get_session s id = session_at-updated s id (λ a. a)

module _ (v : World) (p : Prover) (id : String) where
  prove_task-Against :
      (s : AppState) (tx_hash : String) (block : ℕ)
      → (session_at s id).invoke_block ≡ some block
      → Against v p id
          (proved_against (session_at s id).prove_block block)
          (run (prove_task v p id tx_hash) s).state
  unfolding prove_task session_of update_session session_at get_session
  prove_task-Against s tx_hash zero h =
      let P = Against v p id (session_at s id).prove_block in
      let t = (get_session s id).0 in
      let kept = ap (λ (a : Session). a.prove_block) (session_at-get_session s id) in
      rw (h, run) (or_stop_ok P _ zero _ _ t refl (or_stop_err P _ _ _ _ t refl kept))
  prove_task-Against s tx_hash (suc n) h =
      let P = Against v p id (some n) in
      let t = (get_session s id).0 in
      let u = update_session_with t id (with_prove_block n) in
      let noted =
        ap (λ (a : Session). a.prove_block) (session_at-updated t id (with_prove_block n)) in
      rw (h, run)
        (or_stop_ok P _ (suc n) _ _ t refl (
          or_stop_ok P _ n _ _ t refl (
            or_stop-Against v p id (some n) _ _ _ u noted λ made.
              or_stop-Against v p id (some n) _ _ _ u noted λ lines.
                subst P (sym (send_lines-state lines _ u))
                  (note_proof-Against v p id (some n) (p.exists (proof_output v p id)) u noted))))

  prove_transaction-Against :
      (s : AppState) (tx_hash : String) (block : ℕ)
      → (session_at s id).last_invoke_tx ≡ some tx_hash
      → (session_at s id).invoke_block ≡ some block
      → Against v p id
          (proved_against (session_at s id).prove_block block)
          (run (prove_transaction v p id) s).state
  unfolding prove_transaction session_of session_at get_session
  prove_transaction-Against s tx_hash block found included =
      let t = (get_session s id).0 in
      let same = session_at-get_session s id in
      let old = ap (λ (a : Session). a.prove_block) same in
      let task =
        prove_task-Against t tx_hash block (ap (λ (a : Session). a.invoke_block) same ∙ included) in
      rw (found, run)
        (try_ok (Against v p id (proved_against (session_at s id).prove_block block)) _ tx_hash _ t
          refl
          (subst
            (λ o. Against v p id (proved_against o block) (run (prove_task v p id tx_hash) t).state)
            old task))

-- Where an invoke answers with the block that includes its transaction, proving in the same
-- session right after it sets the session's block to prove against to the block before that one;
-- where the block is the first, the session's block stays what it was.
pub invoke-prove :
    (w v : World) (p : Prover) (req : InvokeRequest) (s : AppState) (resp : InvokeResponse)
    (block : ℕ)
    → (run (invoke_increment w req) s).value ≡ some (ok resp)
    → resp.block_number ≡ some block
    → (session_at
        (run (prove_transaction v p req.session_id) (run (invoke_increment w req) s).state).state
        req.session_id).prove_block
      ≡ proved_against
          (session_at (run (invoke_increment w req) s).state req.session_id).prove_block
          block
invoke-prove w v p req s resp block h b =
    let (tx, included) = invoke_increment-Noted w req s resp block h b in
    prove_transaction-Against v p req.session_id (run (invoke_increment w req) s).state resp.tx_hash
      block tx included
