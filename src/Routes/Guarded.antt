-- ===== src/Routes/Guarded.antt =====
-- Every handler is safe: between its moves, the others may do what they do.
use snip36_prover_web.Common.{ℕ, String, Option, none, some, Result, ok, err, refl, string_eq}
use snip36_prover_web.Common.Json.{Json}
use snip36_prover_web.Rpc.Client.{RpcError, receipt_block_number}
use snip36_prover_web.Server.State.{AppState}
use snip36_prover_web.Routes.World.{World, tx_within}
use snip36_prover_web.Routes.Fund.{
  DeployAccountRequest, fund_account, deploy_account, deploy_counter, with_account, with_counter,
}
use snip36_prover_web.Routes.Read.{read_counter, get_nonce_route}
use snip36_prover_web.Routes.Invoke.{
  InvokeRequest, invoke_increment, await_inclusion, note_block, with_invoke_tx, with_invoke_block,
}
use snip36_prover_web.Routes.Sessions.{session_at, Has, Grows-trans}
use snip36_prover_web.Routes.Safe.{
  Safe, Safe-bind, Safe-try, Safe-session_of, Safe-update_session, Safe-update_last,
}
use snip36_prover_web.Routes.Kept.{
  ok_or-Has, with_account-Kept, with_counter-Kept, with_invoke_tx-Kept, with_invoke_block-Kept,
}

module _ (w : World) (s : AppState) where
  pub fund_account-Safe : (account_address : String) → Safe s (fund_account w account_address)
  unfolding fund_account
  fund_account-Safe account_address =
      Safe-try s _ _ λ output h. Safe-try s _ _ λ tx_hash h. Safe-try s _ _ λ receipt h. tt

  pub read_counter-Safe : (address : String) → Safe s (read_counter w address)
  unfolding read_counter
  read_counter-Safe address = Safe-try s _ _ λ result h. tt

  pub get_nonce_route-Safe : (address : String) → Safe s (get_nonce_route w address)
  unfolding get_nonce_route
  get_nonce_route-Safe address = Safe-try s _ _ λ nonce h. tt

  pub deploy_account-Safe : (req : DeployAccountRequest) → Safe s (deploy_account w req)
  unfolding deploy_account
  deploy_account-Safe req = Safe-try s _ _ λ output h. Safe-try s _ _ λ u h.
      Safe-try s _ _ λ address h. Safe-try s _ _ λ tx_hash h. Safe-try s _ _ λ receipt h.
        Safe-update_session s req.session_id (with_account address) _
          (λ t g c. with_account-Kept (session_at t req.session_id) (c req.session_id) address)
          (λ t u g e. tt)

  pub deploy_counter-Safe : (id : String) → Safe s (deploy_counter w id)
  unfolding deploy_counter
  deploy_counter-Safe id = Safe-try s _ _ λ declared h. Safe-try s _ _ λ class_hash h.
      Safe-try s _ _ λ output h. Safe-try s _ _ λ u h. Safe-try s _ _ λ contract_address h.
        Safe-try s _ _ λ tx_hash h. Safe-try s _ _ λ receipt h.
          Safe-update_session s id
            (with_counter contract_address class_hash (receipt_block_number receipt)) _
            (λ t g c.
              with_counter-Kept (session_at t id) (c id) contract_address class_hash
                (receipt_block_number receipt))
            (λ t u g e. tt)

module _ (w : World) (req : InvokeRequest) where
  await_inclusion-Safe :
      (tx_hash : String) (r : Result RpcError Json) (s : AppState)
      → Has (session_at s req.session_id).last_invoke_tx
      → Safe s (await_inclusion w req.session_id tx_hash r)
  await_inclusion-Safe tx_hash (err e) s h = tt
  await_inclusion-Safe tx_hash (ok receipt) s h =
      Safe-bind (note_block w req.session_id (receipt_block_number receipt)) _ s
        (noted (receipt_block_number receipt)) (λ t a g. tt)
    where
      noted : (block : Option ℕ) → Safe s (note_block w req.session_id block)
      noted none = tt
      noted (some block) = Safe-update_last s req.session_id (with_invoke_block block) λ t g c.
          with_invoke_block-Kept (session_at t req.session_id) (c req.session_id) block
            ((g req.session_id).tx h)

  pub invoke_increment-Safe : (s : AppState) → Safe s (invoke_increment w req)
  unfolding invoke_increment
  invoke_increment-Safe s = Safe-session_of s req.session_id _ λ t u g k c.
      Safe-try u _ _ λ contract_address contract. Safe-try u _ _ λ account_address account.
        Safe-try u _ _ λ result h. Safe-try u _ _ λ tx_hash h.
          Safe-update_session u req.session_id (with_invoke_tx tx_hash) _
            (λ v i d.
              with_invoke_tx-Kept (session_at v req.session_id) (d req.session_id) tx_hash
                ((Grows-trans t u v k i req.session_id).contract (ok_or-Has _ _ contract))
                ((Grows-trans t u v k i req.session_id).account (ok_or-Has _ _ account)))
            (λ v x i e.
              await_inclusion-Safe tx_hash (tx_within w.network tx_hash 120) x (rw e refl))
