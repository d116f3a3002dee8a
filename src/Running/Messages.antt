-- ===== src/Running/Messages.antt =====
-- virtual_block_executor.rs: every outcome of `execute`, with the messages it reports.
use snip36_prover_web.Common.{
  String, some, List, [], ◌∷◌, ◌++◌, concat, map, length, append_assoc, suc, ok, err, ◌≡◌, refl, ap,
  subst, ◌⊎◌, inl, inr, All, arith, Option-cases,
}
use snip36_prover_web.Proofs.Types.{Felt}
use snip36_prover_web.Committer.Types.{StateMaps}
use snip36_prover_web.Running.Errors.{transaction_reverted}
use snip36_prover_web.Running.Blockifier.{ExecutionOutput, Kinds, BaseBlockInfo, Blockifier, Hashed}
use snip36_prover_web.Running.Executor.{VirtualBlockExecutor, messages_of, execute}
use snip36_prover_web.Running.Outcome.{Succeeded, Runs, execute-reverted, execute-accepted}

-- The messages are those of the calls, one after the other.
pub data InOrder {M : Type 0} : List (List M) → List M → Type 0 where
  no_calls : InOrder [] []
  next_call :
      (calls : List (List M)) (messages : List M)
      → InOrder calls messages
      → InOrder ([] ∷ calls) messages
  message :
      (m : M) (call : List M) (calls : List (List M)) (messages : List M)
      → InOrder (call ∷ calls) messages
      → InOrder ((m ∷ call) ∷ calls) (m ∷ messages)

InOrder-call :
    {M : Type 0} (call : List M) (calls : List (List M)) (messages : List M)
    → InOrder calls messages
    → InOrder (call ∷ calls) (call ++ messages)
InOrder-call [] calls messages h = next_call calls messages h
InOrder-call (m ∷ call) calls messages h =
    message m call calls (call ++ messages) (InOrder-call call calls messages h)

InOrder-calls :
    {M : Type 0} (first calls : List (List M)) (messages : List M)
    → InOrder calls messages
    → InOrder (first ++ calls) (concat first ++ messages)
InOrder-calls [] calls messages h = h
InOrder-calls (call ∷ first) calls messages h = rw (append_assoc call (concat first) messages) (
    InOrder-call call (first ++ calls) (concat first ++ messages)
      (InOrder-calls first calls messages h))

module _ {I M : Type 0} where
  -- The calls of all outputs, in the order of the outputs.
  abbrev pub calls_of : List (ExecutionOutput I M) → List (List M)
  calls_of [] = []
  calls_of (o ∷ outputs) = o.messages_of_calls ++ calls_of outputs

  messages_of-InOrder :
      (outputs : List (ExecutionOutput I M)) → InOrder (calls_of outputs) (messages_of outputs)
  messages_of-InOrder [] = no_calls
  messages_of-InOrder (o ∷ outputs) =
      InOrder-calls o.messages_of_calls (calls_of outputs) (messages_of outputs)
        (messages_of-InOrder outputs)

  -- The first output that is reverted, with the hash of its transaction and its reason.
  abbrev pub FirstReverted : List (ExecutionOutput I M) → List Felt → Felt → String → Type 0
  FirstReverted outputs hashes tx_hash reason =
      (before : List (ExecutionOutput I M)) × (o : ExecutionOutput I M) × (after : List
        (ExecutionOutput I M))
      × (earlier : List Felt) × (later : List Felt) × (outputs ≡ before ++ o ∷ after)
      × All Succeeded before
      × (o.revert_error ≡ some reason)
      × (hashes ≡ earlier ++ tx_hash ∷ later)
      × (length earlier ≡ length before)

  reverts_cases :
      (outputs : List (ExecutionOutput I M)) (hashes : List Felt)
      → length hashes ≡ length outputs
      → All Succeeded outputs
        ⊎ ((tx_hash : Felt) × (reason : String) × FirstReverted outputs hashes tx_hash reason)
  reverts_cases [] hashes len = inl tt
  reverts_cases (o ∷ outputs) [] len = absurd (omega (arith, len))
  reverts_cases (o ∷ outputs) (t ∷ hashes) len = elim (Option-cases o.revert_error) [
    | inr (reason, reverted) ↦
        inr (t, reason, ([], o, outputs, [], hashes, refl, tt, reverted, refl, refl))
    | inl fine ↦ elim (reverts_cases outputs hashes (omega (arith, len))) [
      | inl all ↦ inl (fine, all)
      | inr (tx_hash, reason, (before, p, after, earlier, later, e, h, r, hs, l)) ↦ inr (
        tx_hash,
        reason,
        (
          o ∷ before,
          p,
          after,
          t ∷ earlier,
          later,
          ap (◌∷◌ o) e,
          (fine, h),
          r,
          ap (◌∷◌ t) hs,
          ap suc l,
        ),
      )
    ]
  ]

module _ (k : Kinds) (b : Blockifier k) (v : VirtualBlockExecutor k) (block_id : k.BlockId)
    (manager : k.ClassManager) (txs : Hashed k) where
  -- Where the block is prepared, every transaction has an output, and the executor gives its
  -- reads, its state diff and its classes, the execution has one of two outcomes. Either no output
  -- is reverted, and it succeeds with exactly these and with the messages of all calls of the
  -- outputs, one after the other; or it fails with the hash and the reason of the first output
  -- that is reverted.
  pub execute_total :
      (base : BaseBlockInfo k) (outputs : List (ExecutionOutput k.ExecutionInfo k.Message))
      (reads diff : StateMaps) (classes : List Felt)
      (r : Runs k b v block_id manager txs base outputs)
      → length (map (λ t. t.1) txs) ≡ length outputs
      → (b.execute_txs r.reader manager base.block_context r.converted).block_state
        ≡ some (ok reads, ok diff)
      → (b.execute_txs r.reader manager base.block_context r.converted).executed_class_hashes
        ≡ ok classes
      → (All Succeeded outputs
          × ((messages : List k.Message) × InOrder (calls_of outputs) messages
              × (execute k b v block_id manager txs
                  ≡ ok (record {
                    execution_outputs = outputs;
                    initial_reads = reads;
                    state_diff = diff;
                    executed_class_hashes = classes;
                    l2_to_l1_messages = messages;
                    base_block_info = base;
                  }))))
        ⊎ ((tx_hash : Felt) × (reason : String) × FirstReverted outputs
              (map (λ t. t.1) txs)
              tx_hash
              reason
            × (execute k b v block_id manager txs ≡ err (transaction_reverted tx_hash reason)))
  execute_total base outputs reads diff classes r len state executed =
      elim (reverts_cases outputs (map (λ t. t.1) txs) len) [
        | inl all ↦ inl (
          all,
          (
            messages_of outputs,
            messages_of-InOrder outputs,
            execute-accepted k b v block_id manager txs base outputs reads diff classes r all state
                executed,
          ),
        )
        | inr (tx_hash, reason, (before, o, after, earlier, later, e, h, reverted, hashes, l)) ↦
            inr (
              tx_hash,
              reason,
              (before, o, after, earlier, later, e, h, reverted, hashes, l),
              execute-reverted k b v block_id manager txs base before after o tx_hash reason earlier
                  later (subst (Runs k b v block_id manager txs base) e r) h reverted hashes l,
            )
      ]
