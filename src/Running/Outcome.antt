-- ===== src/Running/Outcome.antt =====
-- virtual_block_executor.rs: what `execute` reports of the transactions' outputs.
use snip36_prover_web.Common.{
  String, none, some, List, [], ◌∷◌, ◌++◌, map, length, ok, err, map_err, traverse, ◌≡◌, refl, All,
  arith,
}
use snip36_prover_web.Proofs.Types.{Felt}
use snip36_prover_web.Committer.Types.{StateMaps}
use snip36_prover_web.Running.Errors.{transaction_execution_error, transaction_reverted}
use snip36_prover_web.Running.Blockifier.{
  ExecutionOutput, Kinds, BaseBlockInfo, Reader, Hashed, Blockifier,
}
use snip36_prover_web.Running.Executor.{
  VirtualBlockExecutor, convert_invoke_txs, reject_reverted, messages_of, execute,
}

-- The transaction did not revert.
abbrev pub Succeeded : {I M : Type 0} → ExecutionOutput I M → Type 0
Succeeded o = o.revert_error ≡ none

module _ {I M : Type 0} where
  reject_reverted-accepts :
      (outputs : List (ExecutionOutput I M)) (hashes : List Felt)
      → All Succeeded outputs
      → reject_reverted outputs hashes ≡ ok tt
  unfolding reject_reverted
  reject_reverted-accepts [] hashes h = refl
  reject_reverted-accepts (o ∷ os) [] h = refl
  reject_reverted-accepts (o ∷ os) (t ∷ hashes) (p, h) =
      let rest = reject_reverted-accepts os hashes h in ground (arith, p, rest)

  reject_reverted-rejects :
      (before after : List (ExecutionOutput I M)) (o : ExecutionOutput I M) (tx_hash : Felt)
      (reason : String) (earlier later : List Felt)
      → All Succeeded before
      → o.revert_error ≡ some reason
      → length earlier ≡ length before
      → reject_reverted (before ++ o ∷ after) (earlier ++ tx_hash ∷ later)
        ≡ err (transaction_reverted tx_hash reason)
  unfolding reject_reverted
  reject_reverted-rejects [] after o t reason [] later h e len = ground (arith, e)
  reject_reverted-rejects [] after o t reason (x ∷ earlier) later h e len =
      absurd (omega (arith, len))
  reject_reverted-rejects (b ∷ before) after o t reason [] later h e len =
      absurd (omega (arith, len))
  reject_reverted-rejects (b ∷ before) after o t reason (x ∷ earlier) later (p, h) e len =
      let rest =
        reject_reverted-rejects before after o t reason earlier later h e (omega (arith, len)) in
      ground (arith, p, rest)

  traverse-map-ok :
      (outputs : List (ExecutionOutput I M))
      → traverse (map_err transaction_execution_error) (map ok outputs) ≡ ok outputs
  traverse-map-ok [] = refl
  traverse-map-ok (o ∷ os) = rw (traverse-map-ok os) refl

module _ (k : Kinds) (b : Blockifier k) (v : VirtualBlockExecutor k) (block_id : k.BlockId)
    (manager : k.ClassManager) (txs : Hashed k) where
  -- Everything before the check of the outputs succeeds, and these are the outputs.
  pub record Runs (base : BaseBlockInfo k)
      (outputs : List (ExecutionOutput k.ExecutionInfo k.Message)) : Type 0 where
    pub reader : Reader k
    pub converted : List k.BlockifierTransaction
    pub base_lem : v.base_block_info block_id ≡ ok base
    pub reader_lem : v.state_reader block_id txs ≡ ok reader
    pub converted_lem : convert_invoke_txs k b v txs ≡ ok converted
    pub outputs_lem :
        (b.execute_txs reader manager base.block_context converted).results ≡ map ok outputs

  -- Where the block is prepared and every transaction has an output, the execution fails with the
  -- hash and the reason of the first output that is reverted.
  pub execute-reverted :
      (base : BaseBlockInfo k) (before after : List (ExecutionOutput k.ExecutionInfo k.Message))
      (o : ExecutionOutput k.ExecutionInfo k.Message) (tx_hash : Felt) (reason : String)
      (earlier later : List Felt)
      → Runs base (before ++ o ∷ after)
      → All Succeeded before
      → o.revert_error ≡ some reason
      → map (λ t. t.1) txs ≡ earlier ++ tx_hash ∷ later
      → length earlier ≡ length before
      → execute k b v block_id manager txs ≡ err (transaction_reverted tx_hash reason)
  unfolding execute
  execute-reverted base before after o tx_hash reason earlier later r h e split len =
      let same = traverse-map-ok (before ++ o ∷ after) in
      let rejected = reject_reverted-rejects before after o tx_hash reason earlier later h e len in
      rw (r.base_lem, r.reader_lem, r.converted_lem, r.outputs_lem, same, split, rejected) refl

  pub execute-accepted :
      (base : BaseBlockInfo k) (outputs : List (ExecutionOutput k.ExecutionInfo k.Message))
      (reads diff : StateMaps) (classes : List Felt) (r : Runs base outputs)
      → All Succeeded outputs
      → (b.execute_txs r.reader manager base.block_context r.converted).block_state
        ≡ some (ok reads, ok diff)
      → (b.execute_txs r.reader manager base.block_context r.converted).executed_class_hashes
        ≡ ok classes
      → execute k b v block_id manager txs
        ≡ ok (record {
          execution_outputs = outputs;
          initial_reads = reads;
          state_diff = diff;
          executed_class_hashes = classes;
          l2_to_l1_messages = messages_of outputs;
          base_block_info = base;
        })
  unfolding execute
  execute-accepted base outputs reads diff classes r h state executed =
      let same = traverse-map-ok outputs in
      let accepted = reject_reverted-accepts outputs (map (λ t. t.1) txs) h in
      rw (r.base_lem, r.reader_lem, r.converted_lem, r.outputs_lem, same, accepted, state, executed)
        refl
