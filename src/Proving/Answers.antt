-- ===== src/Proving/Answers.antt =====
-- portable-core/starknet_transaction_prover/src/proving/virtual_snos_prover.rs and
-- server/errors.rs and server/rpc_impl.rs: which answer a proving request gets.
use snip36_prover_web.Common.{
  String, Bool, true, false, not, ◌&&◌, ◌||◌, nat_beq, Option, none, some, Result, ok, err, map_err,
  ◌>>=◌, ◌≡◌, refl, ap, ◌∙◌, if◌then◌else◌, ◌>>◌, reject_if, Bool-cases, Option-cases, inl, inr,
}
use snip36_prover_web.Common.Text.{◌+++◌, decimal}
use snip36_prover_web.Proving.Prover.{
  World, RpcTransaction, ProveTransactionResult, VirtualSnosProverError, extract_rpc_invoke_tx,
  validate_transaction_input, prove_virtual_snos_run, prove_transaction,
}
use snip36_prover_web.Proving.Errors.{Code, ErrorObject, error_object, service_busy}
use snip36_prover_web.Proving.Capacity.{Service, rpc_prove_transaction}

module _ (w : World) where
  -- A transaction with output fields, or with a fee where none is allowed.
  abbrev pub is_bad_input : Bool → w.InvokeV3 → Bool
  is_bad_input validate t =
      not (w.proof_is_empty t)
      || not (w.proof_facts_is_empty t)
      || (validate && not (nat_beq (w.max_possible_fee t) 0))

  abbrev facts_code : Result String w.Facts → Option Code
  facts_code (ok f) = none
  facts_code (err e) = some (Code.minus 32603)

  abbrev proof_code : Result String (w.Proof × w.ProgramOutput) → Option Code
  proof_code (ok (p, o)) = facts_code (w.try_into_proof_facts o)
  proof_code (err e) = some (Code.minus 32603)

  abbrev run_code : Result String (w.Pie × w.Messages) → Option Code
  run_code (ok (pie, messages)) = proof_code (w.prove pie)
  run_code (err e) = some (Code.minus 32603)

  -- The code that a request with a permit is answered with, or none for a proof: the first that
  -- applies.
  abbrev pub expected_code : Bool → w.BlockId → RpcTransaction w.InvokeV3 → Option Code
  expected_code validate b RpcTransaction.declare =
      if w.is_pending b then some (Code.plus 24) else some (Code.plus 61)
  expected_code validate b RpcTransaction.deploy_account =
      if w.is_pending b then some (Code.plus 24) else some (Code.plus 61)
  expected_code validate b (RpcTransaction.invoke t) =
      if w.is_pending b
      then some (Code.plus 24)
      else if is_bad_input validate t
      then some (Code.plus 1000)
      else run_code (w.run_virtual_os b t)

  abbrev code_of : Result VirtualSnosProverError (ProveTransactionResult w) → Option Code
  code_of (ok r) = none
  code_of (err e) = some (error_object e).code

  run_lem :
      (r : Result String (w.Pie × w.Messages))
      → code_of (map_err VirtualSnosProverError.runner_error r >>= prove_virtual_snos_run w)
        ≡ run_code r
  unfolding prove_virtual_snos_run error_object
  run_lem (err e) = refl
  run_lem (ok (pie, messages)) = proved (w.prove pie)
    where
      proved :
          (r : Result String (w.Proof × w.ProgramOutput))
          → code_of (
              map_err VirtualSnosProverError.proving_error r >>= λ output.
              map_err VirtualSnosProverError.program_output_error (w.try_into_proof_facts output.1)
              >>= λ facts.
                  ok (record {
                    proof = output.0;
                    proof_facts = facts;
                    l2_to_l1_messages = messages;
                  }))
            ≡ proof_code r
      proved (err e) = refl
      proved (ok (p, o)) = encoded (w.try_into_proof_facts o)
        where
          encoded :
              (r : Result String w.Facts)
              → code_of (
                  map_err VirtualSnosProverError.program_output_error r >>= λ facts.
                  ok (record { proof = p; proof_facts = facts; l2_to_l1_messages = messages }))
                ≡ facts_code r
          encoded (err e) = refl
          encoded (ok f) = refl

  -- The three tests of the input, before `x`.
  tested :
      (a b v c : Bool) (m n k : String)
      (x : Result VirtualSnosProverError (ProveTransactionResult w))
      → code_of (
          (reject_if a (VirtualSnosProverError.invalid_transaction_input m)
            >> (reject_if b (VirtualSnosProverError.invalid_transaction_input n)
                >> (if v
                    then reject_if c (VirtualSnosProverError.invalid_transaction_input k)
                    else ok tt)))
          >> x)
        ≡ (if a || b || (v && c) then some (Code.plus 1000) else code_of x)
  unfolding error_object
  tested true b v c m n k x = refl
  tested false true v c m n k x = refl
  tested false false true true m n k x = refl
  tested false false true false m n k x = refl
  tested false false false c m n k x = refl

  prove_transaction_lem :
      (validate : Bool) (b : w.BlockId) (tx : RpcTransaction w.InvokeV3)
      → code_of (prove_transaction w validate b tx) ≡ expected_code validate b tx
  unfolding prove_transaction extract_rpc_invoke_tx validate_transaction_input error_object
  prove_transaction_lem validate b RpcTransaction.declare = elim (Bool-cases (w.is_pending b)) [
    | inl pending ↦ rw pending refl
    | inr final ↦ rw final refl
  ]
  prove_transaction_lem validate b RpcTransaction.deploy_account =
      elim (Bool-cases (w.is_pending b)) [
        | inl pending ↦ rw pending refl
        | inr final ↦ rw final refl
      ]
  prove_transaction_lem validate b (RpcTransaction.invoke t) = elim (Bool-cases (w.is_pending b)) [
    | inl pending ↦ rw pending refl
    | inr final ↦ rw final (
        tested (not (w.proof_is_empty t)) (not (w.proof_facts_is_empty t)) validate
          (not (nat_beq (w.max_possible_fee t) 0)) "The proof field must be empty on input."
          "The proof_facts field must be empty on input."
          ("Max possible fee must be zero, got: " +++ decimal (w.max_possible_fee t) +++ ".")
          (map_err VirtualSnosProverError.runner_error (w.run_virtual_os b t)
            >>= prove_virtual_snos_run w)
        ∙ ap (λ c. if is_bad_input validate t then some (Code.plus 1000) else c)
            (run_lem (w.run_virtual_os b t)))
  ]

  abbrev pub busy_or : {Permit : Type 0} → Option Permit → Option Code → Option Code
  busy_or none expected = some (Code.minus 32005)
  busy_or (some permit) expected = expected

  abbrev pub answered_code : Result ErrorObject (ProveTransactionResult w) → Option Code
  answered_code (ok r) = none
  answered_code (err e) = some e.code

  answered_code-map_err :
      (r : Result VirtualSnosProverError (ProveTransactionResult w))
      → answered_code (map_err error_object r) ≡ code_of r
  answered_code-map_err (ok r) = refl
  answered_code-map_err (err e) = refl

  -- The proving handler answers by the first code that applies: -32005 where the semaphore gives
  -- no permit, 24 for a pending block, 61 for a transaction that is not an invoke, 1000 for an
  -- input with a proof, with proof facts or (where fees are validated) with a possible fee above
  -- zero, and -32603 where the run of the OS fails for whatever reason, a missing block and a
  -- reverted validation included, or the proof or its facts fail; otherwise it gives a proof.
  pub rpc_prove_transaction_lem :
      {Semaphore Permit : Type 0} (validate : Bool) (try_acquire : Semaphore → Option Permit)
      (b : w.BlockId) (tx : RpcTransaction w.InvokeV3) (s : Service Semaphore)
      → answered_code (rpc_prove_transaction w validate try_acquire b tx s)
        ≡ busy_or (try_acquire s.concurrency_semaphore) (expected_code validate b tx)
  unfolding rpc_prove_transaction service_busy
  rpc_prove_transaction_lem validate try_acquire b tx s =
      elim (Option-cases (try_acquire s.concurrency_semaphore)) [
        | inl refused ↦ rw (rpc_prove_transaction, refused) refl
        | inr (permit, taken) ↦
            rw (rpc_prove_transaction, taken)
              (answered_code-map_err (prove_transaction w validate b tx)
                ∙ prove_transaction_lem validate b tx)
      ]
