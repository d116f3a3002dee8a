-- ===== src/Proving/Prover.antt =====
-- portable-core/starknet_transaction_prover/src/proving/virtual_snos_prover.rs.
use snip36_prover_web.Common.{
  ℕ, String, Bool, not, nat_beq, Result, ok, err, ◌>>=◌, ◌>>◌, map_err, reject_if, if◌then◌else◌,
}
use snip36_prover_web.Common.Text.{◌+++◌, decimal}

-- The texts of the errors of other crates stand for these errors.
pub data VirtualSnosProverError : Type 0 where
  invalid_transaction_type : String → VirtualSnosProverError
  invalid_transaction_input : String → VirtualSnosProverError
  validation_error : String → VirtualSnosProverError
  program_output_error : String → VirtualSnosProverError
  runner_error : String → VirtualSnosProverError
  proving_error : String → VirtualSnosProverError
  output_parse_error : String → VirtualSnosProverError

-- What the prover uses of other crates: the block ids, the transactions and their fee, the runner
-- of the virtual OS, and the proving backend.
pub record World : Type 1 where
  pub BlockId : Type 0
  pub is_pending : BlockId → Bool
  pub InvokeV3 : Type 0
  pub proof_is_empty : InvokeV3 → Bool
  pub proof_facts_is_empty : InvokeV3 → Bool
  -- `ValidResourceBounds::AllResources(..).max_possible_fee(tip)`
  pub max_possible_fee : InvokeV3 → ℕ
  pub Pie : Type 0
  pub Messages : Type 0
  pub Proof : Type 0
  pub ProgramOutput : Type 0
  pub Facts : Type 0
  pub run_virtual_os : BlockId → InvokeV3 → Result String (Pie × Messages)
  pub prove : Pie → Result String (Proof × ProgramOutput)
  -- `try_into_proof_facts(VIRTUAL_SNOS)`
  pub try_into_proof_facts : ProgramOutput → Result String Facts

pub data RpcTransaction (T : Type 0) : Type 0 where
  invoke : T → RpcTransaction T
  declare : RpcTransaction T
  deploy_account : RpcTransaction T

pub record ProveTransactionResult (w : World) : Type 0 where
  pub proof : w.Proof
  pub proof_facts : w.Facts
  pub l2_to_l1_messages : w.Messages

unfoldable pub extract_rpc_invoke_tx :
    {T : Type 0} → RpcTransaction T → Result VirtualSnosProverError T
extract_rpc_invoke_tx (invoke t) = ok t
extract_rpc_invoke_tx declare = err (
    invalid_transaction_type
      "Declare transactions are not supported; only Invoke transactions are allowed")
extract_rpc_invoke_tx deploy_account = err (
    invalid_transaction_type
      "DeployAccount transactions are not supported; only Invoke transactions are allowed")

module _ (w : World) where
  unfoldable pub validate_transaction_input :
      w.InvokeV3 → Bool → Result VirtualSnosProverError (Unit {0})
  unfolding decimal
  validate_transaction_input tx validate_zero_fee_fields =
      reject_if (not (w.proof_is_empty tx))
        (invalid_transaction_input "The proof field must be empty on input.")
      >> (reject_if (not (w.proof_facts_is_empty tx))
            (invalid_transaction_input "The proof_facts field must be empty on input.")
          >> (if validate_zero_fee_fields
              then reject_if (not (nat_beq (w.max_possible_fee tx) 0)) (
                  invalid_transaction_input (
                    "Max possible fee must be zero, got: "
                    +++ decimal (w.max_possible_fee tx)
                    +++ "."))
              else ok tt))

  -- With the feature `stwo_proving`; without it the source is unimplemented.
  unfoldable pub prove_virtual_snos_run :
      w.Pie × w.Messages → Result VirtualSnosProverError (ProveTransactionResult w)
  prove_virtual_snos_run (cairo_pie, messages) =
      map_err proving_error (w.prove cairo_pie) >>= λ output.
      map_err program_output_error (w.try_into_proof_facts output.1) >>= λ facts.
      ok (record { proof = output.0; proof_facts = facts; l2_to_l1_messages = messages })

  unfoldable pub prove_transaction :
      Bool
      → w.BlockId
      → RpcTransaction w.InvokeV3
      → Result VirtualSnosProverError (ProveTransactionResult w)
  unfolding extract_rpc_invoke_tx validate_transaction_input prove_virtual_snos_run
  prove_transaction validate_zero_fee_fields block_id transaction =
      reject_if (w.is_pending block_id)
        (validation_error "Pending blocks are not supported; only finalized blocks can be proven.")
      >> (extract_rpc_invoke_tx transaction >>= λ invoke_v3.
          validate_transaction_input invoke_v3 validate_zero_fee_fields
          >> (map_err runner_error (w.run_virtual_os block_id invoke_v3)
              >>= prove_virtual_snos_run))
