-- ===== src/Examples/Running.antt =====
-- A chain whose transactions are numbers: a transaction fails to run if it is 0, and reverts if it
-- is 13.
use snip36_prover_web.Common.{
  ℕ, String, true, none, some, List, [], ◌∷◌, ◌++◌, map, nat_beq, nat_eq, Result, ok, err, ◌≡◌,
  refl, if◌then◌else◌, pair_eq, ◌⊎◌, All,
}
use snip36_prover_web.Common.Json.{Json, null, number, obj}
use snip36_prover_web.Proofs.Types.{Felt}
use snip36_prover_web.Committer.Types.{empty_maps}
use snip36_prover_web.Running.Errors.{transaction_reverted}
use snip36_prover_web.Running.Blockifier.{
  BlockHeader, StateReader, VersionedConstants, ExecutionOutput, Kinds, Blockifier, RpcStateReader,
  BaseBlockInfo,
}
use snip36_prover_web.Running.InitialReads.{RpcInitialReads}
use snip36_prover_web.Running.Executor.{VirtualBlockExecutor, execute, convert_invoke_txs}
use snip36_prover_web.Running.Outcome.{Succeeded, Runs, execute-reverted}
use snip36_prover_web.Running.Messages.{InOrder, calls_of, FirstReverted, execute_total}

abbrev pub numbers : Kinds
numbers = record {
  InvokeTransaction = ℕ;
  BlockifierTransaction = ℕ;
  RpcTransaction = ℕ;
  ExecutionInfo = ℕ;
  Message = ℕ;
  BlockInfo = ℕ;
  ChainInfo = ℕ;
  Constants = ℕ;
  BouncerConfig = ℕ;
  CompiledClass = ℕ;
  CompiledClasses = ℕ;
  ClassManager = ℕ;
  BlockId = ℕ;
}

abbrev constants : VersionedConstants ℕ
constants = record {
  enable_casm_hash_migration = true;
  min_sierra_version_for_sierra_gas = (1, 7, 0);
  others = 14;
}

abbrev pub output_of : ℕ → ExecutionOutput ℕ ℕ
output_of tx = record {
  info = tx;
  revert_error = if nat_beq tx 13 then some "unlucky" else none;
  messages_of_calls = (tx ∷ []) ∷ [] ∷ [];
}

abbrev run_of : ℕ → Result String (ExecutionOutput ℕ ℕ)
run_of tx = if nat_beq tx 0 then err "no transaction" else ok (output_of tx)

abbrev pub chain : Blockifier numbers
chain = record {
  concat_counts = λ a b c d. a;
  block_info_of = λ h. ok h.block_number;
  starknet_version = λ i. "0.14.0";
  latest_constants = constants;
  constants_of = λ v. ok constants;
  default_bouncer_config = 1;
  max_possible_fee = λ tx. 0;
  from_api = λ tx hash flags. ok tx;
  execute_txs = λ reader manager context txs. record {
    results = map run_of txs;
    block_state = some (ok empty_maps, ok empty_maps);
    executed_class_hashes = ok (5 ∷ []);
  };
  as_rpc_v3 = λ tx. some (ok tx);
  block_id_json = λ b. number b;
  rpc_transaction_json = λ tx. number tx;
}

abbrev pub reader : StateReader ℕ ℕ
reader = record {
  get_storage_at = λ a k. ok 9;
  get_nonce_at = λ a. ok 1;
  get_class_hash_at = λ a. ok 5;
  get_compiled_class = λ h. ok h;
  get_compiled_class_hash = λ h. ok h;
  get_compiled_class_hash_v2 = λ h c. ok h;
  get_compiled_classes = λ h. ok h;
  is_declared = λ h. ok true;
}

abbrev header : BlockHeader
header = record {
  block_hash = 77;
  parent_hash = 76;
  block_number = 12;
  starknet_version = "0.14.0";
  transaction_commitment = 1;
  event_commitment = 2;
  receipt_commitment = 3;
  state_diff_commitment = 4;
  transaction_count = 5;
  event_count = 6;
  state_diff_length = 7;
  l1_da_mode = 0;
}

abbrev simulated : Json
simulated = obj (("initial_reads", null) ∷ [])

abbrev pub node : RpcStateReader numbers
node = record {
  reader = reader;
  chain_info = 3;
  get_block_header = ok header;
  send_rpc_request = λ method params. ok simulated;
}

abbrev pub reads_of : Json → Result String RpcInitialReads
reads_of v = ok (record {
  storage = record { contract_address = 7; key = 2; value = 9 } ∷ [];
  nonces = record { contract_address = 7; nonce = 1 } ∷ [];
  class_hashes = [];
  declared_contracts = [];
})

abbrev pub base : BaseBlockInfo numbers
base = record {
  block_context = record {
    block_info = 12;
    chain_info = 3;
    versioned_constants = constants;
    bouncer_config = 1;
  };
  base_block_hash = 77;
  base_block_header_commitments = record {
    transaction_commitment = 1;
    event_commitment = 2;
    receipt_commitment = 3;
    state_diff_commitment = 4;
    concatenated_counts = 5;
  };
  prev_base_block_hash = 76;
}

abbrev executor : VirtualBlockExecutor numbers
executor = record {
  base_block_info = λ b. ok base;
  state_reader = λ b txs. ok reader;
  validate_txs_enabled = ok true;
}

abbrev unlucky : List (ℕ × Felt)
unlucky = (3, 300) ∷ (13, 1300) ∷ (4, 400) ∷ []

unlucky-Runs :
    Runs numbers chain executor 12 0 unlucky base
      ((output_of 3 ∷ []) ++ output_of 13 ∷ output_of 4 ∷ [])
unfolding convert_invoke_txs
unlucky-Runs = record {
  reader = reader;
  converted = 3 ∷ 13 ∷ 4 ∷ [];
  base_lem = refl;
  reader_lem = refl;
  converted_lem = refl;
  outputs_lem = refl;
}

execute-reverted_example :
    execute numbers chain executor 12 0 unlucky ≡ err (transaction_reverted 1300 "unlucky")
execute-reverted_example =
    execute-reverted numbers chain executor 12 0 unlucky base (output_of 3 ∷ []) (output_of 4 ∷ [])
      (output_of 13) 1300 "unlucky" (300 ∷ []) (400 ∷ []) unlucky-Runs (refl, tt) refl refl refl

lucky-Runs : Runs numbers chain executor 12 0 ((3, 300) ∷ []) base (output_of 3 ∷ [])
unfolding convert_invoke_txs
lucky-Runs = record {
  reader = reader;
  converted = 3 ∷ [];
  base_lem = refl;
  reader_lem = refl;
  converted_lem = refl;
  outputs_lem = refl;
}

execute_total_example :
    (All Succeeded (output_of 3 ∷ [])
      × ((messages : List ℕ) × InOrder (calls_of (output_of 3 ∷ [])) messages
          × (execute numbers chain executor 12 0 ((3, 300) ∷ [])
              ≡ ok (record {
                execution_outputs = output_of 3 ∷ [];
                initial_reads = empty_maps;
                state_diff = empty_maps;
                executed_class_hashes = 5 ∷ [];
                l2_to_l1_messages = messages;
                base_block_info = base;
              }))))
    ⊎ ((tx_hash : Felt) × (reason : String) × FirstReverted
          (output_of 3 ∷ [])
          (300 ∷ [])
          tx_hash
          reason
        × (execute numbers chain executor 12 0 ((3, 300) ∷ [])
            ≡ err (transaction_reverted tx_hash reason)))
unfolding lucky-Runs
execute_total_example =
    execute_total numbers chain executor 12 0 ((3, 300) ∷ []) base (output_of 3 ∷ []) empty_maps
      empty_maps (5 ∷ []) lucky-Runs refl refl refl
