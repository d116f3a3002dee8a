-- ===== src/Examples/Hinting.antt =====
-- The chain of the examples of the executor, under a runner whose classes are all the same.
use snip36_prover_web.Common.{
  ℕ, ◌+◌, ◌*◌, String, true, false, none, some, List, [], ◌∷◌, nat_eq, Result, ok, ◌≡◌, refl, arith,
  traverse, pair_eq,
}
use snip36_prover_web.Common.Json.{find_field}
use snip36_prover_web.Common.Assoc.{lookup, insert, extend}
use snip36_prover_web.Proofs.Types.{Felt}
use snip36_prover_web.Signing.Crates.{prime}
use snip36_prover_web.Committer.Types.{StateMaps, empty_maps}
use snip36_prover_web.Provider.Commitments.{CommitmentInfo, StorageProofs}
use snip36_prover_web.Running.Blockifier.{VirtualBlockExecutionData}
use snip36_prover_web.Running.RpcExecutor.{simulate_and_get_initial_reads, new_executor}
use snip36_prover_web.Running.Classes.{
  v1, MaybeRelocatable, ClassManager, CasmContractClass, get_classes,
}
use snip36_prover_web.Running.Hints.{OsHints, Providers, create_virtual_os_hints}
use snip36_prover_web.Running.Prepared.{Describes, create_virtual_os_hints_lem}
use snip36_prover_web.Running.Runner.{
  Os, Connections, RpcRunnerFactory, factory_run_virtual_os, with_hash,
}
use snip36_prover_web.Running.Prefetch.{
  AgreesWith, Simulates, with_prefetch, executor_at, factory_run-prefetch,
}
use snip36_prover_web.Examples.Running.{numbers, output_of, chain, reader, node, reads_of, base}

abbrev class_manager : ClassManager ℕ ℕ ℕ
class_manager = record {
  get_compiled_class = λ h. ok (
      v1 (record {
        program_data = MaybeRelocatable.int 8 ∷ [];
        hints_collection = 0;
        bytecode_segment_felt_sizes = 1;
        entry_points_by_type = 2;
      }));
  get_compiled_class_hash_v2 = λ h c. ok (h + 100);
  join_error = none;
}

abbrev hints_of : ℕ → Result String ℕ
hints_of h = ok h

abbrev casm : CasmContractClass ℕ ℕ ℕ
casm = record {
  prime = prime;
  compiler_version = "";
  bytecode = 8 ∷ [];
  bytecode_segment_lengths = some 1;
  hints = 0;
  pythonic_hints = none;
  entry_points_by_type = 2;
}

abbrev trie : CommitmentInfo
trie = record { previous_root = 1; updated_root = 1; tree_height = 251; commitment_facts = [] }

abbrev proofs : StorageProofs
proofs = record {
  extended_initial_reads = record empty_maps {
    storage = ((7, 2), 9) ∷ [];
    declared_contracts = (5, true) ∷ [];
  };
  commitment_infos = record {
    contracts_trie_commitment_info = trie;
    classes_trie_commitment_info = trie;
    storage_tries_commitment_infos = (7, trie) ∷ [];
  };
}

abbrev providers : Providers numbers ℕ (CasmContractClass ℕ ℕ ℕ) ℕ
providers = record {
  get_classes = get_classes hints_of class_manager;
  get_storage_proofs = λ n d config. ok proofs;
  os_chain_info = λ c. record { chain_id = c; strk_fee_token_address = 4 };
  block_number = λ i. i;
  central_info = λ o. o.info;
}

abbrev executed : VirtualBlockExecutionData numbers
executed = record {
  execution_outputs = output_of 3 ∷ [];
  initial_reads = empty_maps;
  state_diff = empty_maps;
  executed_class_hashes = 5 ∷ [];
  l2_to_l1_messages = 3 ∷ [];
  base_block_info = base;
}

create_virtual_os_hints_lem_example :
    (hints : OsHints numbers ℕ (CasmContractClass ℕ ℕ ℕ) ℕ) × (create_virtual_os_hints numbers ℕ
        (CasmContractClass ℕ ℕ ℕ)
        ℕ
        providers
        executed
        (record { include_state_changes = false })
        ((3, 300) ∷ [])
      ≡ ok hints)
    × Describes numbers ℕ ℕ hints_of class_manager providers executed proofs ((3, 300) ∷ []) hints
unfolding get_classes insert
create_virtual_os_hints_lem_example =
    create_virtual_os_hints_lem numbers ℕ ℕ hints_of class_manager providers executed
      (record { include_state_changes = false }) ((3, 300) ∷ [])
      (record {
        compiled_classes = (105, casm) ∷ [];
        class_hash_to_compiled_class_hash = (5, 105) ∷ [];
      })
      proofs refl refl refl

abbrev os : Os numbers chain ℕ (CasmContractClass ℕ ℕ ℕ) ℕ ℕ
os = record {
  calculate_transaction_hash = λ c tx. ok (tx * 100);
  run_virtual_os = λ hints. ok 1;
  join_error = none;
}

abbrev connections : Connections numbers chain ℕ (CasmContractClass ℕ ℕ ℕ) ℕ ℕ os
connections = record {
  connect = λ url c b. node;
  providers_for = λ url r m. providers;
  chain_id_of = λ c. c;
  from_value = reads_of;
}

abbrev factory : RpcRunnerFactory numbers chain ℕ (CasmContractClass ℕ ℕ ℕ) ℕ ℕ os
factory = record {
  node_url = "http://node";
  chain_info = 3;
  contract_class_manager = 0;
  runner_config = record {
    storage_proof_config = record { include_state_changes = false };
    virtual_block_executor_config = record {
      prefetch_state = true;
      bouncer_config = 1;
      use_latest_versioned_constants = true;
    };
  };
}

abbrev prefetched_maps : StateMaps
prefetched_maps = record empty_maps { nonces = (7, 1) ∷ []; storage = ((7, 2), 9) ∷ [] }

prefetched_maps-AgreesWith : AgreesWith prefetched_maps reader
unfolding lookup
prefetched_maps-AgreesWith = record {
  storage = λ a k v h. ground (arith, h);
  nonces = λ a v h. ground (arith, h);
  class_hashes = λ a v h. cc h;
  declared = λ c v h. cc h;
}

factory-Simulates :
    (hashed : List (ℕ × Felt))
    → traverse (with_hash numbers chain ℕ (CasmContractClass ℕ ℕ ℕ) ℕ ℕ os 3) (3 ∷ []) ≡ ok hashed
    → Simulates numbers chain reads_of
        (executor_at numbers chain ℕ (CasmContractClass ℕ ℕ ℕ) ℕ ℕ os connections factory 12)
        12
        hashed
unfolding simulate_and_get_initial_reads find_field extend insert new_executor
factory-Simulates hashed h =
    let same : (3, 300) ∷ [] ≡ hashed = cc h in
    rw (← same) (prefetched_maps, refl, prefetched_maps-AgreesWith)

factory_run-prefetch_example :
    factory_run_virtual_os numbers chain ℕ
      (CasmContractClass ℕ ℕ ℕ)
      ℕ
      ℕ
      os
      connections
      (with_prefetch numbers chain ℕ (CasmContractClass ℕ ℕ ℕ) ℕ ℕ os connections true factory)
      12
      (3 ∷ [])
    ≡ factory_run_virtual_os numbers chain ℕ
        (CasmContractClass ℕ ℕ ℕ)
        ℕ
        ℕ
        os
        connections
        (with_prefetch numbers chain ℕ (CasmContractClass ℕ ℕ ℕ) ℕ ℕ os connections false factory)
        12
        (3 ∷ [])
factory_run-prefetch_example =
    factory_run-prefetch numbers chain ℕ (CasmContractClass ℕ ℕ ℕ) ℕ ℕ os connections factory 12
      (3 ∷ []) factory-Simulates
