-- ===== src/Running/Prefetch.antt =====
-- virtual_block_executor.rs: prefetching the state changes nothing where the simulation's reads are
-- the node's.
use mathlib.Core.Path.{fun_ext}
use snip36_prover_web.Common.{
  String, Bool, true, false, Option, none, some, List, Result, ok, traverse, ◌≡◌, refl, sym, ap,
  nat_eq, pair_eq, Result-cases, inl, inr,
}
use snip36_prover_web.Common.Json.{Json}
use snip36_prover_web.Common.Assoc.{lookup}
use snip36_prover_web.Proofs.Types.{Felt, ContractAddress}
use snip36_prover_web.Committer.Types.{StateMaps}
use snip36_prover_web.Running.Blockifier.{StateReader, Kinds, Hashed, Blockifier}
use snip36_prover_web.Running.InitialReads.{RpcInitialReads}
use snip36_prover_web.Running.Reader.{simulated_state_reader, prefetched}
use snip36_prover_web.Running.Executor.{VirtualBlockExecutor, execute}
use snip36_prover_web.Running.RpcExecutor.{
  RpcVirtualBlockExecutor, simulate_and_get_initial_reads, rpc_state_reader, rpc_base_block_info,
  rpc_executor, new_executor,
}
use snip36_prover_web.Running.Runner.{
  Os, Connections, RpcRunnerFactory, with_hash, run_virtual_os, create_runner,
  factory_run_virtual_os,
}

-- Every prefetched value is the node's.
pub record AgreesWith {S F : Type 0} (maps : StateMaps) (rpc : StateReader S F) : Type 0 where
  pub storage :
      (a : ContractAddress) (k v : Felt)
      → lookup (a, k) maps.storage ≡ some v
      → rpc.get_storage_at a k ≡ ok v
  pub nonces :
      (a : ContractAddress) (v : Felt) → lookup a maps.nonces ≡ some v → rpc.get_nonce_at a ≡ ok v
  pub class_hashes :
      (a : ContractAddress) (v : Felt)
      → lookup a maps.class_hashes ≡ some v
      → rpc.get_class_hash_at a ≡ ok v
  pub declared :
      (h : Felt) (v : Bool) → lookup h maps.declared_contracts ≡ some v → rpc.is_declared h ≡ ok v

prefetched-eq :
    {A : Type 0} (o : Option A) (inner : Result String A)
    → ((v : A) → o ≡ some v → inner ≡ ok v)
    → prefetched o inner ≡ inner
prefetched-eq none inner h = refl
prefetched-eq (some v) inner h = sym (h v refl)

simulated_state_reader-eq :
    {S F : Type 0} (maps : StateMaps) (rpc : StateReader S F)
    → AgreesWith maps rpc
    → simulated_state_reader maps rpc ≡ rpc
unfolding simulated_state_reader
simulated_state_reader-eq maps rpc h = λ i. record {
  get_storage_at =
      fun_ext
        (λ a. fun_ext (λ k.
          prefetched-eq (lookup (a, k) maps.storage) (rpc.get_storage_at a k) (h.storage a k)))
        i;
  get_nonce_at =
      fun_ext (λ a. prefetched-eq (lookup a maps.nonces) (rpc.get_nonce_at a) (h.nonces a)) i;
  get_class_hash_at =
      fun_ext
        (λ a.
          prefetched-eq (lookup a maps.class_hashes) (rpc.get_class_hash_at a) (h.class_hashes a))
        i;
  get_compiled_class = rpc.get_compiled_class;
  get_compiled_class_hash = rpc.get_compiled_class_hash;
  get_compiled_class_hash_v2 = rpc.get_compiled_class_hash_v2;
  get_compiled_classes = rpc.get_compiled_classes;
  is_declared =
      fun_ext
        (λ c. prefetched-eq (lookup c maps.declared_contracts) (rpc.is_declared c) (h.declared c))
        i;
}

module _ (k : Kinds) (b : Blockifier k) where
  execute_congruence :
      (v w : VirtualBlockExecutor k) (block_id : k.BlockId) (manager : k.ClassManager)
      (txs : Hashed k)
      → v.base_block_info block_id ≡ w.base_block_info block_id
      → v.state_reader block_id txs ≡ w.state_reader block_id txs
      → v.validate_txs_enabled ≡ w.validate_txs_enabled
      → execute k b v block_id manager txs ≡ execute k b w block_id manager txs
  unfolding execute
  execute_congruence v w block_id manager txs base reader validate =
      rw (base, reader, validate) refl

  module _ (from_value : Json → Result String RpcInitialReads) where
    abbrev prefetching : Bool → RpcVirtualBlockExecutor k → RpcVirtualBlockExecutor k
    prefetching on x = record x { config = record (x.config) { prefetch_state = on } }

    -- The simulation answers, and its reads are the node's.
    abbrev pub Simulates : RpcVirtualBlockExecutor k → k.BlockId → Hashed k → Type 0
    Simulates x block_id txs =
        (maps : StateMaps) × (simulate_and_get_initial_reads k b from_value x block_id txs
          ≡ ok maps)
        × AgreesWith maps x.rpc_state_reader.reader

    execute-prefetching :
        (x : RpcVirtualBlockExecutor k) (block_id : k.BlockId) (manager : k.ClassManager)
        (txs : Hashed k)
        → Simulates (prefetching true x) block_id txs
        → execute k b (rpc_executor k b from_value (prefetching true x)) block_id manager txs
          ≡ execute k b (rpc_executor k b from_value (prefetching false x)) block_id manager txs
    unfolding rpc_executor rpc_state_reader rpc_base_block_info
    execute-prefetching x block_id manager txs (maps, simulated, agrees) =
        execute_congruence (rpc_executor k b from_value (prefetching true x))
          (rpc_executor k b from_value (prefetching false x)) block_id manager txs refl
          (rw simulated (ap ok (simulated_state_reader-eq maps x.rpc_state_reader.reader agrees)))
          refl

module _ (k : Kinds) (b : Blockifier k) (C S X P : Type 0) (os : Os k b C S X P)
    (n : Connections k b C S X P os) where
  abbrev pub with_prefetch :
      Bool → RpcRunnerFactory k b C S X P os → RpcRunnerFactory k b C S X P os
  with_prefetch on f = record f {
    runner_config = record (f.runner_config) {
      virtual_block_executor_config = record (f.runner_config.virtual_block_executor_config) {
        prefetch_state = on;
      };
    };
  }

  -- The executor that the factory makes for a block, which prefetches.
  abbrev pub executor_at : RpcRunnerFactory k b C S X P os → k.BlockId → RpcVirtualBlockExecutor k
  executor_at f block_id =
      new_executor k b n.connect f.node_url f.chain_info block_id
        (with_prefetch true f).runner_config.virtual_block_executor_config

  -- Where the simulation of the hashed transactions succeeds and every value it reports is what
  -- the node's reader answers for the same key, a run of the OS gives the same result, errors
  -- included, with prefetching and without.
  pub factory_run-prefetch :
      (f : RpcRunnerFactory k b C S X P os) (block_id : k.BlockId) (txs : List k.InvokeTransaction)
      → ((hashed : Hashed k)
          → traverse (with_hash k b C S X P os (n.chain_id_of f.chain_info)) txs ≡ ok hashed
          → Simulates k b n.from_value (executor_at f block_id) block_id hashed)
      → factory_run_virtual_os k b C S X P os n (with_prefetch true f) block_id txs
        ≡ factory_run_virtual_os k b C S X P os n (with_prefetch false f) block_id txs
  unfolding factory_run_virtual_os run_virtual_os create_runner new_executor
  factory_run-prefetch f block_id txs simulates =
      elim (Result-cases (traverse (with_hash k b C S X P os (n.chain_id_of f.chain_info)) txs)) [
        | inl (hashed, e) ↦
            let same =
              execute-prefetching k b n.from_value (executor_at f block_id) block_id
                f.contract_class_manager hashed (simulates hashed e) in
            rw (e, same) refl
        | inr (error, e) ↦ rw e refl
      ]
