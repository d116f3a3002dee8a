-- ===== src/Running/Reader.antt =====
-- virtual_block_executor.rs: `SimulatedStateReader`.
use snip36_prover_web.Common.{String, Option, none, some, Result, ok, nat_eq, pair_eq}
use snip36_prover_web.Common.Assoc.{lookup}
use snip36_prover_web.Committer.Types.{StateMaps}
use snip36_prover_web.Running.Blockifier.{StateReader}

-- A prefetched value, or the answer of the inner reader.
abbrev pub prefetched : {A : Type 0} → Option A → Result String A → Result String A
prefetched none inner = inner
prefetched (some a) inner = ok a

unfoldable pub simulated_state_reader :
    {S F : Type 0} → StateMaps → StateReader S F → StateReader S F
unfolding lookup
simulated_state_reader maps rpc = record {
  get_storage_at = λ a k. prefetched (lookup (a, k) maps.storage) (rpc.get_storage_at a k);
  get_nonce_at = λ a. prefetched (lookup a maps.nonces) (rpc.get_nonce_at a);
  get_class_hash_at = λ a. prefetched (lookup a maps.class_hashes) (rpc.get_class_hash_at a);
  get_compiled_class = rpc.get_compiled_class;
  get_compiled_class_hash = rpc.get_compiled_class_hash;
  get_compiled_class_hash_v2 = rpc.get_compiled_class_hash_v2;
  get_compiled_classes = rpc.get_compiled_classes;
  is_declared = λ h. prefetched (lookup h maps.declared_contracts) (rpc.is_declared h);
}
