-- ===== src/Running/InitialReads.antt =====
-- portable-core/starknet_transaction_prover/src/running/serde_utils.rs.
use snip36_prover_web.Common.{String, Bool, List, [], map, Result, ok, ◌>>=◌, nat_eq, pair_eq}
use snip36_prover_web.Common.Json.{Json}
use snip36_prover_web.Common.Assoc.{extend}
use snip36_prover_web.Proofs.Types.{Felt, ContractAddress}
use snip36_prover_web.Committer.Types.{StateMaps}

pub record StorageEntry : Type 0 where
  pub contract_address : ContractAddress
  pub key : Felt
  pub value : Felt

pub record NonceEntry : Type 0 where
  pub contract_address : ContractAddress
  pub nonce : Felt

pub record ClassHashEntry : Type 0 where
  pub contract_address : ContractAddress
  pub class_hash : Felt

pub record DeclaredEntry : Type 0 where
  pub class_hash : Felt
  pub is_declared : Bool

pub record RpcInitialReads : Type 0 where
  pub storage : List StorageEntry
  pub nonces : List NonceEntry
  pub class_hashes : List ClassHashEntry
  pub declared_contracts : List DeclaredEntry

-- `From<RpcInitialReads> for StateMaps`
unfoldable pub state_maps_of : RpcInitialReads → StateMaps
state_maps_of r = record {
  nonces = extend [] (map (λ e. (e.contract_address, e.nonce)) r.nonces);
  class_hashes = extend [] (map (λ e. (e.contract_address, e.class_hash)) r.class_hashes);
  storage = extend [] (map (λ e. ((e.contract_address, e.key), e.value)) r.storage);
  compiled_class_hashes = [];
  declared_contracts = extend [] (map (λ e. (e.class_hash, e.is_declared)) r.declared_contracts);
}

-- `from_value` is the deserializer that serde derives for `RpcInitialReads`.
unfoldable pub deserialize_rpc_initial_reads :
    (Json → Result String RpcInitialReads) → Json → Result String StateMaps
unfolding state_maps_of
deserialize_rpc_initial_reads from_value value = from_value value >>= λ r. ok (state_maps_of r)
