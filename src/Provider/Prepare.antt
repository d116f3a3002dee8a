-- ===== src/Provider/Prepare.antt =====
-- storage_proofs.rs: `prepare_query`.
use snip36_prover_web.Common.{
  Option, none, some, List, [], ◌∷◌, ◌++◌, map, leb, if◌then◌else◌, nat_eq,
}
use snip36_prover_web.Common.Assoc.{Assoc, lookup, insert}
use snip36_prover_web.Proofs.Types.{
  Felt, ContractAddress, ContractStorageKeys, RpcStorageProofsQuery,
}
use snip36_prover_web.Committer.Types.{StateMaps}

-- What `prepare_query` reads of `VirtualBlockExecutionData`.
pub record ExecutionReads : Type 0 where
  pub executed_class_hashes : List Felt
  pub initial_reads : StateMaps

-- `contract_addresses.sort()`
unfoldable pub insert_sorted : ContractAddress → List ContractAddress → List ContractAddress
insert_sorted a [] = a ∷ []
insert_sorted a (b ∷ xs) = if leb a b then a ∷ b ∷ xs else b ∷ insert_sorted a xs

unfoldable pub sort : List ContractAddress → List ContractAddress
unfolding insert_sorted
sort [] = []
sort (a ∷ xs) = insert_sorted a (sort xs)

-- `unwrap_or_default()` and `entry(..).or_default()` read a missing list as empty.
abbrev pub or_empty : Option (List Felt) → List Felt
or_empty none = []
or_empty (some ks) = ks

-- The loop over `initial_reads.storage.keys()`.
unfoldable pub group_keys :
    Assoc (ContractAddress × Felt) Felt
    → Assoc ContractAddress (List Felt)
    → Assoc ContractAddress (List Felt)
group_keys [] by_address = by_address
group_keys (((address, key), value) ∷ rest) by_address =
    group_keys rest (insert address (or_empty (lookup address by_address) ++ key ∷ []) by_address)

abbrev pub entry_of : Assoc ContractAddress (List Felt) → ContractAddress → ContractStorageKeys
entry_of by_address address = record {
  contract_address = address;
  storage_keys = or_empty (lookup address by_address);
}

-- `get_contract_addresses` is the blockifier's: the set of the contracts that the reads touch.
module _ (get_contract_addresses : StateMaps → List ContractAddress) where
  unfoldable pub prepare_query : ExecutionReads → RpcStorageProofsQuery
  unfolding sort group_keys
  prepare_query execution_data =
      let addresses = sort (get_contract_addresses execution_data.initial_reads) in
      record {
        class_hashes = execution_data.executed_class_hashes;
        contract_addresses = addresses;
        contract_storage_keys =
            map (entry_of (group_keys execution_data.initial_reads.storage [])) addresses;
      }
