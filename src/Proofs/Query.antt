-- ===== src/Proofs/Query.antt =====
-- storage_proofs.rs: counting, flattening, collecting and splitting a query.
use snip36_prover_web.Common.{
  ℕ, zero, suc, ◌+◌, Option, none, some, List, [], ◌∷◌, ◌++◌, map, length, take, drop, nat_beq,
  if◌then◌else◌,
}
use snip36_prover_web.Proofs.Types.{
  Felt, ContractStorageKeys, RpcStorageProofsQuery, empty_query, QueryItem, class_hash,
  contract_address, storage_key,
}

abbrev pub sum_keys : List ContractStorageKeys → ℕ
sum_keys [] = 0
sum_keys (c ∷ cs) = length c.storage_keys + sum_keys cs

unfoldable pub count_total_keys : RpcStorageProofsQuery → ℕ
count_total_keys query =
    length query.class_hashes
    + length query.contract_addresses
    + sum_keys query.contract_storage_keys

-- The nested loop over the contracts and their keys.
unfoldable pub flatten_storage : List ContractStorageKeys → List QueryItem
flatten_storage [] = []
flatten_storage (c ∷ cs) = map (storage_key c.contract_address) c.storage_keys ++ flatten_storage cs

unfoldable pub flatten_query : RpcStorageProofsQuery → List QueryItem
unfolding flatten_storage
flatten_query query =
    map class_hash query.class_hashes
    ++ (map contract_address query.contract_addresses
        ++ flatten_storage query.contract_storage_keys)

-- The `StorageKey` arm: the last entry takes the key if it has the address, else a new entry does.
unfoldable pub push_storage_key : Felt → Felt → List ContractStorageKeys → List ContractStorageKeys
push_storage_key a k [] = record { contract_address = a; storage_keys = k ∷ [] } ∷ []
push_storage_key a k (last ∷ []) =
    if nat_beq last.contract_address a
    then record last { storage_keys = last.storage_keys ++ k ∷ [] } ∷ []
    else last ∷ record { contract_address = a; storage_keys = k ∷ [] } ∷ []
push_storage_key a k (c ∷ d ∷ cs) = c ∷ push_storage_key a k (d ∷ cs)

-- One round of the loop of `collect_query`.
unfoldable pub collect_item : RpcStorageProofsQuery → QueryItem → RpcStorageProofsQuery
unfolding push_storage_key
collect_item query (class_hash h) = record query { class_hashes = query.class_hashes ++ h ∷ [] }
collect_item query (contract_address a) = record query {
  contract_addresses = query.contract_addresses ++ a ∷ [];
}
collect_item query (storage_key a k) = record query {
  contract_storage_keys = push_storage_key a k query.contract_storage_keys;
}

unfoldable pub collect_from : RpcStorageProofsQuery → List QueryItem → RpcStorageProofsQuery
unfolding collect_item
collect_from query [] = query
collect_from query (item ∷ items) = collect_from (collect_item query item) items

unfoldable pub collect_query : List QueryItem → RpcStorageProofsQuery
unfolding collect_from
collect_query items = collect_from empty_query items

-- `items.chunks(n)`, with as many rounds as there are items.
unfoldable pub chunks_fuel : ℕ → ℕ → List QueryItem → List (List QueryItem)
chunks_fuel zero n items = []
chunks_fuel (suc f) n [] = []
chunks_fuel (suc f) n (item ∷ items) =
    take n (item ∷ items) ∷ chunks_fuel f n (drop n (item ∷ items))

unfoldable pub chunks : ℕ → List QueryItem → List (List QueryItem)
unfolding chunks_fuel
chunks n items = chunks_fuel (length items) n items

-- `none` is the failed assertion `max_keys > 0`.
unfoldable pub split_query : RpcStorageProofsQuery → ℕ → Option (List RpcStorageProofsQuery)
unfolding flatten_query collect_query chunks
split_query query zero = none
split_query query (suc n) = some (map collect_query (chunks (suc n) (flatten_query query)))

abbrev pub max_keys_per_request : ℕ
max_keys_per_request = 100
