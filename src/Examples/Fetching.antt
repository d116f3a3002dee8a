-- ===== src/Examples/Fetching.antt =====
-- A node with one entry in each path, and a query of 103 keys that is fetched in two requests.
use snip36_prover_web.Common.{
  ℕ, zero, suc, ◌≡◌, refl, some, List, [], ◌∷◌, map, ok, arith, All, nat_eq,
}
use snip36_prover_web.Proofs.Types.{RpcStorageProofsQuery, edge_node, binary_node}
use snip36_prover_web.Proofs.Query.{split_query}
use snip36_prover_web.Proofs.Node.{Tries, respond}
use snip36_prover_web.Proofs.Position.{HasDistinctAddresses}
use snip36_prover_web.Proofs.Keys.{keys_for}
use snip36_prover_web.Proofs.Split.{FitsLimit, Partitions, split_query_total}
use snip36_prover_web.Proofs.Fetch.{GetStorageProof, fetch_proofs, fetch_proofs-eq-respond, Answers}
use snip36_prover_web.Committer.Types.{StateMaps, empty_maps}
use snip36_prover_web.Provider.Prepare.{ExecutionReads, prepare_query}
use snip36_prover_web.Provider.Sorting.{count, IsSorted}
use snip36_prover_web.Provider.Ordered.{
  read_pairs, prepare_query_lem, prepare_query-HasDistinctAddresses,
}

abbrev pub one_node : ℕ → Tries
one_node block = record {
  roots = record { contracts_tree_root = 1; classes_tree_root = 2; block_hash = block };
  class_path = λ h. (2, edge_node h 251 h) ∷ [];
  contract_path = λ a. (1, edge_node a 251 a) ∷ [];
  leaf = λ a. record { nonce = a; class_hash = 5; storage_root = some 3 };
  storage_path = λ a k. (3, binary_node k (suc k)) ∷ (k, edge_node k 250 a) ∷ [];
}

abbrev pub honest : GetStorageProof
honest block hs addresses cs = ok (
    respond (one_node block)
      (record { class_hashes = hs; contract_addresses = addresses; contract_storage_keys = cs }))

pub honest-Answers : Answers honest one_node
honest-Answers block q h = refl

abbrev up_to : ℕ → List ℕ
up_to zero = []
up_to (suc n) = n ∷ up_to n

abbrev two_contracts : RpcStorageProofsQuery
two_contracts = record {
  class_hashes = 5 ∷ [];
  contract_addresses = 7 ∷ 8 ∷ [];
  contract_storage_keys =
      record { contract_address = 7; storage_keys = up_to 90 }
      ∷ record { contract_address = 8; storage_keys = up_to 10 }
      ∷ [];
}

two_contracts-distinct : HasDistinctAddresses two_contracts.contract_storage_keys
two_contracts-distinct = ground arith

fetch_proofs-eq-respond_example :
    fetch_proofs honest 12 two_contracts ≡ ok (respond (one_node 12) two_contracts)
fetch_proofs-eq-respond_example =
    fetch_proofs-eq-respond honest one_node honest-Answers 12 two_contracts two_contracts-distinct

split_query_total_example :
    (parts : List RpcStorageProofsQuery) × (split_query two_contracts 40 ≡ some parts)
    × All (FitsLimit 40) parts
    × Partitions parts two_contracts
split_query_total_example = split_query_total two_contracts 40 (omega arith)

abbrev pub reads : ExecutionReads
reads = record {
  executed_class_hashes = 5 ∷ [];
  initial_reads = record empty_maps { storage = ((8, 1), 0) ∷ ((7, 2), 9) ∷ ((8, 3), 4) ∷ [] };
}

abbrev pub addresses_of : StateMaps → List ℕ
addresses_of maps = 8 ∷ 7 ∷ []

prepare_query_example :
    ((prepare_query addresses_of reads).class_hashes ≡ 5 ∷ [])
    × ((a : ℕ)
        → count a (prepare_query addresses_of reads).contract_addresses
          ≡ count a (addresses_of reads.initial_reads))
    × IsSorted (prepare_query addresses_of reads).contract_addresses
    × ((prepare_query addresses_of reads).contract_storage_keys
        ≡ map
            (λ a. record {
              contract_address = a;
              storage_keys = keys_for a (read_pairs reads.initial_reads.storage);
            })
            (prepare_query addresses_of reads).contract_addresses)
prepare_query_example = prepare_query_lem addresses_of reads

prepare_query-HasDistinctAddresses_example :
    HasDistinctAddresses (prepare_query addresses_of reads).contract_storage_keys
    × All
        (λ a.
          count a
            (map (λ e. e.contract_address) (prepare_query addresses_of reads).contract_storage_keys)
          ≡ 1)
        (addresses_of reads.initial_reads)
    × ((a : ℕ)
        → count a (addresses_of reads.initial_reads) ≡ 0
        → count a
            (map (λ e. e.contract_address) (prepare_query addresses_of reads).contract_storage_keys)
          ≡ 0)
prepare_query-HasDistinctAddresses_example =
    prepare_query-HasDistinctAddresses addresses_of reads (ground arith)
