-- ===== src/Proofs/Merge.antt =====
-- storage_proofs.rs: `merge_storage_proofs`.
use snip36_prover_web.Common.{
  ℕ, zero, suc, Option, none, some, List, [], ◌∷◌, ◌++◌, map, zip, length, nat_beq, nat_eq,
  if◌then◌else◌,
}
use snip36_prover_web.Common.Assoc.{Assoc, lookup, insert, extend}
use snip36_prover_web.Proofs.Types.{
  Felt, ContractStorageKeys, RpcStorageProofsQuery, Nodes, ContractsProof, RpcStorageProof,
}

-- `enumerate().map(|(i, csk)| (csk.contract_address, i)).collect::<HashMap<_, _>>()`
unfoldable pub index_from : ℕ → List ContractStorageKeys → Assoc Felt ℕ → Assoc Felt ℕ
index_from i [] m = m
index_from i (c ∷ cs) m = index_from (suc i) cs (insert c.contract_address i m)

unfoldable pub addr_to_idx : List ContractStorageKeys → Assoc Felt ℕ
unfolding index_from
addr_to_idx cs = index_from 0 cs []

-- `proofs[i].extend(n)`
unfoldable pub extend_at : ℕ → Nodes → List Nodes → List Nodes
extend_at i n [] = []
extend_at zero n (p ∷ ps) = extend p n ∷ ps
extend_at (suc i) n (p ∷ ps) = p ∷ extend_at i n ps

-- The inner loop; `none` is the `expect` on an address that the original query lacks.
unfoldable pub merge_storage :
    Assoc Felt ℕ → List (ContractStorageKeys × Nodes) → List Nodes → Option (List Nodes)
unfolding extend_at
merge_storage idx [] out = some out
merge_storage idx ((csk, proof) ∷ rest) out = elim (lookup csk.contract_address idx) [
  | none ↦ none
  | some i ↦ merge_storage idx rest (extend_at i proof out)
]

-- What the outer loop accumulates.
pub record Merged : Type 0 where
  pub classes_proof : Nodes
  pub contracts_proof : ContractsProof
  pub contracts_storage_proofs : List Nodes

abbrev pub merge_trie_nodes : Merged → RpcStorageProof → List Nodes → Merged
merge_trie_nodes m proof storage = record {
  classes_proof = extend m.classes_proof proof.classes_proof;
  contracts_proof = record {
    nodes = extend m.contracts_proof.nodes proof.contracts_proof.nodes;
    contract_leaves_data =
        m.contracts_proof.contract_leaves_data ++ proof.contracts_proof.contract_leaves_data;
  };
  contracts_storage_proofs = storage;
}

unfoldable pub merge_chunks :
    Assoc Felt ℕ → List (RpcStorageProofsQuery × RpcStorageProof) → Merged → Option Merged
unfolding merge_storage
merge_chunks idx [] m = some m
merge_chunks idx ((chunk_query, proof) ∷ rest) m =
    elim (merge_storage idx (zip chunk_query.contract_storage_keys proof.contracts_storage_proofs)
      m.contracts_storage_proofs) [
        | none ↦ none
        | some storage ↦ merge_chunks idx rest (merge_trie_nodes m proof storage)
      ]

abbrev pub no_nodes : ContractStorageKeys → Nodes
no_nodes c = []

-- Empty tries, one for each contract of the original query.
abbrev pub merge_start : RpcStorageProofsQuery → Merged
merge_start query = record {
  classes_proof = [];
  contracts_proof = record { nodes = []; contract_leaves_data = [] };
  contracts_storage_proofs = map no_nodes query.contract_storage_keys;
}

-- `none` is a panic: the lengths differ, there is no proof, or an address is unknown.
unfoldable pub merge_storage_proofs :
    List RpcStorageProof
    → List RpcStorageProofsQuery
    → RpcStorageProofsQuery
    → Option RpcStorageProof
unfolding merge_chunks addr_to_idx
merge_storage_proofs [] split_queries original_query = none
merge_storage_proofs (p ∷ ps) split_queries original_query =
    if nat_beq (length (p ∷ ps)) (length split_queries)
    then elim (merge_chunks (addr_to_idx original_query.contract_storage_keys)
        (zip split_queries (p ∷ ps)) (merge_start original_query)) [
          | none ↦ none
          | some m ↦ some (record {
            classes_proof = m.classes_proof;
            contracts_proof = m.contracts_proof;
            contracts_storage_proofs = m.contracts_storage_proofs;
            global_roots = p.global_roots;
          })
        ]
    else none
