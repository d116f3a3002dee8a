-- ===== src/Proofs/Fetch.antt =====
-- storage_proofs.rs: `fetch_single_proof`, `fetch_proofs`.
use snip36_prover_web.Common.{
  ℕ, suc, ◌<◌, ◌≤◌, ◌≡◌, refl, sym, ap, ◌∙◌, inl, inr, some, List, [], ◌∷◌, map, zip, length,
  length-map, leb, Bool-cases, if◌then◌else◌, Result, ok, ◌>>=◌, map_err, traverse, ok_or, All,
  arith, length-append, nat_beq, true,
}
use snip36_prover_web.Proofs.Types.{
  Felt, QueryItem, ContractStorageKeys, RpcStorageProofsQuery, RpcStorageProof, ProofProviderError,
  rpc, panicked,
}
use snip36_prover_web.Proofs.Query.{
  count_total_keys, split_query, chunks, flatten_query, collect_query, sum_keys,
  max_keys_per_request,
}
use snip36_prover_web.Proofs.Items.{storage_pairs, pair_with}
use snip36_prover_web.Proofs.Split.{Partitions, FitsLimit, parts_of-Partitions, parts_of-FitsLimit}
use snip36_prover_web.Proofs.Merge.{
  addr_to_idx, merge_chunks, merge_start, merge_storage_proofs, no_nodes,
}
use snip36_prover_web.Proofs.Node.{Tries, gather, respond}
use snip36_prover_web.Proofs.Position.{HasDistinctAddresses}
use snip36_prover_web.Proofs.Keys.{keys_for-storage_pairs}
use snip36_prover_web.Proofs.Refines.{proof_after, proof_after-All, merged_after, merge_chunks_lem}
use snip36_prover_web.Proofs.Parts.{collected-Listed}

-- `JsonRpcClient::get_storage_proof`: block, class hashes, contract addresses, storage keys. A
-- number stands for a `ProviderError`.
abbrev pub GetStorageProof : Type 0
GetStorageProof = ℕ → List Felt → List Felt → List ContractStorageKeys → Result ℕ RpcStorageProof

module _ (get_storage_proof : GetStorageProof) where
  unfoldable pub fetch_single_proof :
      ℕ → RpcStorageProofsQuery → Result ProofProviderError RpcStorageProof
  fetch_single_proof block_number query = map_err rpc (
      get_storage_proof block_number query.class_hashes query.contract_addresses
        query.contract_storage_keys)

  unfoldable pub fetch_proofs :
      ℕ → RpcStorageProofsQuery → Result ProofProviderError RpcStorageProof
  unfolding fetch_single_proof
  fetch_proofs block_number query =
      if leb (count_total_keys query) max_keys_per_request
      then fetch_single_proof block_number query
      else do
        parts ← ok_or (split_query query max_keys_per_request) panicked
        proofs ← traverse (fetch_single_proof block_number) parts
        ok_or (merge_storage_proofs proofs parts query) panicked

length-storage_pairs : (cs : List ContractStorageKeys) → length (storage_pairs cs) ≡ sum_keys cs
length-storage_pairs [] = refl
length-storage_pairs (c ∷ cs) = omega (
  arith,
  length-append (pair_with c.contract_address c.storage_keys) (storage_pairs cs),
  length-pair_with c.contract_address c.storage_keys,
  length-storage_pairs cs,
)
  where
    length-pair_with : (a : Felt) (ks : List Felt) → length (pair_with a ks) ≡ length ks
    length-pair_with a [] = refl
    length-pair_with a (k ∷ ks) = ap suc (length-pair_with a ks)

-- A query with a key has a part.
Partitions-ne-nil : (q : RpcStorageProofsQuery) → 0 < count_total_keys q → Partitions [] q → ⊥
unfolding count_total_keys
Partitions-ne-nil q h p = omega (
  arith,
  ap length p.class_hashes,
  ap length p.contract_addresses,
  ap length p.storage,
  length-storage_pairs q.contract_storage_keys,
  h,
)

-- With no key seen the merge has empty tries.
no_proofs :
    (node : Tries) (cs : List ContractStorageKeys) → map (proof_after node []) cs ≡ map no_nodes cs
unfolding gather
no_proofs node [] = refl
no_proofs node (c ∷ cs) = ap (◌∷◌ []) (no_proofs node cs)

merge_start-eq :
    (node : Tries) (q : RpcStorageProofsQuery)
    → merge_start q ≡ merged_after node q.contract_storage_keys [] [] []
unfolding gather
merge_start-eq node q = λ i. record {
  classes_proof = [];
  contracts_proof = record { nodes = []; contract_leaves_data = [] };
  contracts_storage_proofs = sym (no_proofs node q.contract_storage_keys) i;
}

module _ (node : Tries) (q : RpcStorageProofsQuery)
    (distinct : HasDistinctAddresses q.contract_storage_keys) where
  merged_lem :
      (itemss : List (List QueryItem))
      → Partitions (map collect_query itemss) q
      → merge_chunks
          (addr_to_idx q.contract_storage_keys)
          (zip (map collect_query itemss) (map (respond node) (map collect_query itemss)))
          (merge_start q)
        ≡ some (
            merged_after node q.contract_storage_keys q.class_hashes q.contract_addresses
              (storage_pairs q.contract_storage_keys))
  merged_lem itemss p =
      let parts = map collect_query itemss in
      ap (merge_chunks (addr_to_idx q.contract_storage_keys) (zip parts (map (respond node) parts)))
        (merge_start-eq node q)
      ∙ merge_chunks_lem node q.contract_storage_keys distinct parts [] [] []
          (collected-Listed q.contract_storage_keys itemss p.storage)
      ∙ simp (p.class_hashes, p.contract_addresses, p.storage)

  -- Merging the responses to the parts gives the response to the whole.
  merge_storage_proofs_lem :
      (items : List QueryItem) (itemss : List (List QueryItem))
      → Partitions (map collect_query (items ∷ itemss)) q
      → merge_storage_proofs
          (map (respond node) (map collect_query (items ∷ itemss)))
          (map collect_query (items ∷ itemss))
          q
        ≡ some (respond node q)
  unfolding merge_storage_proofs respond
  merge_storage_proofs_lem items itemss p =
      let e : nat_beq (length (map (respond node) (map collect_query (items ∷ itemss))))
            (length (map collect_query (items ∷ itemss)))
          ≡ true =
        ground (arith, length-map (map collect_query (items ∷ itemss)) (respond node)) in
      rw e (rw (merged_lem (items ∷ itemss) p) whole)
    where
      whole :
          some (record {
            classes_proof = gather node.class_path q.class_hashes;
            contracts_proof = record {
              nodes = gather node.contract_path q.contract_addresses;
              contract_leaves_data = map node.leaf q.contract_addresses;
            };
            contracts_storage_proofs =
                map
                  (proof_after node (storage_pairs q.contract_storage_keys))
                  q.contract_storage_keys;
            global_roots = node.roots;
          })
          ≡ some (respond node q)
      whole =
          rw
            (proof_after-All node (storage_pairs q.contract_storage_keys) q.contract_storage_keys
              (keys_for-storage_pairs q.contract_storage_keys distinct))
            refl

-- A node that answers any request of at most 100 keys, and may refuse a longer one.
abbrev pub Answers : GetStorageProof → (ℕ → Tries) → Type 0
Answers get_storage_proof node =
    (block : ℕ) (q : RpcStorageProofsQuery)
    → count_total_keys q ≤ 100
    → get_storage_proof block q.class_hashes q.contract_addresses q.contract_storage_keys
      ≡ ok (respond (node block) q)

module _ (get_storage_proof : GetStorageProof) (node : ℕ → Tries)
    (answers : Answers get_storage_proof node) where
  fetch_single_proof_lem :
      (block : ℕ) (q : RpcStorageProofsQuery)
      → count_total_keys q ≤ 100
      → fetch_single_proof get_storage_proof block q ≡ ok (respond (node block) q)
  unfolding fetch_single_proof
  fetch_single_proof_lem block q h = rw (answers block q h) refl

  fetch_parts :
      (block : ℕ) (parts : List RpcStorageProofsQuery)
      → All (FitsLimit 100) parts
      → traverse (fetch_single_proof get_storage_proof block) parts
        ≡ ok (map (respond (node block)) parts)
  fetch_parts block [] h = refl
  fetch_parts block (q ∷ parts) (p, h) =
      rw (fetch_single_proof_lem block q p.1) (rw (fetch_parts block parts h) refl)

  -- Against a node that answers every request of at most 100 keys, and may refuse a longer one, a
  -- query of any size with one entry for each contract succeeds, and the result is what the node
  -- would answer to the whole query if it had no limit.
  pub fetch_proofs-eq-respond :
      (block : ℕ) (q : RpcStorageProofsQuery)
      → HasDistinctAddresses q.contract_storage_keys
      → fetch_proofs get_storage_proof block q ≡ ok (respond (node block) q)
  unfolding fetch_proofs split_query
  fetch_proofs-eq-respond block q distinct = elim (Bool-cases (leb (count_total_keys q) 100)) [
    | inl small ↦ rw small (fetch_single_proof_lem block q (ground arith))
    | inr large ↦ rw large (
        chunked (chunks 100 (flatten_query q)) (parts_of-Partitions q 99) (parts_of-FitsLimit q 99)
          (ground arith))
  ]
    where
      chunked :
          (itemss : List (List QueryItem))
          → Partitions (map collect_query itemss) q
          → All (FitsLimit 100) (map collect_query itemss)
          → 0 < count_total_keys q
          → (traverse (fetch_single_proof get_storage_proof block) (map collect_query itemss)
              >>= λ proofs.
                  ok_or (merge_storage_proofs proofs (map collect_query itemss) q) panicked)
            ≡ ok (respond (node block) q)
      chunked [] p f h = absurd (Partitions-ne-nil q h p)
      chunked (items ∷ itemss) p f h =
          rw (fetch_parts block (map collect_query (items ∷ itemss)) f)
            (rw (merge_storage_proofs_lem (node block) q distinct items itemss p) refl)
