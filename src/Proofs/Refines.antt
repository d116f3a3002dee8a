-- ===== src/Proofs/Refines.antt =====
-- What the loops of the merge have computed once they have seen the keys of some chunks.
use mathlib.Core.List.{map-append}
use mathlib.Core.Path.{fun_ext}
use native.Mathlib.Nat.{zero-add}
use snip36_prover_web.Common.{
  ℕ, ◌≡◌, ◌≢◌, refl, sym, ap, ◌∙◌, inl, inr, some, List, [], ◌∷◌, ◌++◌, map, zip, append-nil,
  append_assoc, nat_eq, nat_beq, nat_beq_iff, Bool-cases, All, arith,
}
use snip36_prover_web.Common.Assoc.{Assoc, lookup}
use snip36_prover_web.Proofs.Types.{
  Felt, ContractAddress, ContractStorageKeys, RpcStorageProofsQuery, Nodes, RpcStorageProof,
}
use snip36_prover_web.Proofs.Items.{storage_pairs, pair_with}
use snip36_prover_web.Proofs.Split.{all_class_hashes, all_addresses, all_storage_pairs}
use snip36_prover_web.Proofs.Merge.{
  addr_to_idx, extend_at, merge_storage, Merged, merge_trie_nodes, merge_chunks,
}
use snip36_prover_web.Proofs.Node.{Tries, gather, extend-gather, storage_proof, respond}
use snip36_prover_web.Proofs.Position.{
  Listed, HasDistinctAddresses, lookup-index_from, extended, extend_at-position,
}
use snip36_prover_web.Proofs.Keys.{
  keys_for, keys_for-append, keys_for-pair_with, keys_for-pair_with_ne,
}

merge_storage-cons :
    (idx : Assoc Felt ℕ) (d : ContractStorageKeys) (p : Nodes)
    (rest : List (ContractStorageKeys × Nodes)) (out : List Nodes) {i : ℕ}
    → lookup d.contract_address idx ≡ some i
    → merge_storage idx ((d, p) ∷ rest) out ≡ merge_storage idx rest (extend_at i p out)
unfolding merge_storage
merge_storage-cons idx d p rest out h = rw (h, merge_storage) refl

merge_chunks-cons :
    (idx : Assoc Felt ℕ) (q : RpcStorageProofsQuery) (p : RpcStorageProof)
    (rest : List (RpcStorageProofsQuery × RpcStorageProof)) (m : Merged) {storage : List Nodes}
    → merge_storage idx
        (zip q.contract_storage_keys p.contracts_storage_proofs)
        m.contracts_storage_proofs
      ≡ some storage
    → merge_chunks idx ((q, p) ∷ rest) m ≡ merge_chunks idx rest (merge_trie_nodes m p storage)
unfolding merge_chunks
merge_chunks-cons idx q p rest m h = rw (h, merge_chunks) refl

module _ (node : Tries) where
  -- What the merge has for a contract once it has seen the pairs.
  abbrev pub proof_after : List (Felt × Felt) → ContractStorageKeys → Nodes
  proof_after seen c =
      gather (node.storage_path c.contract_address) (keys_for c.contract_address seen)

  extended-proof_after :
      (d : ContractStorageKeys) (seen : List (Felt × Felt)) (c : ContractStorageKeys)
      → extended d.contract_address (storage_proof node d) (proof_after seen) c
        ≡ proof_after (seen ++ pair_with d.contract_address d.storage_keys) c
  extended-proof_after d seen c =
      let step =
        keys_for-append c.contract_address seen (pair_with d.contract_address d.storage_keys) in
      elim (Bool-cases (nat_beq c.contract_address d.contract_address)) [
        | inl same ↦
            let p : c.contract_address ≡ d.contract_address = (nat_beq_iff _ _).0 same in
            rw same (
              rw step (
                rw p (
                  rw (keys_for-pair_with d.contract_address d.storage_keys) (
                    extend-gather (node.storage_path d.contract_address)
                      (keys_for d.contract_address seen) d.storage_keys))))
        | inr other ↦
            let apart : d.contract_address ≢ c.contract_address = ground arith in
            rw other (
              rw step (
                rw
                  (keys_for-pair_with_ne c.contract_address d.contract_address d.storage_keys apart)
                  (rw append-nil refl)))
      ]

  module _ (cs : List ContractStorageKeys) where
    -- What the outer loop has once it has seen these keys.
    abbrev pub merged_after : List Felt → List ContractAddress → List (Felt × Felt) → Merged
    merged_after hs xs seen = record {
      classes_proof = gather node.class_path hs;
      contracts_proof = record {
        nodes = gather node.contract_path xs;
        contract_leaves_data = map node.leaf xs;
      };
      contracts_storage_proofs = map (proof_after seen) cs;
    }

    abbrev pub AllListed : RpcStorageProofsQuery → Type 0
    AllListed q = All (λ d. Listed d.contract_address cs) q.contract_storage_keys

    merge_trie_nodes_lem :
        (q : RpcStorageProofsQuery) (hs : List Felt) (xs : List ContractAddress)
        (seen : List (Felt × Felt))
        → merge_trie_nodes
            (merged_after hs xs seen)
            (respond node q)
            (map (proof_after (seen ++ storage_pairs q.contract_storage_keys)) cs)
          ≡ merged_after
              (hs ++ q.class_hashes)
              (xs ++ q.contract_addresses)
              (seen ++ storage_pairs q.contract_storage_keys)
    unfolding respond
    merge_trie_nodes_lem q hs xs seen = λ i. record {
      classes_proof = extend-gather node.class_path hs q.class_hashes i;
      contracts_proof = record {
        nodes = extend-gather node.contract_path xs q.contract_addresses i;
        contract_leaves_data = sym (map-append node.leaf xs q.contract_addresses) i;
      };
      contracts_storage_proofs =
          map (proof_after (seen ++ storage_pairs q.contract_storage_keys)) cs;
    }

  module _ (cs : List ContractStorageKeys) (distinct : HasDistinctAddresses cs) where
    merge_storage_lem :
        (ds : List ContractStorageKeys) (seen : List (Felt × Felt))
        → All (λ d. Listed d.contract_address cs) ds
        → merge_storage
            (addr_to_idx cs)
            (zip ds (map (storage_proof node) ds))
            (map (proof_after seen) cs)
          ≡ some (map (proof_after (seen ++ storage_pairs ds)) cs)
    unfolding merge_storage addr_to_idx
    merge_storage_lem [] seen h = rw append-nil refl
    merge_storage_lem (d ∷ ds) seen (l, h) =
        merge_storage-cons (addr_to_idx cs) d (storage_proof node d) _ (map (proof_after seen) cs)
          (lookup-index_from d.contract_address 0 cs [] distinct l ∙ ap some (zero-add _))
        ∙ ap (merge_storage (addr_to_idx cs) (zip ds (map (storage_proof node) ds))) (
            extend_at-position d.contract_address (storage_proof node d) (proof_after seen) cs
              distinct l
            ∙ ap (λ f. map f cs) (fun_ext (extended-proof_after d seen)))
        ∙ merge_storage_lem ds (seen ++ pair_with d.contract_address d.storage_keys) h
        ∙ rw append_assoc refl

    pub merge_chunks_lem :
        (parts : List RpcStorageProofsQuery) (hs : List Felt) (xs : List ContractAddress)
        (seen : List (Felt × Felt))
        → All (AllListed cs) parts
        → merge_chunks
            (addr_to_idx cs)
            (zip parts (map (respond node) parts))
            (merged_after cs hs xs seen)
          ≡ some (
              merged_after cs
                (hs ++ all_class_hashes parts)
                (xs ++ all_addresses parts)
                (seen ++ all_storage_pairs parts))
    unfolding merge_chunks
    merge_chunks_lem [] hs xs seen h = simp append-nil
    merge_chunks_lem (q ∷ parts) hs xs seen (l, h) =
        merge_chunks-cons (addr_to_idx cs) q (respond node q) (zip parts (map (respond node) parts))
          (merged_after cs hs xs seen)
          {storage = map (proof_after (seen ++ storage_pairs q.contract_storage_keys)) cs}
          (unfold respond in merge_storage_lem q.contract_storage_keys seen l)
        ∙ ap (merge_chunks (addr_to_idx cs) (zip parts (map (respond node) parts)))
            (merge_trie_nodes_lem cs q hs xs seen)
        ∙ merge_chunks_lem parts (hs ++ q.class_hashes) (xs ++ q.contract_addresses)
            (seen ++ storage_pairs q.contract_storage_keys) h
        ∙ simp append_assoc

pub proof_after-All :
    (node : Tries) (seen : List (Felt × Felt)) (ds : List ContractStorageKeys)
    → All (λ d. keys_for d.contract_address seen ≡ d.storage_keys) ds
    → map (proof_after node seen) ds ≡ map (storage_proof node) ds
proof_after-All node seen [] h = refl
proof_after-All node seen (d ∷ ds) (p, h) = cc (p, proof_after-All node seen ds h)
