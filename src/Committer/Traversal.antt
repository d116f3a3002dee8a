-- ===== src/Committer/Traversal.antt =====
-- `create_facts_db_from_storage_proof` as a whole: it succeeds, and the committer can traverse the
-- facts.
use snip36_prover_web.Common.{◌≡◌, ◌∙◌, List, [], ok, >>=-eq-ok, All, All-weaken, nat_eq}
use snip36_prover_web.Proofs.Types.{Felt, MerkleNode, Nodes, RpcStorageProofsQuery, RpcStorageProof}
use snip36_prover_web.Committer.Types.{StateMaps}
use snip36_prover_web.Committer.Codec.{Codec}
use snip36_prover_web.Committer.Facts.{
  Db, get, insert_inner_nodes, insert_contract_leaves, insert_storage_entries, insert_class_entries,
  add_dummy_nodes_for_orphan_hashes, for_each, create_facts_db_from_storage_proof,
}
use snip36_prover_web.Committer.Leaves.{get-leaves}
use snip36_prover_web.Committer.Closure.{Agrees}
use snip36_prover_web.Committer.Facts.{create_facts_db_from_storage_proof}
use snip36_prover_web.Committer.Stored.{
  Stored, AllStored, AllClosed, Written, insert_inner_nodes-Written, for_each-Written,
  add_dummy_nodes-Closed, for_each-Closed, Stored-Stays, AllStored-keep, AllClosed-Stays,
}

-- Every node of the proof is stored as it is, and every child that it names has a fact.
pub record IsTraversable (codec : Codec) (node_of : Felt → MerkleNode) (p : RpcStorageProof)
    (db : Db codec) : Type 0 where
  pub contracts_stored : AllStored codec node_of p.contracts_proof.nodes db
  pub classes_stored : AllStored codec node_of p.classes_proof db
  pub storage_stored : All (λ nodes. AllStored codec node_of nodes db) p.contracts_storage_proofs
  pub contracts_closed : AllClosed codec node_of p.contracts_proof.nodes db
  pub classes_closed : AllClosed codec node_of p.classes_proof db
  pub storage_closed : All (λ nodes. AllClosed codec node_of nodes db) p.contracts_storage_proofs

-- All tries of the proof agree with one node for each hash.
pub record AgreesOn (node_of : Felt → MerkleNode) (p : RpcStorageProof) : Type 0 where
  pub contracts : Agrees node_of p.contracts_proof.nodes
  pub classes : Agrees node_of p.classes_proof
  pub storage : All (Agrees node_of) p.contracts_storage_proofs

module _ (codec : Codec) (node_of : Felt → MerkleNode) where
  Batches-keep :
      (batches : List Nodes) (db db' : Db codec)
      → ((h : Felt) → Stored codec node_of h db → Stored codec node_of h db')
      → All (λ nodes. AllStored codec node_of nodes db) batches
      → All (λ nodes. AllStored codec node_of nodes db') batches
  Batches-keep batches db db' stays h =
      All-weaken (λ ns. AllStored codec node_of ns db) (λ ns. AllStored codec node_of ns db')
        (λ ns s. AllStored-keep codec node_of ns db db' stays s) batches h

  pub create_facts_db-IsTraversable :
      (p : RpcStorageProof) (q : RpcStorageProofsQuery) (m : StateMaps) (db : Db codec)
      → AgreesOn node_of p
      → create_facts_db_from_storage_proof codec p q m ≡ ok db
      → IsTraversable codec node_of p db
  unfolding create_facts_db_from_storage_proof
  create_facts_db-IsTraversable p q m db agrees e =
      let (db₁, e₁, r₁) = >>=-eq-ok (insert_inner_nodes codec p.contracts_proof.nodes []) _ e in
      let (db₂, e₂, r₂) = >>=-eq-ok (insert_inner_nodes codec p.classes_proof db₁) _ r₁ in
      let (db₃, e₃, r₃) =
        >>=-eq-ok (for_each codec (insert_inner_nodes codec) p.contracts_storage_proofs db₂) _ r₂ in
      let (db₄, e₄, r₄) = >>=-eq-ok (insert_contract_leaves codec p q db₃) _ r₃ in
      let (db₅, e₅, r₅) = >>=-eq-ok (insert_storage_entries codec m.storage db₄) _ r₄ in
      let (db₆, e₆, r₆) = >>=-eq-ok (insert_class_entries codec m.compiled_class_hashes db₅) _ r₅ in
      let (db₇, e₇, r₇) =
        >>=-eq-ok (add_dummy_nodes_for_orphan_hashes codec p.contracts_proof.nodes db₆) _ r₆ in
      let (db₈, e₈, r₈) =
        >>=-eq-ok (add_dummy_nodes_for_orphan_hashes codec p.classes_proof db₇) _ r₇ in
      finish db₁ db₂ db₃ db₆ db₇ db₈
        (insert_inner_nodes-Written codec node_of p.contracts_proof.nodes [] db₁ agrees.contracts
          e₁)
        (insert_inner_nodes-Written codec node_of p.classes_proof db₁ db₂ agrees.classes e₂)
        (for_each-Written codec node_of p.contracts_storage_proofs db₂ db₃ agrees.storage e₃)
        (λ h. get-leaves codec h p q m db₃ db₆ (rw e₄ (rw e₅ e₆))) e₇ e₈ r₈
    where
      finish :
          (db₁ db₂ db₃ db₆ db₇ db₈ : Db codec)
          → Written codec node_of p.contracts_proof.nodes [] db₁
          → Written codec node_of p.classes_proof db₁ db₂
          → All (λ nodes. AllStored codec node_of nodes db₃) p.contracts_storage_proofs
            × ((h : Felt) → Stored codec node_of h db₂ → Stored codec node_of h db₃)
          → ((h : Felt) → get codec (codec.inner_key h) db₆ ≡ get codec (codec.inner_key h) db₃)
          → add_dummy_nodes_for_orphan_hashes codec p.contracts_proof.nodes db₆ ≡ ok db₇
          → add_dummy_nodes_for_orphan_hashes codec p.classes_proof db₇ ≡ ok db₈
          → for_each codec (add_dummy_nodes_for_orphan_hashes codec) p.contracts_storage_proofs db₈
            ≡ ok db
          → IsTraversable codec node_of p db
      finish db₁ db₂ db₃ db₆ db₇ db₈ (cs, s₁) (ks, s₂) (ss, s₃) leaves e₇ e₈ e₉ =
          let to₆ : (h : Felt) → Stored codec node_of h db₃ → Stored codec node_of h db₆ =
            λ h (v, s, g). (v, s, leaves h ∙ g) in
          let contracts =
            AllStored-keep codec node_of p.contracts_proof.nodes db₁ db₆
              (λ h x. to₆ h (s₃ h (s₂ h x))) cs in
          let classes =
            AllStored-keep codec node_of p.classes_proof db₂ db₆ (λ h x. to₆ h (s₃ h x)) ks in
          let storage = Batches-keep p.contracts_storage_proofs db₃ db₆ to₆ ss in
          let (t₇, c₇) =
            add_dummy_nodes-Closed codec node_of p.contracts_proof.nodes db₆ db₇ contracts e₇ in
          let g₇ = Stored-Stays codec node_of db₆ db₇ t₇ in
          let (t₈, c₈) =
            add_dummy_nodes-Closed codec node_of p.classes_proof db₇ db₈
              (AllStored-keep codec node_of p.classes_proof db₆ db₇ g₇ classes) e₈ in
          let g₈ = Stored-Stays codec node_of db₇ db₈ t₈ in
          let (t₉, c₉) =
            for_each-Closed codec node_of p.contracts_storage_proofs db₈ db
              (Batches-keep p.contracts_storage_proofs db₆ db₈ (λ h x. g₈ h (g₇ h x)) storage) e₉ in
          let g₉ = Stored-Stays codec node_of db₈ db t₉ in
          let all : (h : Felt) → Stored codec node_of h db₆ → Stored codec node_of h db =
            λ h x. g₉ h (g₈ h (g₇ h x)) in
          record {
            contracts_stored =
                AllStored-keep codec node_of p.contracts_proof.nodes db₆ db all contracts;
            classes_stored = AllStored-keep codec node_of p.classes_proof db₆ db all classes;
            storage_stored = Batches-keep p.contracts_storage_proofs db₆ db all storage;
            contracts_closed =
                AllClosed-Stays codec node_of p.contracts_proof.nodes db₇ db
                  (λ k v x. t₉ k v (t₈ k v x)) c₇;
            classes_closed = AllClosed-Stays codec node_of p.classes_proof db₈ db t₉ c₈;
            storage_closed = c₉;
          }
