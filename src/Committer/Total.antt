-- ===== src/Committer/Total.antt =====
-- The facts database is built whenever nodes can be serialized and the leaves fit the query.
use snip36_prover_web.Common.{length, ◌≡◌, refl, List, [], ◌∷◌, zip, nat_beq_iff, ok, ◌>>=◌, nat_eq}
use snip36_prover_web.Common.Assoc.{Assoc}
use snip36_prover_web.Proofs.Types.{
  Felt, ContractAddress, MerkleNode, binary_node, Nodes, ContractLeafData, RpcStorageProofsQuery,
  RpcStorageProof,
}
use snip36_prover_web.Committer.Types.{StateMaps}
use snip36_prover_web.Committer.Codec.{Codec, ContractState}
use snip36_prover_web.Committer.Facts.{
  Db, Step, put, insert_inner_nodes, insert_leaves, insert_contract_leaves, insert_storage_entries,
  insert_class_entries, contract_state, add_dummy_nodes_for_orphan_hashes, for_each,
  create_facts_db_from_storage_proof,
}
use snip36_prover_web.Committer.Facts.{create_facts_db_from_storage_proof}
use snip36_prover_web.Committer.Traversal.{IsTraversable, AgreesOn, create_facts_db-IsTraversable}

-- Serialization does not fail.
pub record Encodes (codec : Codec) : Type 0 where
  pub nodes : (h : Felt) (n : MerkleNode) → (v : codec.Value) × (codec.serialize_node h n ≡ ok v)
  pub contracts :
      (h : Felt) (s : ContractState) → (v : codec.Value) × (codec.serialize_contract h s ≡ ok v)
  pub storage : (h x : Felt) → (v : codec.Value) × (codec.serialize_storage h x ≡ ok v)
  pub classes : (h x : Felt) → (v : codec.Value) × (codec.serialize_class h x ≡ ok v)

abbrev Returns : (codec : Codec) → Step codec → Type 0
Returns codec r = (db : Db codec) × (r ≡ ok db)

module _ (codec : Codec) (encodes : Encodes codec) where
  Returns-bind :
      (r : Step codec) (f : Db codec → Step codec)
      → Returns codec r
      → ((db : Db codec) → Returns codec (f db))
      → Returns codec (r >>= f)
  Returns-bind r f (db, e) h = rw e (h db)

  Returns-inner :
      (nodes : Nodes) (db : Db codec) → Returns codec (insert_inner_nodes codec nodes db)
  unfolding insert_inner_nodes
  Returns-inner [] db = (db, refl)
  Returns-inner ((h, n) ∷ nodes) db =
      let (v, e) = encodes.nodes h n in
      rw e (Returns-inner nodes (put codec (codec.inner_key h) v db))

  Returns-leaves :
      (ls : List (ContractLeafData × ContractAddress)) (db : Db codec)
      → Returns codec (insert_leaves codec ls db)
  unfolding insert_leaves
  Returns-leaves [] db = (db, refl)
  Returns-leaves ((leaf, a) ∷ ls) db =
      let (v, e) =
        encodes.contracts (codec.contract_leaf_hash (contract_state codec leaf))
          (contract_state codec leaf) in
      rw e (Returns-leaves ls _)

  Returns-storage :
      (es : Assoc (ContractAddress × Felt) Felt) (db : Db codec)
      → Returns codec (insert_storage_entries codec es db)
  unfolding insert_storage_entries
  Returns-storage [] db = (db, refl)
  Returns-storage (((a, k), x) ∷ es) db =
      let (v, e) = encodes.storage (codec.storage_leaf_hash x) x in rw e (Returns-storage es _)

  Returns-classes :
      (es : Assoc Felt Felt) (db : Db codec) → Returns codec (insert_class_entries codec es db)
  unfolding insert_class_entries
  Returns-classes [] db = (db, refl)
  Returns-classes ((c, x) ∷ es) db =
      let (v, e) = encodes.classes (codec.class_leaf_hash x) x in rw e (Returns-classes es _)

  Returns-contract_leaves :
      (p : RpcStorageProof) (q : RpcStorageProofsQuery) (db : Db codec)
      → length p.contracts_proof.contract_leaves_data ≡ length q.contract_addresses
      → Returns codec (insert_contract_leaves codec p q db)
  unfolding insert_contract_leaves
  Returns-contract_leaves p q db h = rw h (
      rw ((nat_beq_iff (length q.contract_addresses) (length q.contract_addresses)).1 refl)
        (Returns-leaves (zip p.contracts_proof.contract_leaves_data q.contract_addresses) db))

  Returns-dummies :
      (nodes : Nodes) (db : Db codec)
      → Returns codec (add_dummy_nodes_for_orphan_hashes codec nodes db)
  unfolding add_dummy_nodes_for_orphan_hashes
  Returns-dummies nodes db = let (v, e) = encodes.nodes 0 (binary_node 0 0) in rw e (_, refl)

  Returns-for_each :
      (step : Nodes → Db codec → Step codec) (batches : List Nodes) (db : Db codec)
      → ((nodes : Nodes) (d : Db codec) → Returns codec (step nodes d))
      → Returns codec (for_each codec step batches db)
  unfolding for_each
  Returns-for_each step [] db h = (db, refl)
  Returns-for_each step (nodes ∷ batches) db h =
      Returns-bind (step nodes db) (for_each codec step batches) (h nodes db)
        (λ d. Returns-for_each step batches d h)

  create_facts_db-Returns :
      (p : RpcStorageProof) (q : RpcStorageProofsQuery) (m : StateMaps)
      → length p.contracts_proof.contract_leaves_data ≡ length q.contract_addresses
      → Returns codec (create_facts_db_from_storage_proof codec p q m)
  unfolding create_facts_db_from_storage_proof
  create_facts_db-Returns p q m h =
      Returns-bind _ _ (Returns-inner p.contracts_proof.nodes []) λ db₁.
        Returns-bind _ _ (Returns-inner p.classes_proof db₁) λ db₂.
          Returns-bind _ _
            (Returns-for_each (insert_inner_nodes codec) p.contracts_storage_proofs db₂
              Returns-inner)
            λ db₃. Returns-bind _ _ (Returns-contract_leaves p q db₃ h) λ db₄.
              Returns-bind _ _ (Returns-storage m.storage db₄) λ db₅.
                Returns-bind _ _ (Returns-classes m.compiled_class_hashes db₅) λ db₆.
                  Returns-bind _ _ (Returns-dummies p.contracts_proof.nodes db₆) λ db₇.
                    Returns-bind _ _ (Returns-dummies p.classes_proof db₇) λ db₈.
                      Returns-for_each (add_dummy_nodes_for_orphan_hashes codec)
                        p.contracts_storage_proofs db₈ Returns-dummies

  -- With serialization that does not fail, one leaf for each contract of the query, and tries that
  -- agree on the node of each hash, the database is built. Under the hash of every node of the
  -- proof it has that node, never a dummy, and every child that a node of the proof names has a
  -- fact.
  pub create_facts_db_total :
      (node_of : Felt → MerkleNode) (p : RpcStorageProof) (q : RpcStorageProofsQuery)
      (m : StateMaps)
      → AgreesOn node_of p
      → length p.contracts_proof.contract_leaves_data ≡ length q.contract_addresses
      → (db : Db codec) × (create_facts_db_from_storage_proof codec p q m ≡ ok db)
        × IsTraversable codec node_of p db
  create_facts_db_total node_of p q m agrees h =
      let (db, e) = create_facts_db-Returns p q m h in
      (db, e, create_facts_db-IsTraversable codec node_of p q m db agrees e)
