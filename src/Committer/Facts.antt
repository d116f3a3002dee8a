-- ===== src/Committer/Facts.antt =====
-- committer_utils.rs: `create_facts_db_from_storage_proof` and its helpers. The database is the
-- map `db_map`, passed on from step to step; an error drops it, as `?` does.
use snip36_prover_web.Common.{
  ℕ, Bool, true, false, Option, none, some, List, [], ◌∷◌, length, zip, nat_beq, not, if◌then◌else◌,
  Result, ok, ◌>>=◌, ◌>>◌, map_err, reject_if, nat_eq,
}
use snip36_prover_web.Common.Assoc.{Assoc, lookup, insert}
use snip36_prover_web.Proofs.Types.{
  Felt, ContractAddress, MerkleNode, binary_node, edge_node, Nodes, ContractLeafData,
  RpcStorageProofsQuery, RpcStorageProof, ProofProviderError, serialization_error,
  invalid_proof_response, leaves_length,
}
use snip36_prover_web.Committer.Types.{StateMaps}
use snip36_prover_web.Committer.Codec.{Codec, ContractState}

module _ (codec : Codec) where
  open codec use {
    Key, Value, inner_key, contract_leaf_key, storage_leaf_key, class_leaf_key, serialize_node,
    serialize_contract, serialize_storage, serialize_class, contract_leaf_hash, storage_leaf_hash,
    class_leaf_hash,
  }

  abbrev pub Db : Type 0
  Db = Assoc Key Value

  abbrev pub Step : Type 0
  Step = Result ProofProviderError Db

  abbrev pub get : Key → Db → Option Value
  get k db = lookup ⦃e = codec.key_eq⦄ k db

  abbrev pub put : Key → Value → Db → Db
  put k v db = insert ⦃e = codec.key_eq⦄ k v db

  unfoldable pub insert_inner_nodes : Nodes → Db → Step
  insert_inner_nodes [] db = ok db
  insert_inner_nodes ((hash, node) ∷ nodes) db = do
    value ← map_err serialization_error (serialize_node hash node)
    insert_inner_nodes nodes (put (inner_key hash) value db)

  -- `insert_leaf_node`, with the key and the serialized leaf at hand.
  unfoldable pub insert_leaf_node : Key → Result ℕ Value → Db → Step
  insert_leaf_node key serialized db = do
    value ← map_err serialization_error serialized
    ok (put key value db)

  abbrev pub storage_root_or_zero : Option Felt → Felt
  storage_root_or_zero none = 0
  storage_root_or_zero (some root) = root

  abbrev pub contract_state : ContractLeafData → ContractState
  contract_state leaf = record {
    nonce = leaf.nonce;
    class_hash = leaf.class_hash;
    storage_root_hash = storage_root_or_zero leaf.storage_root;
  }

  -- The loop over the leaves, zipped with the addresses.
  unfoldable pub insert_leaves : List (ContractLeafData × ContractAddress) → Db → Step
  unfolding insert_leaf_node
  insert_leaves [] db = ok db
  insert_leaves ((leaf, address) ∷ rest) db = do
    let state = contract_state leaf
    let hash = contract_leaf_hash state
    db' ← insert_leaf_node (contract_leaf_key hash) (serialize_contract hash state) db
    insert_leaves rest db'

  unfoldable pub insert_contract_leaves : RpcStorageProof → RpcStorageProofsQuery → Db → Step
  unfolding insert_leaves
  insert_contract_leaves rpc_proof query db = do
    reject_if
        (not (
          nat_beq (length rpc_proof.contracts_proof.contract_leaves_data)
            (length query.contract_addresses)))
        (invalid_proof_response leaves_length)
    insert_leaves (zip rpc_proof.contracts_proof.contract_leaves_data query.contract_addresses) db

  unfoldable pub insert_storage_entries : Assoc (ContractAddress × Felt) Felt → Db → Step
  unfolding insert_leaf_node
  insert_storage_entries [] db = ok db
  insert_storage_entries (((address, key), value) ∷ rest) db = do
    let hash = storage_leaf_hash value
    db' ← insert_leaf_node (storage_leaf_key address hash) (serialize_storage hash value) db
    insert_storage_entries rest db'

  abbrev pub insert_storage_leaves : StateMaps → Db → Step
  insert_storage_leaves initial_reads db = insert_storage_entries initial_reads.storage db

  unfoldable pub insert_class_entries : Assoc Felt Felt → Db → Step
  unfolding insert_leaf_node
  insert_class_entries [] db = ok db
  insert_class_entries ((class_hash, compiled) ∷ rest) db = do
    let hash = class_leaf_hash compiled
    db' ← insert_leaf_node (class_leaf_key hash) (serialize_class hash compiled) db
    insert_class_entries rest db'

  abbrev pub insert_compiled_class_leaves : StateMaps → Db → Step
  insert_compiled_class_leaves initial_reads db =
      insert_class_entries initial_reads.compiled_class_hashes db

  -- `db_map.entry(key).or_insert_with(..)`
  abbrev pub or_insert : Key → Value → Db → Db
  or_insert key v db = elim (get key db) [ none ↦ put key v db | some old ↦ db ]

  -- `has_preimage.contains(child)`, over the keys of the proof batch.
  abbrev pub has_preimage : Felt → Nodes → Bool
  has_preimage child nodes = elim (lookup child nodes) [ none ↦ false | some node ↦ true ]

  unfoldable pub add_dummy_node_for_orphan_child : Felt → Nodes → Value → Db → Db
  add_dummy_node_for_orphan_child child nodes dummy db =
      if has_preimage child nodes then db else or_insert (inner_key child) dummy db

  unfoldable pub add_dummies_of_node : MerkleNode → Nodes → Value → Db → Db
  unfolding add_dummy_node_for_orphan_child
  add_dummies_of_node (binary_node left right) nodes dummy db =
      add_dummy_node_for_orphan_child right nodes dummy
        (add_dummy_node_for_orphan_child left nodes dummy db)
  add_dummies_of_node (edge_node path len child) nodes dummy db =
      add_dummy_node_for_orphan_child child nodes dummy db

  -- The loop over the nodes; `all` is the whole batch.
  unfoldable pub add_dummies_from : Nodes → Nodes → Value → Db → Db
  unfolding add_dummies_of_node
  add_dummies_from [] all dummy db = db
  add_dummies_from ((hash, node) ∷ nodes) all dummy db =
      add_dummies_from nodes all dummy (add_dummies_of_node node all dummy db)

  -- The dummy is a binary node with hash zero whose children are zero.
  unfoldable pub add_dummy_nodes_for_orphan_hashes : Nodes → Db → Step
  unfolding add_dummies_from
  add_dummy_nodes_for_orphan_hashes nodes db = do
    dummy ← map_err serialization_error (serialize_node 0 (binary_node 0 0))
    ok (add_dummies_from nodes nodes dummy db)

  -- `for storage_proof in ... { step(&mut db_map, storage_proof)?; }`
  unfoldable pub for_each : (Nodes → Db → Step) → List Nodes → Db → Step
  for_each step [] db = ok db
  for_each step (nodes ∷ rest) db = do db' ← step nodes db; for_each step rest db'

  unfoldable pub create_facts_db_from_storage_proof :
      RpcStorageProof → RpcStorageProofsQuery → StateMaps → Step
  create_facts_db_from_storage_proof rpc_proof query initial_reads = do
    db₁ ← insert_inner_nodes rpc_proof.contracts_proof.nodes []
    db₂ ← insert_inner_nodes rpc_proof.classes_proof db₁
    db₃ ← for_each insert_inner_nodes rpc_proof.contracts_storage_proofs db₂
    db₄ ← insert_contract_leaves rpc_proof query db₃
    db₅ ← insert_storage_leaves initial_reads db₄
    db₆ ← insert_compiled_class_leaves initial_reads db₅
    db₇ ← add_dummy_nodes_for_orphan_hashes rpc_proof.contracts_proof.nodes db₆
    db₈ ← add_dummy_nodes_for_orphan_hashes rpc_proof.classes_proof db₇
    for_each add_dummy_nodes_for_orphan_hashes rpc_proof.contracts_storage_proofs db₈
