-- ===== src/Examples/Committing.antt =====
-- A serialization that keeps the node, with keys of one kind for each prefix.
use snip36_prover_web.Common.{ℕ, suc, ◌+◌, ◌≡◌, ◌≢◌, ◌↔◌, refl, some, [], ◌∷◌, ok, arith, pair_eq}
use snip36_prover_web.Proofs.Types.{
  Felt, MerkleNode, RpcStorageProofsQuery, empty_query, binary_node, RpcStorageProof,
}
use snip36_prover_web.Committer.Types.{StateDiff, empty_maps}
use snip36_prover_web.Committer.Codec.{Codec}
use snip36_prover_web.Committer.Facts.{Db, create_facts_db_from_storage_proof}
use snip36_prover_web.Committer.Traversal.{IsTraversable, AgreesOn}
use snip36_prover_web.Committer.Total.{Encodes, create_facts_db_total}
use snip36_prover_web.Committer.Diff.{
  validate_virtual_os_state_diff, validate_virtual_os_state_diff_iff, IsVirtual,
}

-- What is stored under a key: a node, or a leaf as a number.
pub data Stored : Type 0 where
  node : MerkleNode → Stored
  leaf : Felt → Stored

pub first_injective : (a b : Felt) → ◌≡◌ {A = ℕ × ℕ} (0, a) (0, b) → a ≡ b
first_injective a b h = cc

pub zero_apart : (a b k : Felt) → ◌≢◌ {A = ℕ × ℕ} (0, a) (suc k, b)
zero_apart a b k h = let e : 0 ≡ suc k = cc in omega arith

abbrev pub plain : Codec
plain = record {
  Key = ℕ × ℕ;
  Value = Stored;
  key_eq = pair_eq;
  inner_key = λ h. (0, h);
  contract_leaf_key = λ h. (1, h);
  storage_leaf_key = λ a h. (suc (suc a), h);
  class_leaf_key = λ h. (1, h);
  serialize_node = λ h n. ok (node n);
  serialize_contract = λ h s. ok (leaf s.nonce);
  serialize_storage = λ h v. ok (leaf v);
  serialize_class = λ h v. ok (leaf v);
  contract_leaf_hash = λ s. s.nonce + s.class_hash;
  storage_leaf_hash = λ v. v;
  class_leaf_hash = λ v. v;
  inner_key_injective = first_injective;
  inner_ne_contract = λ a b. zero_apart a b 0;
  inner_ne_storage = λ a c b. zero_apart a b (suc c);
  inner_ne_class = λ a b. zero_apart a b 0;
}

plain-Encodes : Encodes plain
plain-Encodes = record {
  nodes = λ h n. (node n, refl);
  contracts = λ h s. (leaf s.nonce, refl);
  storage = λ h x. (leaf x, refl);
  classes = λ h x. (leaf x, refl);
}

abbrev node_at : Felt → MerkleNode
node_at h = binary_node (h + 1) (h + 2)

-- The children 4 and 5 of the contracts' trie have no node of their own.
abbrev small_proof : RpcStorageProof
small_proof = record {
  classes_proof = (10, node_at 10) ∷ [];
  contracts_proof = record {
    nodes = (2, node_at 2) ∷ (3, node_at 3) ∷ [];
    contract_leaves_data = record { nonce = 1; class_hash = 6; storage_root = some 20 } ∷ [];
  };
  contracts_storage_proofs = ((20, node_at 20) ∷ []) ∷ [];
  global_roots = record { contracts_tree_root = 2; classes_tree_root = 10; block_hash = 99 };
}

abbrev small_query : RpcStorageProofsQuery
small_query = record empty_query { contract_addresses = 7 ∷ [] }

small_proof-AgreesOn : AgreesOn node_at small_proof
small_proof-AgreesOn = record {
  contracts = (refl, (refl, tt));
  classes = (refl, tt);
  storage = ((refl, tt), tt);
}

create_facts_db_total_example :
    (db : Db plain) × (create_facts_db_from_storage_proof plain small_proof small_query empty_maps
      ≡ ok db)
    × IsTraversable plain node_at small_proof db
create_facts_db_total_example =
    create_facts_db_total plain plain-Encodes node_at small_proof small_query empty_maps
      small_proof-AgreesOn refl

abbrev one_write : StateDiff
one_write = record {
  address_to_class_hash = [];
  address_to_nonce = (7, 1) ∷ [];
  class_hash_to_compiled_class_hash = [];
  storage_updates = (7, ((3, 4) ∷ [])) ∷ [];
}

validate_virtual_os_state_diff_example :
    (validate_virtual_os_state_diff one_write ≡ ok tt) ↔ IsVirtual one_write
validate_virtual_os_state_diff_example = validate_virtual_os_state_diff_iff one_write
