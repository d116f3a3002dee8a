-- ===== src/Committer/Codec.antt =====
-- What committer_utils.rs takes from the committer's crates: hashes of leaves, database keys and
-- serialized nodes.
use snip36_prover_web.Common.{ℕ, ◌≡◌, ◌≢◌, Result, Eq}
use snip36_prover_web.Proofs.Types.{Felt, ContractAddress, MerkleNode}

pub record ContractState : Type 0 where
  pub nonce : Felt
  pub class_hash : Felt
  pub storage_root_hash : Felt

-- A number stands for a `SerializationError`.
pub record Codec : Type 1 where
  pub Key : Type 0
  pub Value : Type 0
  pub key_eq : Eq Key
  -- `create_db_key(PatriciaPrefix::InnerNode, separator, hash.to_bytes_be())`
  pub inner_key : Felt → Key
  -- `FactDbFilledNode::get_db_key` at each type of leaf, with its context
  pub contract_leaf_key : Felt → Key
  pub storage_leaf_key : ContractAddress → Felt → Key
  pub class_leaf_key : Felt → Key
  -- `FactDbFilledNode::serialize`
  pub serialize_node : Felt → MerkleNode → Result ℕ Value
  pub serialize_contract : Felt → ContractState → Result ℕ Value
  pub serialize_storage : Felt → Felt → Result ℕ Value
  pub serialize_class : Felt → Felt → Result ℕ Value
  -- `TreeHashFunctionImpl::compute_leaf_hash` at each type of leaf
  pub contract_leaf_hash : ContractState → Felt
  pub storage_leaf_hash : Felt → Felt
  pub class_leaf_hash : Felt → Felt
  -- keys are injective in the hash, and the prefixes keep the kinds apart
  pub inner_key_injective : (a b : Felt) → inner_key a ≡ inner_key b → a ≡ b
  pub inner_ne_contract : (a b : Felt) → inner_key a ≢ contract_leaf_key b
  pub inner_ne_storage :
      (a : Felt) (c : ContractAddress) (b : Felt) → inner_key a ≢ storage_leaf_key c b
  pub inner_ne_class : (a b : Felt) → inner_key a ≢ class_leaf_key b
