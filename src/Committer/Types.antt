-- ===== src/Committer/Types.antt =====
-- The types of portable-core/starknet_transaction_prover/src/running/committer_utils.rs: the
-- blockifier's `StateMaps`, the committer's `StateDiff` and the errors of both files.
use snip36_prover_web.Common.{Bool, []}
use snip36_prover_web.Common.Assoc.{Assoc}
use snip36_prover_web.Proofs.Types.{Felt, ContractAddress}

pub record StateMaps : Type 0 where
  pub nonces : Assoc ContractAddress Felt
  pub class_hashes : Assoc ContractAddress Felt
  pub storage : Assoc (ContractAddress × Felt) Felt
  pub compiled_class_hashes : Assoc Felt Felt
  pub declared_contracts : Assoc Felt Bool

-- `StateMaps::default()`
abbrev pub empty_maps : StateMaps
empty_maps = record {
  nonces = [];
  class_hashes = [];
  storage = [];
  compiled_class_hashes = [];
  declared_contracts = [];
}

pub record StateDiff : Type 0 where
  pub address_to_class_hash : Assoc ContractAddress Felt
  pub address_to_nonce : Assoc ContractAddress Felt
  pub class_hash_to_compiled_class_hash : Assoc Felt Felt
  pub storage_updates : Assoc ContractAddress (Assoc Felt Felt)
