-- ===== src/Committer/Diff.antt =====
-- committer_utils.rs: `state_maps_to_committer_state_diff` and `validate_virtual_os_state_diff`.
use snip36_prover_web.Common.{
  ◌≡◌, ◌≢◌, ◌↔◌, [], ◌∷◌, nat_beq, is_empty, not, Result, ok, ◌>>◌, reject_if, All, arith,
}
use snip36_prover_web.Common.Assoc.{Assoc}
use snip36_prover_web.Proofs.Types.{
  Felt, ContractAddress, ProofProviderError, invalid_state_diff, deletion, deployments,
  declarations,
}
use snip36_prover_web.Committer.Types.{StateMaps, StateDiff}

-- `StorageDiff::from(StorageView(storage))` of the blockifier groups the entries by contract; the
-- wrappers of hashes, keys and values that the function puts on are the numbers themselves.
module _
    (storage_diff_from : Assoc (ContractAddress × Felt) Felt
      → Assoc ContractAddress (Assoc Felt Felt)) where
  unfoldable pub state_maps_to_committer_state_diff : StateMaps → StateDiff
  state_maps_to_committer_state_diff state_maps = record {
    address_to_class_hash = state_maps.class_hashes;
    address_to_nonce = state_maps.nonces;
    class_hash_to_compiled_class_hash = state_maps.compiled_class_hashes;
    storage_updates = storage_diff_from state_maps.storage;
  }

-- The two loops over the storage updates.
unfoldable pub validate_updates :
    ContractAddress → Assoc Felt Felt → Result ProofProviderError (Unit {0})
validate_updates address [] = ok tt
validate_updates address ((key, value) ∷ rest) =
    reject_if (nat_beq value 0) (invalid_state_diff (deletion address key))
    >> validate_updates address rest

unfoldable pub validate_storage :
    Assoc ContractAddress (Assoc Felt Felt) → Result ProofProviderError (Unit {0})
unfolding validate_updates
validate_storage [] = ok tt
validate_storage ((address, diffs) ∷ rest) = validate_updates address diffs >> validate_storage rest

unfoldable pub validate_virtual_os_state_diff : StateDiff → Result ProofProviderError (Unit {0})
unfolding validate_storage
validate_virtual_os_state_diff state_diff = do
  validate_storage state_diff.storage_updates
  reject_if (not (is_empty state_diff.address_to_class_hash)) (invalid_state_diff deployments)
  reject_if (not (is_empty state_diff.class_hash_to_compiled_class_hash))
      (invalid_state_diff declarations)
  ok tt

-- No update writes zero.
abbrev pub HasNoZero : Assoc Felt Felt → Type 0
HasNoZero = All (λ p. p.1 ≢ 0)

-- What the virtual OS assumes of a block's changes.
pub record IsVirtual (d : StateDiff) : Type 0 where
  pub no_deletions : All (λ p. HasNoZero p.1) d.storage_updates
  pub no_deployments : d.address_to_class_hash ≡ []
  pub no_declarations : d.class_hash_to_compiled_class_hash ≡ []

validate_updates_iff :
    (a : ContractAddress) (m : Assoc Felt Felt) → (validate_updates a m ≡ ok tt) ↔ HasNoZero m
unfolding validate_updates
validate_updates_iff a [] = ground arith
validate_updates_iff a ((k, v) ∷ m) = ground (arith, validate_updates_iff a m)

validate_storage_iff :
    (m : Assoc ContractAddress (Assoc Felt Felt))
    → (validate_storage m ≡ ok tt) ↔ All (λ p. HasNoZero p.1) m
unfolding validate_storage
validate_storage_iff [] = ground arith
validate_storage_iff ((a, ds) ∷ m) =
    ground (arith, validate_updates_iff a ds, validate_storage_iff m)

-- A state diff is accepted exactly when it deletes no storage entry, deploys no contract and
-- declares no class.
pub validate_virtual_os_state_diff_iff :
    (d : StateDiff) → (validate_virtual_os_state_diff d ≡ ok tt) ↔ IsVirtual d
unfolding validate_virtual_os_state_diff
validate_virtual_os_state_diff_iff d = ground (arith, validate_storage_iff d.storage_updates)
