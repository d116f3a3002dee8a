-- ===== src/Running/Classes.antt =====
-- portable-core/starknet_transaction_prover/src/running/classes_provider.rs.
use snip36_prover_web.Common.{
  ℕ, String, Option, none, some, List, [], ◌∷◌, Result, ok, err, ◌>>=◌, map_err, ◌>>◌, traverse,
  nat_eq,
}
use snip36_prover_web.Common.Text.{◌+++◌}
use snip36_prover_web.Common.Assoc.{Assoc, insert}
use snip36_prover_web.Proofs.Types.{Felt}
use snip36_prover_web.Signing.Crates.{prime}
use snip36_prover_web.Running.Errors.{
  ClassesProviderError, get_classes_error, deprecated_contract_error, invalid_bytecode_element,
  state_error, hints_conversion_error,
}

-- The Cairo VM's `MaybeRelocatable`: a felt, or a segment with an offset.
pub data MaybeRelocatable : Type 0 where
  int : Felt → MaybeRelocatable
  relocatable : ℕ → ℕ → MaybeRelocatable

-- A compiled Cairo 1 class of the blockifier, and the class of the OS. `H`, `L` and `E` are the
-- types of the hints, the segment lengths and the entry points.
pub record CompiledClassV1 (H L E : Type 0) : Type 0 where
  pub program_data : List MaybeRelocatable
  pub hints_collection : H
  pub bytecode_segment_felt_sizes : L
  pub entry_points_by_type : E

pub record CasmContractClass (H L E : Type 0) : Type 0 where
  pub prime : ℕ
  pub compiler_version : String
  pub bytecode : List ℕ
  pub bytecode_segment_lengths : Option L
  pub hints : H
  pub pythonic_hints : Option H
  pub entry_points_by_type : E

-- `RunnableCompiledClass`, without its native variant, which only another feature has.
pub data RunnableCompiledClass (H L E : Type 0) : Type 0 where
  v0 : RunnableCompiledClass H L E
  v1 : CompiledClassV1 H L E → RunnableCompiledClass H L E

-- `ClassesInput`, with its maps from compiled class hashes and class hashes.
pub record ClassesInput (C : Type 0) : Type 0 where
  pub compiled_classes : Assoc Felt C
  pub class_hash_to_compiled_class_hash : Assoc Felt Felt

-- The closure over the program's data.
abbrev pub bytecode_element : MaybeRelocatable → Result ClassesProviderError ℕ
bytecode_element (int felt) = ok felt
bytecode_element (relocatable segment offset) = err invalid_bytecode_element

-- `to_casm_hints` is the blockifier's conversion of the hints.
unfoldable pub compiled_class_v1_to_casm :
    {H G L E : Type 0}
    → (H → Result String G)
    → CompiledClassV1 H L E
    → Result ClassesProviderError (CasmContractClass G L E)
compiled_class_v1_to_casm to_casm_hints class = do
  bytecode ← traverse bytecode_element class.program_data
  hints ← map_err hints_conversion_error (to_casm_hints class.hints_collection)
  ok (record {
    prime = prime;
    compiler_version = "";
    bytecode = bytecode;
    bytecode_segment_lengths = some class.bytecode_segment_felt_sizes;
    hints = hints;
    pythonic_hints = none;
    entry_points_by_type = class.entry_points_by_type;
  })

-- The state reader and the contract manager, as far as classes go.
pub record ClassManager (H L E : Type 0) : Type 0 where
  pub get_compiled_class : Felt → Result String (RunnableCompiledClass H L E)
  pub get_compiled_class_hash_v2 : Felt → RunnableCompiledClass H L E → Result String Felt
  -- a task that failed to join, where one did
  pub join_error : Option String

abbrev pub casm_of :
    {H G L E : Type 0}
    → (H → Result String G)
    → Felt
    → Felt
    → RunnableCompiledClass H L E
    → Result ClassesProviderError (Felt × CasmContractClass G L E)
casm_of to_casm_hints class_hash compiled_class_hash v0 = err (deprecated_contract_error class_hash)
casm_of to_casm_hints class_hash compiled_class_hash (v1 class) =
    compiled_class_v1_to_casm to_casm_hints class >>= λ casm. ok (compiled_class_hash, casm)

-- The loop that collects the results into the two maps.
unfoldable pub collect_classes :
    {C : Type 0}
    → List (Felt × Result ClassesProviderError (Felt × C))
    → ClassesInput C
    → Result ClassesProviderError (ClassesInput C)
collect_classes [] maps = ok maps
collect_classes ((class_hash, err e) ∷ rest) maps = err e
collect_classes ((class_hash, ok (compiled_class_hash, casm)) ∷ rest) maps =
    collect_classes rest (record {
      compiled_classes = insert compiled_class_hash casm maps.compiled_classes;
      class_hash_to_compiled_class_hash =
          insert class_hash compiled_class_hash maps.class_hash_to_compiled_class_hash;
    })

-- `try_join_all`
abbrev pub joined : Option String → Result ClassesProviderError (Unit {0})
joined none = ok tt
joined (some e) = err (get_classes_error ("Task join error: " +++ e))

module _ {H G L E : Type 0} (to_casm_hints : H → Result String G) (m : ClassManager H L E) where
  unfoldable pub fetch_class : Felt → Result ClassesProviderError (Felt × CasmContractClass G L E)
  unfolding compiled_class_v1_to_casm
  fetch_class class_hash = do
    compiled_class ← map_err state_error (m.get_compiled_class class_hash)
    compiled_class_hash ←
        map_err state_error (m.get_compiled_class_hash_v2 class_hash compiled_class)
    casm_of to_casm_hints class_hash compiled_class_hash compiled_class

  abbrev pub fetched :
      List Felt → List (Felt × Result ClassesProviderError (Felt × CasmContractClass G L E))
  fetched [] = []
  fetched (h ∷ hs) = (h, fetch_class h) ∷ fetched hs

  -- `executed_class_hashes` is a set: a list without repetitions.
  unfoldable pub get_classes :
      List Felt → Result ClassesProviderError (ClassesInput (CasmContractClass G L E))
  unfolding fetch_class collect_classes
  get_classes executed_class_hashes = do
    joined m.join_error
    collect_classes (fetched executed_class_hashes)
        (record { compiled_classes = []; class_hash_to_compiled_class_hash = [] })
