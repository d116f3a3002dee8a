-- ===== src/Running/Prepared.antt =====
-- runner.rs: what the OS is given, where classes are fetched as classes_provider.rs does.
use snip36_prover_web.Common.{
  String, some, [], ◌∷◌, Result, ok, ◌≡◌, ◌≢◌, none, refl, All, All-weaken, nat_eq,
}
use snip36_prover_web.Common.Assoc.{lookup, IsKeyed, lookup-extend}
use snip36_prover_web.Proofs.Types.{Felt, StorageProofConfig}
use snip36_prover_web.Committer.Types.{StateMaps}
use snip36_prover_web.Provider.Commitments.{StorageProofs}
use snip36_prover_web.Running.Blockifier.{Kinds, VirtualBlockExecutionData, Hashed}
use snip36_prover_web.Running.Classes.{ClassManager, CasmContractClass, ClassesInput, get_classes}
use snip36_prover_web.Running.Covers.{Provides, get_classes-Provides, fetch}
use snip36_prover_web.Running.Hints.{
  OsHints, OsBlockInput, Providers, create_virtual_os_hints, os_reads, os_input, os_block_input,
  os_hints_of,
}

module _ (k : Kinds) {H G L E : Type 0} (C X : Type 0) (to_casm_hints : H → Result String G)
    (m : ClassManager H L E) (p : Providers k C (CasmContractClass G L E) X) where
  -- The class is fetched, the reads map it to its compiled class hash, and the OS has a class of
  -- this hash.
  abbrev pub IsResolved :
      OsHints k C (CasmContractClass G L E) X
      → OsBlockInput k C (CasmContractClass G L E) X
      → Felt
      → Type 0
  IsResolved hints input h =
      (c : Felt) × (casm : CasmContractClass G L E) × (fetch to_casm_hints m h ≡ ok (c, casm))
      × (lookup h input.initial_reads.compiled_class_hashes ≡ some c)
      × (lookup c hints.compiled_classes ≢ none)

  -- The one block that the hints describe, on top of the block of the execution.
  pub record Describes (d : VirtualBlockExecutionData k) (proofs : StorageProofs) (txs : Hashed k)
      (hints : OsHints k C (CasmContractClass G L E) X) : Type 0 where
    pub input : OsBlockInput k C (CasmContractClass G L E) X
    pub one_block : hints.os_block_inputs ≡ input ∷ []
    pub contracts :
        input.contract_state_commitment_info
        ≡ proofs.commitment_infos.contracts_trie_commitment_info
    pub classes :
        input.contract_class_commitment_info ≡ proofs.commitment_infos.classes_trie_commitment_info
    pub storage_tries :
        input.address_to_storage_commitment_info
        ≡ proofs.commitment_infos.storage_tries_commitment_infos
    pub storage : input.initial_reads.storage ≡ proofs.extended_initial_reads.storage
    pub transactions : input.transactions ≡ txs
    pub block_hash : input.new_block_hash ≡ d.base_block_info.base_block_hash
    pub prev_hash : input.prev_block_hash ≡ d.base_block_info.prev_base_block_hash
    pub commitments : input.block_hash_commitments ≡ d.base_block_info.base_block_header_commitments
    pub undeclared : input.initial_reads.declared_contracts ≡ []
    pub resolved : All (IsResolved hints input) d.executed_class_hashes

  Provides-IsResolved :
      (classes : ClassesInput (CasmContractClass G L E))
      (hints : OsHints k C (CasmContractClass G L E) X)
      (input : OsBlockInput k C (CasmContractClass G L E) X) (reads : StateMaps)
      → IsKeyed classes.class_hash_to_compiled_class_hash
      → input.initial_reads
        ≡ os_reads k C (CasmContractClass G L E) X reads classes.class_hash_to_compiled_class_hash
      → hints.compiled_classes ≡ classes.compiled_classes
      → (h : Felt) → Provides to_casm_hints m classes h
      → IsResolved hints input h
  Provides-IsResolved classes hints input reads keyed e f h r = (
    r.compiled_class_hash,
    r.casm,
    r.is_fetched,
    rw e (
        lookup-extend h r.compiled_class_hash reads.compiled_class_hashes
          classes.class_hash_to_compiled_class_hash keyed r.is_mapped),
    rw f r.is_compiled,
  )

  -- Where the executed classes and the storage proofs are fetched, the hints for the OS are built:
  -- they hold one block with the transactions, the commitment infos and the storage reads of the
  -- proofs, and the hashes and commitments of the base block; its reads declare no contract and
  -- give for every executed class the compiled class hash that was fetched with the class, and a
  -- class of this hash is among the hints.
  pub create_virtual_os_hints_lem :
      (d : VirtualBlockExecutionData k) (config : StorageProofConfig) (txs : Hashed k)
      (classes : ClassesInput (CasmContractClass G L E)) (proofs : StorageProofs)
      → p.get_classes ≡ get_classes to_casm_hints m
      → get_classes to_casm_hints m d.executed_class_hashes ≡ ok classes
      → p.get_storage_proofs (p.block_number d.base_block_info.block_context.block_info) d config
        ≡ ok proofs
      → (hints : OsHints k C (CasmContractClass G L E) X) × (create_virtual_os_hints k C
            (CasmContractClass G L E)
            X
            p
            d
            config
            txs
          ≡ ok hints)
        × Describes d proofs txs hints
  unfolding create_virtual_os_hints
  create_virtual_os_hints_lem d config txs classes proofs same fetched proved =
      let input = os_input k C (CasmContractClass G L E) X p d txs classes proofs in
      let block = os_block_input k C (CasmContractClass G L E) X input in
      let (provided, keyed) =
        get_classes-Provides to_casm_hints m classes d.executed_class_hashes fetched in
      let hints = os_hints_of k C (CasmContractClass G L E) X input in
      (
        hints,
        rw (same, fetched, proved) refl,
        record {
          input = block;
          one_block = refl;
          contracts = refl;
          classes = refl;
          storage_tries = refl;
          storage = refl;
          transactions = refl;
          block_hash = refl;
          prev_hash = refl;
          commitments = refl;
          undeclared = refl;
          resolved =
              All-weaken (Provides to_casm_hints m classes) (IsResolved hints block)
                (Provides-IsResolved classes hints block proofs.extended_initial_reads keyed refl
                  refl)
                d.executed_class_hashes provided;
        },
      )
