-- ===== src/Provider/Honest.antt =====
-- `get_storage_proofs` without state changes, against a node that answers within its limit.
use snip36_prover_web.Common.{
  ℕ, ◌≡◌, refl, ap, ◌∙◌, some, List, [], ◌∷◌, map, zip, true, false, nat_beq, pair_eq, nat_beq_iff,
  nat_eq, length, length-map, Bool-cases, inl, inr, All, ok, traverse, ◌==◌, Eq,
}
use snip36_prover_web.Common.Assoc.{Assoc, lookup, insert, extend, lookup-insert}
use snip36_prover_web.Proofs.Types.{
  Felt, ContractAddress, ContractStorageKeys, RpcStorageProofsQuery, ContractLeafData,
  StorageProofConfig,
}
use snip36_prover_web.Proofs.Keys.{keys_for}
use snip36_prover_web.Proofs.Node.{Tries, gather, respond, storage_proof}
use snip36_prover_web.Proofs.Fetch.{GetStorageProof, Answers, fetch_proofs-eq-respond}
use snip36_prover_web.Committer.Types.{StateMaps, empty_maps}
use snip36_prover_web.Committer.Facts.{storage_root_or_zero}
use snip36_prover_web.Provider.Prepare.{ExecutionReads, sort, prepare_query}
use snip36_prover_web.Provider.Sorting.{IsNodup, All-sort, sort-All}
use snip36_prover_web.Provider.Ordered.{
  read_pairs, prepare_query_lem, prepare_query-HasDistinctAddresses,
}
use snip36_prover_web.Provider.Commitments.{
  Crates, CommitmentInfo, StorageProofs, read_leaves, collect_leaves, unchanged, storage_info,
  build_storage_commitment_infos, create_commitment_infos_without_state_changes, extended_reads,
  get_storage_proofs,
}

-- A map that is made from a list of keys has the value of each of them.
module _ {ℓ} {K V : Type ℓ} ⦃e : Eq K⦄ (f : K → V) where
  abbrev paired : List K → Assoc K V
  paired xs = map (λ a. (a, f a)) xs

  kept :
      (a : K) (xs : List K) (m : Assoc K V)
      → lookup a m ≡ some (f a)
      → lookup a (extend m (paired xs)) ≡ some (f a)
  unfolding extend
  kept a [] m h = h
  kept a (x ∷ xs) m h = kept a xs (insert x (f x) m) (elim (Bool-cases (x == a)) [
    | inl same ↦ lookup-insert x a (f x) m ∙ rw same (ap (λ t. some (f t)) ((e.beq_iff x a).0 same))
    | inr other ↦ lookup-insert x a (f x) m ∙ rw other h
  ])

  lookup-extend-paired :
      (xs : List K) (m : Assoc K V) → All (λ a. lookup a (extend m (paired xs)) ≡ some (f a)) xs
  unfolding extend
  lookup-extend-paired [] m = tt
  lookup-extend-paired (x ∷ xs) m = (
    kept x xs (insert x (f x) m) (lookup-insert x x (f x) m ∙ rw ((e.beq_iff x x).1 refl) refl),
    lookup-extend-paired xs (insert x (f x) m),
  )

module _ (leaf : ContractAddress → ContractLeafData) where
  collect_leaves_lem :
      (xs : List ContractAddress) (m : Assoc ContractAddress ContractLeafData)
      → collect_leaves (zip xs (map leaf xs)) m ≡ extend m (paired leaf xs)
  unfolding collect_leaves extend
  collect_leaves_lem [] m = refl
  collect_leaves_lem (x ∷ xs) m = collect_leaves_lem xs (insert x (leaf x) m)

  read_leaves_lem :
      (xs : List ContractAddress) (m : StateMaps)
      → read_leaves (zip (map leaf xs) xs) m ≡ (record m {
        class_hashes = extend m.class_hashes (paired (λ a. (leaf a).class_hash) xs);
        nonces = extend m.nonces (paired (λ a. (leaf a).nonce) xs);
      })
  unfolding read_leaves extend
  read_leaves_lem [] m = refl
  read_leaves_lem (x ∷ xs) m = read_leaves_lem xs (record m {
    class_hashes = insert x (leaf x).class_hash m.class_hashes;
    nonces = insert x (leaf x).nonce m.nonces;
  })

module _ (crates : Crates) (tries : Tries) (asked : ContractAddress → List Felt) where
  open crates use {codec, try_address}

  abbrev entry : ContractAddress → ContractStorageKeys
  entry a = record { contract_address = a; storage_keys = asked a }

  -- The commitment info of a contract's storage trie: its root, and the paths to the keys.
  abbrev storage_trie : ContractAddress → CommitmentInfo
  storage_trie a =
      unchanged crates (storage_root_or_zero codec (tries.leaf a).storage_root)
        (gather (tries.storage_path a) (asked a))

  storage_infos :
      (leaves : Assoc ContractAddress ContractLeafData) (xs : List ContractAddress)
      → All (λ a. try_address a ≡ some a) xs
      → All (λ a. lookup a leaves ≡ some (tries.leaf a)) xs
      → traverse
          (storage_info crates leaves)
          (zip (map entry xs) (map (storage_proof tries) (map entry xs)))
        ≡ ok (paired storage_trie xs)
  unfolding storage_info
  storage_infos leaves [] h k = refl
  storage_infos leaves (x ∷ xs) (p, h) (q, k) = rw (p, q) (rw (storage_infos leaves xs h k) refl)

  build_storage_commitment_infos_lem :
      (q : RpcStorageProofsQuery)
      → q.contract_storage_keys ≡ map entry q.contract_addresses
      → All (λ a. try_address a ≡ some a) q.contract_addresses
      → build_storage_commitment_infos crates (respond tries q) q
        ≡ ok (extend [] (paired storage_trie q.contract_addresses))
  unfolding build_storage_commitment_infos respond
  build_storage_commitment_infos_lem q keys h =
      let xs = q.contract_addresses in
      rw keys (
        rw (length-map (map entry xs) (storage_proof tries)) (
          rw ((nat_beq_iff (length (map entry xs)) (length (map entry xs))).1 refl) (
            rw (collect_leaves_lem tries.leaf xs []) (
              rw
                (storage_infos (extend [] (paired tries.leaf xs)) xs h
                  (lookup-extend-paired tries.leaf xs []))
                refl))))

module _ (crates : Crates) (get_storage_proof : GetStorageProof) (node : ℕ → Tries) (block : ℕ)
    (data_of : ExecutionReads) where
  open crates use {try_address, get_contract_addresses}

  abbrev query : RpcStorageProofsQuery
  query = prepare_query get_contract_addresses data_of

  abbrev keys_of : ContractAddress → List Felt
  keys_of a = keys_for a (read_pairs data_of.initial_reads.storage)

  -- The contracts of the reads.
  abbrev contracts : List ContractAddress
  contracts = get_contract_addresses data_of.initial_reads

  -- What the OS is given: class hash and nonce of each contract from its leaf, the storage values
  -- of the execution, and for each trie its root and the paths to the keys that were read.
  pub record Reports (out : StorageProofs) : Type 0 where
    pub class_hashes :
        All
          (λ a.
            lookup a out.extended_initial_reads.class_hashes
            ≡ some ((node block).leaf a).class_hash)
          contracts
    pub nonces :
        All
          (λ a. lookup a out.extended_initial_reads.nonces ≡ some ((node block).leaf a).nonce)
          contracts
    pub storage : out.extended_initial_reads.storage ≡ extend [] data_of.initial_reads.storage
    pub contracts_trie :
        out.commitment_infos.contracts_trie_commitment_info
        ≡ unchanged crates
            (node block).roots.contracts_tree_root
            (gather (node block).contract_path (sort contracts))
    pub classes_trie :
        out.commitment_infos.classes_trie_commitment_info
        ≡ unchanged crates
            (node block).roots.classes_tree_root
            (gather (node block).class_path data_of.executed_class_hashes)
    pub storage_tries :
        All
          (λ a.
            lookup a out.commitment_infos.storage_tries_commitment_infos
            ≡ some (storage_trie crates (node block) keys_of a))
          contracts

  abbrev outcome : StorageProofs
  outcome = record {
    extended_initial_reads =
        extended_reads crates (respond (node block) query) query data_of.initial_reads;
    commitment_infos = record {
      contracts_trie_commitment_info =
          unchanged crates (node block).roots.contracts_tree_root
            (gather (node block).contract_path query.contract_addresses);
      classes_trie_commitment_info =
          unchanged crates (node block).roots.classes_tree_root
            (gather (node block).class_path query.class_hashes);
      storage_tries_commitment_infos =
          extend [] (paired (storage_trie crates (node block) keys_of) query.contract_addresses);
    };
  }

  outcome-Reports : Reports outcome
  unfolding respond prepare_query
  outcome-Reports =
      let leaf = (node block).leaf in
      let xs = query.contract_addresses in
      rw (read_leaves_lem leaf xs empty_maps) (record {
        class_hashes = sort-All _ contracts (lookup-extend-paired (λ a. (leaf a).class_hash) xs []);
        nonces = sort-All _ contracts (lookup-extend-paired (λ a. (leaf a).nonce) xs []);
        storage = refl;
        contracts_trie = refl;
        classes_trie = refl;
        storage_tries =
            sort-All _ contracts
              (lookup-extend-paired (storage_trie crates (node block) keys_of) xs []);
      })

  -- Against a node that answers every request of at most 100 keys, where the contracts of the
  -- reads are listed once each and every one is a valid address, the provider without state
  -- changes succeeds, however many keys were read. For every contract of the reads it reports
  -- class hash and nonce from its leaf and the root and the paths of its storage trie to the keys
  -- that were read of it; for the contracts' trie it reports the root and the paths to the
  -- contracts of the reads in ascending order, for the classes' trie the root and the paths to the
  -- executed classes, and it keeps the storage values of the execution.
  pub get_storage_proofs_total :
      (state_diff : StateMaps) (config : StorageProofConfig)
      → Answers get_storage_proof node
      → IsNodup contracts
      → All (λ a. try_address a ≡ some a) contracts
      → config.include_state_changes ≡ false
      → (out : StorageProofs) × (get_storage_proofs crates get_storage_proof block data_of
            state_diff config
          ≡ ok out)
        × Reports out
  unfolding respond prepare_query get_storage_proofs create_commitment_infos_without_state_changes
  get_storage_proofs_total state_diff config answers distinct valid off =
      let fetched =
        fetch_proofs-eq-respond get_storage_proof node answers block query
          ((prepare_query-HasDistinctAddresses get_contract_addresses data_of distinct).0) in
      let infos =
        build_storage_commitment_infos_lem crates (node block) keys_of query
          (prepare_query_lem get_contract_addresses data_of).3 (All-sort _ contracts valid) in
      let leaves : nat_beq
            (length (respond (node block) query).contracts_proof.contract_leaves_data)
            (length query.contract_addresses)
          ≡ true =
        rw (length-map query.contract_addresses (node block).leaf) (
          (nat_beq_iff (length query.contract_addresses) (length query.contract_addresses)).1
            refl) in
      (outcome, rw (fetched, leaves, off, infos) refl, outcome-Reports)
