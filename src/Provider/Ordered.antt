-- ===== src/Provider/Ordered.antt =====
-- What `prepare_query` asks for.
use snip36_prover_web.Common.{
  ◌≡◌, refl, ap, sym, ◌∙◌, Option, some, List, [], ◌∷◌, ◌++◌, map, nat_beq, nat_beq_iff,
  if◌then◌else◌, nat_eq, Bool-cases, inl, inr, All, All-weaken, append-nil, append_assoc,
}
use snip36_prover_web.Common.Assoc.{Assoc, lookup, insert, lookup-insert}
use snip36_prover_web.Proofs.Types.{
  Felt, ContractAddress, ContractStorageKeys, RpcStorageProofsQuery,
}
use snip36_prover_web.Proofs.Position.{NotListed, HasDistinctAddresses}
use snip36_prover_web.Proofs.Keys.{keys_for}
use snip36_prover_web.Committer.Types.{StateMaps}
use snip36_prover_web.Provider.Prepare.{
  ExecutionReads, sort, or_empty, group_keys, entry_of, prepare_query,
}
use snip36_prover_web.Provider.Sorting.{
  count, count-sort, Apart, IsNodup, IsNodup-sort, count-IsNodup, IsSorted, IsSorted-sort,
}

-- The (contract, key) pairs that were read.
abbrev pub read_pairs : Assoc (ContractAddress × Felt) Felt → List (Felt × Felt)
read_pairs [] = []
read_pairs (((a, k), v) ∷ rest) = (a, k) ∷ read_pairs rest

lookup-group_keys :
    (a : ContractAddress) (reads : Assoc (ContractAddress × Felt) Felt)
    (m : Assoc ContractAddress (List Felt))
    → or_empty (lookup a (group_keys reads m))
      ≡ or_empty (lookup a m) ++ keys_for a (read_pairs reads)
unfolding group_keys
lookup-group_keys a [] m = sym (append-nil _)
lookup-group_keys a (((b, k), v) ∷ rest) m =
    lookup-group_keys a rest (insert b (or_empty (lookup b m) ++ k ∷ []) m)
    ∙ step (lookup-insert b a (or_empty (lookup b m) ++ k ∷ []) m)
  where
    step :
        {o : Option (List Felt)}
        → o ≡ (if nat_beq b a then some (or_empty (lookup b m) ++ k ∷ []) else lookup a m)
        → or_empty o ++ keys_for a (read_pairs rest)
          ≡ or_empty (lookup a m) ++ keys_for a ((b, k) ∷ read_pairs rest)
    step e = elim (Bool-cases (nat_beq b a)) [
      | inl same ↦
          let p : b ≡ a = (nat_beq_iff b a).0 same in
          rw (e, same)
            (rw append_assoc
              (ap (λ t. or_empty (lookup t m) ++ k ∷ keys_for a (read_pairs rest)) p))
      | inr other ↦ rw (e, other) refl
    ]

NotListed-entries :
    (f : ContractAddress → ContractStorageKeys) (a : Felt) (xs : List Felt)
    → ((b : Felt) → (f b).contract_address ≡ b)
    → Apart a xs
    → NotListed a (map f xs)
NotListed-entries f a [] h k = tt
NotListed-entries f a (x ∷ xs) h (p, k) = (rw (h x) p, NotListed-entries f a xs h k)

HasDistinctAddresses-entries :
    (m : Assoc ContractAddress (List Felt)) (xs : List Felt)
    → IsNodup xs
    → HasDistinctAddresses (map (entry_of m) xs)
HasDistinctAddresses-entries m [] h = tt
HasDistinctAddresses-entries m (x ∷ xs) (p, h) =
    (NotListed-entries (entry_of m) x xs (λ b. refl) p, HasDistinctAddresses-entries m xs h)

entries-addresses :
    (m : Assoc ContractAddress (List Felt)) (xs : List ContractAddress)
    → map (λ e. e.contract_address) (map (entry_of m) xs) ≡ xs
entries-addresses m [] = refl
entries-addresses m (x ∷ xs) = ap (◌∷◌ x) (entries-addresses m xs)

map-entry_of :
    (reads : Assoc (ContractAddress × Felt) Felt) (xs : List ContractAddress)
    → map (entry_of (group_keys reads [])) xs
      ≡ map (λ a. record { contract_address = a; storage_keys = keys_for a (read_pairs reads) }) xs
unfolding lookup
map-entry_of reads [] = refl
map-entry_of reads (x ∷ xs) = cc (lookup-group_keys x reads [], map-entry_of reads xs)

module _ (get_contract_addresses : StateMaps → List ContractAddress)
    (reads_of : ExecutionReads) where
  abbrev query : RpcStorageProofsQuery
  query = prepare_query get_contract_addresses reads_of

  abbrev contracts : List ContractAddress
  contracts = get_contract_addresses reads_of.initial_reads

  -- The query asks for the executed classes, for the contracts of the reads, each as often as it
  -- is among them, in ascending order, and for every one of them for exactly the keys that were
  -- read of it, in the order of the reads.
  pub prepare_query_lem :
      (query.class_hashes ≡ reads_of.executed_class_hashes)
      × ((a : Felt) → count a query.contract_addresses ≡ count a contracts)
      × IsSorted query.contract_addresses
      × (query.contract_storage_keys
          ≡ map
              (λ a. record {
                contract_address = a;
                storage_keys = keys_for a (read_pairs reads_of.initial_reads.storage);
              })
              query.contract_addresses)
  unfolding prepare_query
  prepare_query_lem = (
    refl,
    (λ a. count-sort a contracts),
    IsSorted-sort contracts,
    map-entry_of reads_of.initial_reads.storage (sort contracts),
  )

  -- Where the contracts of the reads are listed once each, no two entries of the query have the
  -- same address, as fetching in parts requires, every contract of the reads has exactly one
  -- entry, and no other address has one.
  pub prepare_query-HasDistinctAddresses :
      IsNodup contracts
      → HasDistinctAddresses query.contract_storage_keys
        × All
            (λ a. count a (map (λ e. e.contract_address) query.contract_storage_keys) ≡ 1)
            contracts
        × ((a : Felt)
            → count a contracts ≡ 0
            → count a (map (λ e. e.contract_address) query.contract_storage_keys) ≡ 0)
  unfolding prepare_query
  prepare_query-HasDistinctAddresses h =
      let grouped = group_keys reads_of.initial_reads.storage [] in
      let same : (a : Felt)
          → count a (map (λ e. e.contract_address) (map (entry_of grouped) (sort contracts)))
            ≡ count a contracts =
        λ a. ap (count a) (entries-addresses grouped (sort contracts)) ∙ count-sort a contracts in
      (
        HasDistinctAddresses-entries grouped (sort contracts) (IsNodup-sort contracts h),
        All-weaken (λ a. count a contracts ≡ 1) _ (λ a e. same a ∙ e) contracts
            (count-IsNodup contracts h),
        λ a e. same a ∙ e,
      )
