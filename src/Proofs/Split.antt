-- ===== src/Proofs/Split.antt =====
-- What `split_query` guarantees: every sub-query is within the limit, and together they hold the
-- keys of the original query, in its order.
use snip36_prover_web.Common.{
  ℕ, zero, suc, ◌≤◌, ◌<◌, ◌≡◌, refl, ap, sym, ◌∙◌, some, List, [], ◌∷◌, ◌++◌, map, length, take,
  drop, length-take, length-drop, take-append-drop, concat, arith, All, All-map,
}
use snip36_prover_web.Proofs.Types.{Felt, ContractAddress, RpcStorageProofsQuery, QueryItem}
use snip36_prover_web.Proofs.Query.{
  count_total_keys, flatten_query, collect_query, chunks_fuel, chunks, split_query,
}
use snip36_prover_web.Proofs.Items.{
  Collects-collect_query, Collects-flatten_query, address_items, address_items-append, class_items,
  class_items-append, count-collect_query, storage_items, storage_items-append, storage_pairs,
}

-- Chunking loses nothing and keeps to the size.
concat-chunks_fuel :
    (f n : ℕ) (items : List QueryItem)
    → length items ≤ f
    → concat (chunks_fuel f (suc n) items) ≡ items
unfolding chunks_fuel
concat-chunks_fuel zero n [] h = refl
concat-chunks_fuel zero n (x ∷ items) h = absurd (omega arith)
concat-chunks_fuel (suc f) n [] h = refl
concat-chunks_fuel (suc f) n (x ∷ items) h =
    ap (λ t. x ∷ (take n items ++ t))
      (concat-chunks_fuel f n (drop n items) (omega (arith, length-drop n items)))
    ∙ ap (◌∷◌ x) (take-append-drop n items)

pub concat-chunks : (n : ℕ) (items : List QueryItem) → concat (chunks (suc n) items) ≡ items
unfolding chunks
concat-chunks n items = concat-chunks_fuel (length items) n items (omega arith)

abbrev pub IsWithin : ℕ → List QueryItem → Type 0
IsWithin n items = (0 < length items) × (length items ≤ n)

chunks_fuel-IsWithin :
    (f n : ℕ) (items : List QueryItem) → All (IsWithin (suc n)) (chunks_fuel f (suc n) items)
unfolding chunks_fuel
chunks_fuel-IsWithin zero n items = tt
chunks_fuel-IsWithin (suc f) n [] = tt
chunks_fuel-IsWithin (suc f) n (x ∷ items) = (
  (omega (arith, length-take n items), omega (arith, length-take n items)),
  chunks_fuel-IsWithin f n (drop n items),
)

pub chunks-IsWithin :
    (n : ℕ) (items : List QueryItem) → All (IsWithin (suc n)) (chunks (suc n) items)
unfolding chunks
chunks-IsWithin n items = chunks_fuel-IsWithin (length items) n items

-- The parts of a query, put together again in order.
abbrev pub all_class_hashes : List RpcStorageProofsQuery → List Felt
all_class_hashes [] = []
all_class_hashes (q ∷ qs) = q.class_hashes ++ all_class_hashes qs

abbrev pub all_addresses : List RpcStorageProofsQuery → List ContractAddress
all_addresses [] = []
all_addresses (q ∷ qs) = q.contract_addresses ++ all_addresses qs

abbrev pub all_storage_pairs : List RpcStorageProofsQuery → List (Felt × Felt)
all_storage_pairs [] = []
all_storage_pairs (q ∷ qs) = storage_pairs q.contract_storage_keys ++ all_storage_pairs qs

pub record Partitions (parts : List RpcStorageProofsQuery) (q : RpcStorageProofsQuery)
    : Type 0 where
  pub class_hashes : all_class_hashes parts ≡ q.class_hashes
  pub contract_addresses : all_addresses parts ≡ q.contract_addresses
  pub storage : all_storage_pairs parts ≡ storage_pairs q.contract_storage_keys

Collects-concat :
    (itemss : List (List QueryItem))
    → (all_class_hashes (map collect_query itemss) ≡ class_items (concat itemss))
      × (all_addresses (map collect_query itemss) ≡ address_items (concat itemss))
      × (all_storage_pairs (map collect_query itemss) ≡ storage_items (concat itemss))
Collects-concat [] = (refl, refl, refl)
Collects-concat (items ∷ itemss) =
    let (p, r, t) = Collects-concat itemss in
    let c = Collects-collect_query items in
    (
      simp (c.class_hashes, p, class_items-append),
      simp (c.contract_addresses, r, address_items-append),
      simp (c.storage, t, storage_items-append),
    )

abbrev pub FitsLimit : ℕ → RpcStorageProofsQuery → Type 0
FitsLimit n q = (0 < count_total_keys q) × (count_total_keys q ≤ n)

-- The sub-queries before they are wrapped by `split_query`.
abbrev pub parts_of : RpcStorageProofsQuery → ℕ → List RpcStorageProofsQuery
parts_of q n = map collect_query (chunks n (flatten_query q))

pub parts_of-Partitions : (q : RpcStorageProofsQuery) (n : ℕ) → Partitions (parts_of q (suc n)) q
parts_of-Partitions q n =
    let items = flatten_query q in
    let (p, r, t) = Collects-concat (chunks (suc n) items) in
    let f = Collects-flatten_query q in
    record {
      class_hashes = p ∙ ap class_items (concat-chunks n items) ∙ sym f.class_hashes;
      contract_addresses = r ∙ ap address_items (concat-chunks n items) ∙ sym f.contract_addresses;
      storage = t ∙ ap storage_items (concat-chunks n items) ∙ sym f.storage;
    }

pub parts_of-FitsLimit :
    (q : RpcStorageProofsQuery) (n : ℕ) → All (FitsLimit (suc n)) (parts_of q (suc n))
parts_of-FitsLimit q n =
    All-map (IsWithin (suc n)) (FitsLimit (suc n)) collect_query
      (λ items w. omega (arith, count-collect_query items)) (chunks (suc n) (flatten_query q))
      (chunks-IsWithin n (flatten_query q))

-- Splitting by a positive limit always succeeds. Every sub-query counts at least one key and at
-- most the limit, and together they hold exactly the class hashes, the contract addresses and the
-- (contract, key) pairs of the query, in its order.
pub split_query_total :
    (q : RpcStorageProofsQuery) (n : ℕ)
    → 0 < n
    → (parts : List RpcStorageProofsQuery) × (split_query q n ≡ some parts)
      × All (FitsLimit n) parts
      × Partitions parts q
unfolding split_query
split_query_total q zero h = absurd (omega arith)
split_query_total q (suc n) h =
    (parts_of q (suc n), refl, parts_of-FitsLimit q n, parts_of-Partitions q n)
