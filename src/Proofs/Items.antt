-- ===== src/Proofs/Items.antt =====
-- The items of a query: flattening a query and collecting items again keep the keys of each kind, in
-- their order.
use snip36_prover_web.Common.{
  ◌+◌, ◌≡◌, refl, ap, sym, ◌∙◌, List, [], ◌∷◌, ◌++◌, map, length, append-nil, append_assoc,
  length-append, arith, nat_beq, Bool-cases, inl, inr, nat_beq_iff,
}
use snip36_prover_web.Proofs.Types.{
  Felt, ContractAddress, ContractStorageKeys, RpcStorageProofsQuery, empty_query, QueryItem,
  class_hash, contract_address, storage_key,
}
use snip36_prover_web.Proofs.Query.{
  sum_keys, count_total_keys, flatten_storage, flatten_query, push_storage_key, collect_item,
  collect_from, collect_query,
}

-- The items of each kind, in order.
abbrev pub class_items : List QueryItem → List Felt
class_items [] = []
class_items (class_hash h ∷ items) = h ∷ class_items items
class_items (_ ∷ items) = class_items items

abbrev pub address_items : List QueryItem → List ContractAddress
address_items [] = []
address_items (contract_address a ∷ items) = a ∷ address_items items
address_items (_ ∷ items) = address_items items

abbrev pub storage_items : List QueryItem → List (Felt × Felt)
storage_items [] = []
storage_items (storage_key a k ∷ items) = (a, k) ∷ storage_items items
storage_items (_ ∷ items) = storage_items items

abbrev pub pair_with : Felt → List Felt → List (Felt × Felt)
pair_with a [] = []
pair_with a (k ∷ ks) = (a, k) ∷ pair_with a ks

-- The (contract, key) pairs of the entries of a query.
abbrev pub storage_pairs : List ContractStorageKeys → List (Felt × Felt)
storage_pairs [] = []
storage_pairs (c ∷ cs) = pair_with c.contract_address c.storage_keys ++ storage_pairs cs

pub class_items-append :
    (xs ys : List QueryItem) → class_items (xs ++ ys) ≡ class_items xs ++ class_items ys
class_items-append [] ys = refl
class_items-append (class_hash h ∷ xs) ys = ap (◌∷◌ h) (class_items-append xs ys)
class_items-append (contract_address a ∷ xs) ys = class_items-append xs ys
class_items-append (storage_key a k ∷ xs) ys = class_items-append xs ys

pub address_items-append :
    (xs ys : List QueryItem) → address_items (xs ++ ys) ≡ address_items xs ++ address_items ys
address_items-append [] ys = refl
address_items-append (class_hash h ∷ xs) ys = address_items-append xs ys
address_items-append (contract_address a ∷ xs) ys = ap (◌∷◌ a) (address_items-append xs ys)
address_items-append (storage_key a k ∷ xs) ys = address_items-append xs ys

pub storage_items-append :
    (xs ys : List QueryItem) → storage_items (xs ++ ys) ≡ storage_items xs ++ storage_items ys
storage_items-append [] ys = refl
storage_items-append (class_hash h ∷ xs) ys = storage_items-append xs ys
storage_items-append (contract_address a ∷ xs) ys = storage_items-append xs ys
storage_items-append (storage_key a k ∷ xs) ys = ap (◌∷◌ (a, k)) (storage_items-append xs ys)

pair_with-append :
    (a : Felt) (xs ys : List Felt) → pair_with a (xs ++ ys) ≡ pair_with a xs ++ pair_with a ys
pair_with-append a [] ys = refl
pair_with-append a (k ∷ xs) ys = ap (◌∷◌ (a, k)) (pair_with-append a xs ys)

-- A pushed key is the last pair.
pub storage_pairs-push :
    (a k : Felt) (cs : List ContractStorageKeys)
    → storage_pairs (push_storage_key a k cs) ≡ storage_pairs cs ++ (a, k) ∷ []
unfolding push_storage_key
storage_pairs-push a k [] = refl
storage_pairs-push a k (c ∷ []) = elim (Bool-cases (nat_beq c.contract_address a)) [
  | inl same ↦
      let p : c.contract_address ≡ a = (nat_beq_iff c.contract_address a).0 same in
      rw same (
        rw (pair_with-append c.contract_address c.storage_keys (k ∷ [])) (
          simp (append-nil, append_assoc)
            (ap (λ t. pair_with c.contract_address c.storage_keys ++ (t, k) ∷ []) p)))
  | inr other ↦ rw other (simp (append-nil, append_assoc))
]
storage_pairs-push a k (c ∷ d ∷ cs) = rw (storage_pairs-push a k (d ∷ cs)) (simp append_assoc)

sum_keys-push :
    (a k : Felt) (cs : List ContractStorageKeys)
    → sum_keys (push_storage_key a k cs) ≡ sum_keys cs + 1
unfolding push_storage_key
sum_keys-push a k [] = refl
sum_keys-push a k (c ∷ []) = ground (arith, length-append c.storage_keys (k ∷ []))
sum_keys-push a k (c ∷ d ∷ cs) = omega (arith, sum_keys-push a k (d ∷ cs))

count-collect_from :
    (q : RpcStorageProofsQuery) (items : List QueryItem)
    → count_total_keys (collect_from q items) ≡ count_total_keys q + length items
unfolding collect_from count_total_keys
count-collect_from q [] = omega arith
count-collect_from q (class_hash h ∷ items) = omega (
  arith,
  count-collect_from (collect_item q (class_hash h)) items,
  length-append q.class_hashes (h ∷ []),
)
count-collect_from q (contract_address a ∷ items) = omega (
  arith,
  count-collect_from (collect_item q (contract_address a)) items,
  length-append q.contract_addresses (a ∷ []),
)
count-collect_from q (storage_key a k ∷ items) = omega (
  arith,
  count-collect_from (collect_item q (storage_key a k)) items,
  sum_keys-push a k q.contract_storage_keys,
)

-- Collecting keeps every item of each kind, in order.
pub record Collects (q : RpcStorageProofsQuery) (items : List QueryItem) : Type 0 where
  pub class_hashes : q.class_hashes ≡ class_items items
  pub contract_addresses : q.contract_addresses ≡ address_items items
  pub storage : storage_pairs q.contract_storage_keys ≡ storage_items items

class_hashes-collect_from :
    (q : RpcStorageProofsQuery) (items : List QueryItem)
    → (collect_from q items).class_hashes ≡ q.class_hashes ++ class_items items
unfolding collect_from
class_hashes-collect_from q [] = simp append-nil
class_hashes-collect_from q (class_hash h ∷ items) =
    class_hashes-collect_from (collect_item q (class_hash h)) items ∙ simp append_assoc
class_hashes-collect_from q (contract_address a ∷ items) =
    class_hashes-collect_from (collect_item q (contract_address a)) items
class_hashes-collect_from q (storage_key a k ∷ items) =
    class_hashes-collect_from (collect_item q (storage_key a k)) items

addresses-collect_from :
    (q : RpcStorageProofsQuery) (items : List QueryItem)
    → (collect_from q items).contract_addresses ≡ q.contract_addresses ++ address_items items
unfolding collect_from
addresses-collect_from q [] = simp append-nil
addresses-collect_from q (class_hash h ∷ items) =
    addresses-collect_from (collect_item q (class_hash h)) items
addresses-collect_from q (contract_address a ∷ items) =
    addresses-collect_from (collect_item q (contract_address a)) items ∙ simp append_assoc
addresses-collect_from q (storage_key a k ∷ items) =
    addresses-collect_from (collect_item q (storage_key a k)) items

storage-collect_from :
    (q : RpcStorageProofsQuery) (items : List QueryItem)
    → storage_pairs (collect_from q items).contract_storage_keys
      ≡ storage_pairs q.contract_storage_keys ++ storage_items items
unfolding collect_from
storage-collect_from q [] = simp append-nil
storage-collect_from q (class_hash h ∷ items) =
    storage-collect_from (collect_item q (class_hash h)) items
storage-collect_from q (contract_address a ∷ items) =
    storage-collect_from (collect_item q (contract_address a)) items
storage-collect_from q (storage_key a k ∷ items) =
    storage-collect_from (collect_item q (storage_key a k)) items
    ∙ simp (storage_pairs-push, append_assoc)

pub Collects-collect_query : (items : List QueryItem) → Collects (collect_query items) items
unfolding collect_query
Collects-collect_query items = record {
  class_hashes = class_hashes-collect_from empty_query items;
  contract_addresses = addresses-collect_from empty_query items;
  storage = storage-collect_from empty_query items;
}

pub count-collect_query :
    (items : List QueryItem) → count_total_keys (collect_query items) ≡ length items
unfolding collect_query count_total_keys
count-collect_query items = omega (arith, count-collect_from empty_query items)

class_items-storage : (a : Felt) (ks : List Felt) → class_items (map (storage_key a) ks) ≡ []
class_items-storage a [] = refl
class_items-storage a (k ∷ ks) = class_items-storage a ks

address_items-storage : (a : Felt) (ks : List Felt) → address_items (map (storage_key a) ks) ≡ []
address_items-storage a [] = refl
address_items-storage a (k ∷ ks) = address_items-storage a ks

storage_items-storage :
    (a : Felt) (ks : List Felt) → storage_items (map (storage_key a) ks) ≡ pair_with a ks
storage_items-storage a [] = refl
storage_items-storage a (k ∷ ks) = ap (◌∷◌ (a, k)) (storage_items-storage a ks)

items-flatten_storage :
    (cs : List ContractStorageKeys)
    → (class_items (flatten_storage cs) ≡ [])
      × (address_items (flatten_storage cs) ≡ [])
      × (storage_items (flatten_storage cs) ≡ storage_pairs cs)
unfolding flatten_storage
items-flatten_storage [] = (refl, refl, refl)
items-flatten_storage (c ∷ cs) =
    let (p, q, r) = items-flatten_storage cs in
    (
      simp (class_items-append, class_items-storage, p),
      simp (address_items-append, address_items-storage, q),
      simp (storage_items-append, storage_items-storage, r),
    )

items-addresses :
    (xs : List ContractAddress)
    → (class_items (map contract_address xs) ≡ [])
      × (address_items (map contract_address xs) ≡ xs)
      × (storage_items (map contract_address xs) ≡ [])
items-addresses [] = (refl, refl, refl)
items-addresses (a ∷ xs) = let (p, q, r) = items-addresses xs in (p, ap (◌∷◌ a) q, r)

items-classes :
    (hs : List Felt)
    → (class_items (map class_hash hs) ≡ hs)
      × (address_items (map class_hash hs) ≡ [])
      × (storage_items (map class_hash hs) ≡ [])
items-classes [] = (refl, refl, refl)
items-classes (h ∷ hs) = let (p, q, r) = items-classes hs in (ap (◌∷◌ h) p, q, r)

-- A flattened query holds its keys, in order.
pub Collects-flatten_query : (q : RpcStorageProofsQuery) → Collects q (flatten_query q)
unfolding flatten_query
Collects-flatten_query q =
    let (p, r, t) = items-flatten_storage q.contract_storage_keys in
    let (p', r', t') = items-addresses q.contract_addresses in
    let (p'', r'', t'') = items-classes q.class_hashes in
    record {
      class_hashes = sym (simp (class_items-append, p, p', p'', append-nil));
      contract_addresses = sym (simp (address_items-append, r, r', r'', append-nil));
      storage = sym (simp (storage_items-append, t, t', t''));
    }
