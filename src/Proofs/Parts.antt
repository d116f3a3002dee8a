-- ===== src/Proofs/Parts.antt =====
-- The entries of the sub-queries: each has a key, and the address of an entry of the query.
use snip36_prover_web.Common.{
  ◌<◌, ◌≡◌, refl, sym, subst, inl, inr, List, [], ◌∷◌, map, length, All, All-append, All-of_append,
  All-weaken, arith, length-append,
}
use snip36_prover_web.Proofs.Types.{
  Felt, ContractStorageKeys, RpcStorageProofsQuery, QueryItem, class_hash, contract_address,
  storage_key, empty_query,
}
use snip36_prover_web.Proofs.Query.{push_storage_key, collect_item, collect_from, collect_query}
use snip36_prover_web.Proofs.Items.{storage_pairs, pair_with}
use snip36_prover_web.Proofs.Split.{all_storage_pairs}
use snip36_prover_web.Proofs.Position.{Listed}

abbrev HasKeys : ContractStorageKeys → Type 0
HasKeys c = 0 < length c.storage_keys

push-HasKeys :
    (a k : Felt) (cs : List ContractStorageKeys)
    → All HasKeys cs
    → All HasKeys (push_storage_key a k cs)
unfolding push_storage_key
push-HasKeys a k [] h = (omega arith, tt)
push-HasKeys a k (c ∷ []) h = ground (arith, length-append c.storage_keys (k ∷ []))
push-HasKeys a k (c ∷ d ∷ cs) (p, h) = (p, push-HasKeys a k (d ∷ cs) h)

collect_from-HasKeys :
    (q : RpcStorageProofsQuery) (items : List QueryItem)
    → All HasKeys q.contract_storage_keys
    → All HasKeys (collect_from q items).contract_storage_keys
unfolding collect_from
collect_from-HasKeys q [] h = h
collect_from-HasKeys q (class_hash x ∷ items) h =
    collect_from-HasKeys (collect_item q (class_hash x)) items h
collect_from-HasKeys q (contract_address a ∷ items) h =
    collect_from-HasKeys (collect_item q (contract_address a)) items h
collect_from-HasKeys q (storage_key a k ∷ items) h =
    collect_from-HasKeys (collect_item q (storage_key a k)) items
      (push-HasKeys a k q.contract_storage_keys h)

collected-HasKeys :
    (itemss : List (List QueryItem))
    → All (λ q. All HasKeys q.contract_storage_keys) (map collect_query itemss)
unfolding collect_query
collected-HasKeys [] = tt
collected-HasKeys (items ∷ itemss) =
    (collect_from-HasKeys empty_query items tt, collected-HasKeys itemss)

module _ (cs : List ContractStorageKeys) where
  abbrev PairListed : Felt × Felt → Type 0
  PairListed p = Listed p.0 cs

  AllListed_of_pairs :
      (ds : List ContractStorageKeys)
      → All HasKeys ds
      → All PairListed (storage_pairs ds)
      → All (λ d. Listed d.contract_address cs) ds
  AllListed_of_pairs [] k h = tt
  AllListed_of_pairs (d ∷ ds) (k, ks) h =
      let (here, there) =
        All-of_append PairListed (pair_with d.contract_address d.storage_keys) (storage_pairs ds)
          h in
      (first d.contract_address d.storage_keys k here, AllListed_of_pairs ds ks there)
    where
      first :
          (a : Felt) (keys : List Felt)
          → 0 < length keys
          → All PairListed (pair_with a keys)
          → Listed a cs
      first a [] z l = absurd (omega arith)
      first a (x ∷ xs) z (l, _) = l

  AllListed_of_parts :
      (parts : List RpcStorageProofsQuery)
      → All (λ q. All HasKeys q.contract_storage_keys) parts
      → All PairListed (all_storage_pairs parts)
      → All (λ q. All (λ d. Listed d.contract_address cs) q.contract_storage_keys) parts
  AllListed_of_parts [] k h = tt
  AllListed_of_parts (q ∷ parts) (k, ks) h =
      let (here, there) =
        All-of_append PairListed (storage_pairs q.contract_storage_keys) (all_storage_pairs parts)
          h in
      (AllListed_of_pairs q.contract_storage_keys k here, AllListed_of_parts parts ks there)

pair_with-Listed :
    (c : ContractStorageKeys) (cs : List ContractStorageKeys) (ks : List Felt)
    → All (PairListed (c ∷ cs)) (pair_with c.contract_address ks)
pair_with-Listed c cs [] = tt
pair_with-Listed c cs (k ∷ ks) = (inl refl, pair_with-Listed c cs ks)

storage_pairs-Listed : (cs : List ContractStorageKeys) → All (PairListed cs) (storage_pairs cs)
storage_pairs-Listed [] = tt
storage_pairs-Listed (c ∷ cs) =
    All-append (PairListed (c ∷ cs)) (pair_with c.contract_address c.storage_keys)
      (storage_pairs cs) (pair_with-Listed c cs c.storage_keys)
      (All-weaken (PairListed cs) (PairListed (c ∷ cs)) (λ p l. inr l) (storage_pairs cs)
        (storage_pairs-Listed cs))

-- Every entry of a collected sub-query has the address of an entry of the query.
pub collected-Listed :
    (cs : List ContractStorageKeys) (itemss : List (List QueryItem))
    → all_storage_pairs (map collect_query itemss) ≡ storage_pairs cs
    → All
        (λ q. All (λ d. Listed d.contract_address cs) q.contract_storage_keys)
        (map collect_query itemss)
collected-Listed cs itemss e =
    AllListed_of_parts cs (map collect_query itemss) (collected-HasKeys itemss)
      (subst (All (PairListed cs)) (sym e) (storage_pairs-Listed cs))
