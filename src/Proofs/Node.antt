-- ===== src/Proofs/Node.antt =====
-- The node that `fetch_proofs` talks to, as the RPC specification describes it: its tries give the
-- nodes on the path to each key, and a response has them for all keys of the query, in its order.
use snip36_prover_web.Common.{◌≡◌, refl, sym, ap, ◌∙◌, List, [], ◌∷◌, ◌++◌, map, nat_eq}
use snip36_prover_web.Common.Assoc.{extend, extend_assoc, IsKeyed, IsKeyed-extend}
use snip36_prover_web.Proofs.Types.{
  Felt, ContractAddress, ContractStorageKeys, RpcStorageProofsQuery, Nodes, ContractLeafData,
  GlobalRoots, RpcStorageProof,
}

-- The state of the node at one block.
pub record Tries : Type 0 where
  pub roots : GlobalRoots
  pub class_path : Felt → Nodes
  pub contract_path : ContractAddress → Nodes
  pub leaf : ContractAddress → ContractLeafData
  pub storage_path : Felt → Felt → Nodes

-- The union of the paths to the keys, in the order in which they are first met.
module _ {A : Type 0} (path : A → Nodes) where
  unfoldable pub gather_from : Nodes → List A → Nodes
  gather_from acc [] = acc
  gather_from acc (x ∷ xs) = gather_from (extend acc (path x)) xs

  unfoldable pub gather : List A → Nodes
  unfolding gather_from
  gather xs = gather_from [] xs

  IsKeyed-gather_from : (acc : Nodes) (xs : List A) → IsKeyed acc → IsKeyed (gather_from acc xs)
  unfolding gather_from
  IsKeyed-gather_from acc [] h = h
  IsKeyed-gather_from acc (x ∷ xs) h =
      IsKeyed-gather_from (extend acc (path x)) xs (IsKeyed-extend acc (path x) h)

  extend-gather_from :
      (m acc : Nodes) (xs : List A)
      → IsKeyed acc
      → extend m (gather_from acc xs) ≡ gather_from (extend m acc) xs
  unfolding gather_from
  extend-gather_from m acc [] h = refl
  extend-gather_from m acc (x ∷ xs) h =
      extend-gather_from m (extend acc (path x)) xs (IsKeyed-extend acc (path x) h)
      ∙ ap (λ t. gather_from t xs) (extend_assoc m acc (path x) h)

  gather_from-append :
      (acc : Nodes) (xs ys : List A)
      → gather_from acc (xs ++ ys) ≡ gather_from (gather_from acc xs) ys
  unfolding gather_from
  gather_from-append acc [] ys = refl
  gather_from-append acc (x ∷ xs) ys = gather_from-append (extend acc (path x)) xs ys

  extend-nil : (m : Nodes) → extend m [] ≡ m
  unfolding extend
  extend-nil m = refl

  -- Merging two unions is the union for both lists of keys.
  pub extend-gather : (xs ys : List A) → extend (gather xs) (gather ys) ≡ gather (xs ++ ys)
  unfolding gather
  extend-gather xs ys =
      extend-gather_from (gather_from [] xs) [] ys tt
      ∙ ap (λ t. gather_from t ys) (extend-nil (gather_from [] xs))
      ∙ sym (gather_from-append [] xs ys)

abbrev pub storage_proof : Tries → ContractStorageKeys → Nodes
storage_proof node c = gather (node.storage_path c.contract_address) c.storage_keys

-- The response to one request.
unfoldable pub respond : Tries → RpcStorageProofsQuery → RpcStorageProof
respond node q = record {
  classes_proof = gather node.class_path q.class_hashes;
  contracts_proof = record {
    nodes = gather node.contract_path q.contract_addresses;
    contract_leaves_data = map node.leaf q.contract_addresses;
  };
  contracts_storage_proofs = map (storage_proof node) q.contract_storage_keys;
  global_roots = node.roots;
}
