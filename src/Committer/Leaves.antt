-- ===== src/Committer/Leaves.antt =====
-- Leaves have keys of their own: inserting them leaves every inner node as it is.
use snip36_prover_web.Common.{
  ℕ, ◌≡◌, ◌≢◌, sym, ap, ◌∙◌, some, List, [], ◌∷◌, zip, nat_beq, if◌then◌else◌, Result, ok,
  reject_if-eq-ok, not, length, ◌>>=◌, map_err, >>=-eq-ok, arith, nat_eq,
}
use snip36_prover_web.Common.Assoc.{Assoc, lookup-insert}
use snip36_prover_web.Proofs.Types.{
  Felt, ContractAddress, ContractLeafData, RpcStorageProofsQuery, RpcStorageProof,
  serialization_error, invalid_proof_response, leaves_length,
}
use snip36_prover_web.Committer.Types.{StateMaps}
use snip36_prover_web.Committer.Codec.{Codec}
use snip36_prover_web.Committer.Facts.{
  Db, Step, get, put, insert_leaf_node, insert_leaves, insert_contract_leaves,
  insert_storage_entries, insert_class_entries, contract_state,
}

abbrev pub done : (codec : Codec) → Db codec → Step codec
done codec db = ok db

module _ (codec : Codec) where
  open codec use {Key, Value, inner_key, serialize_node}

  pub get-put :
      (k j : Key) (v : Value) (db : Db codec)
      → get codec j (put codec k v db) ≡ (if codec.key_eq.beq k j then some v else get codec j db)
  get-put k j v db = lookup-insert ⦃e = codec.key_eq⦄ k j v db

  -- A write elsewhere is not seen.
  get-insert_leaf_node :
      (k j : Key) (r : Result ℕ Value) (db db' : Db codec)
      → insert_leaf_node codec k r db ≡ ok db'
      → j ≢ k
      → get codec j db' ≡ get codec j db
  unfolding insert_leaf_node
  get-insert_leaf_node k j r db db' e apart =
      let (v, p, q) = >>=-eq-ok (map_err serialization_error r) _ e in
      let w : put codec k v db ≡ db' = cc in
      ap (get codec j) (sym w) ∙ get-put k j v db ∙ ground (arith, codec.key_eq.beq_iff k j)

  leaf_step :
      (k j : Key) (r : Result ℕ Value) (f : Db codec → Step codec) (db db' : Db codec)
      → j ≢ k
      → (insert_leaf_node codec k r db >>= f) ≡ ok db'
      → (mid : Db codec) × (get codec j mid ≡ get codec j db) × (f mid ≡ ok db')
  leaf_step k j r f db db' apart e =
      let (mid, p, q) = >>=-eq-ok (insert_leaf_node codec k r db) f e in
      (mid, get-insert_leaf_node k j r db mid p apart, q)

  pub same_of_ok :
      (j : Key) (db db' : Db codec) → done codec db ≡ ok db' → get codec j db' ≡ get codec j db
  same_of_ok j db db' e = let w : db ≡ db' = cc in ap (get codec j) (sym w)

  get-insert_leaves :
      (h : Felt) (ls : List (ContractLeafData × ContractAddress)) (db db' : Db codec)
      → insert_leaves codec ls db ≡ ok db'
      → get codec (inner_key h) db' ≡ get codec (inner_key h) db
  unfolding insert_leaves
  get-insert_leaves h [] db db' e = same_of_ok (inner_key h) db db' e
  get-insert_leaves h ((leaf, a) ∷ ls) db db' e =
      let hash = codec.contract_leaf_hash (contract_state codec leaf) in
      let (mid, p, q) =
        leaf_step (codec.contract_leaf_key hash) (inner_key h)
          (codec.serialize_contract hash (contract_state codec leaf)) (insert_leaves codec ls) db
          db' (codec.inner_ne_contract h hash) e in
      get-insert_leaves h ls mid db' q ∙ p

  get-insert_storage :
      (h : Felt) (es : Assoc (ContractAddress × Felt) Felt) (db db' : Db codec)
      → insert_storage_entries codec es db ≡ ok db'
      → get codec (inner_key h) db' ≡ get codec (inner_key h) db
  unfolding insert_storage_entries
  get-insert_storage h [] db db' e = same_of_ok (inner_key h) db db' e
  get-insert_storage h (((a, k), v) ∷ es) db db' e =
      let hash = codec.storage_leaf_hash v in
      let (mid, p, q) =
        leaf_step (codec.storage_leaf_key a hash) (inner_key h) (codec.serialize_storage hash v)
          (insert_storage_entries codec es) db db' (codec.inner_ne_storage h a hash) e in
      get-insert_storage h es mid db' q ∙ p

  get-insert_classes :
      (h : Felt) (es : Assoc Felt Felt) (db db' : Db codec)
      → insert_class_entries codec es db ≡ ok db'
      → get codec (inner_key h) db' ≡ get codec (inner_key h) db
  unfolding insert_class_entries
  get-insert_classes h [] db db' e = same_of_ok (inner_key h) db db' e
  get-insert_classes h ((c, v) ∷ es) db db' e =
      let hash = codec.class_leaf_hash v in
      let (mid, p, q) =
        leaf_step (codec.class_leaf_key hash) (inner_key h) (codec.serialize_class hash v)
          (insert_class_entries codec es) db db' (codec.inner_ne_class h hash) e in
      get-insert_classes h es mid db' q ∙ p

  -- The three steps that insert leaves leave every inner node as it is.
  pub get-leaves :
      (h : Felt) (p : RpcStorageProof) (q : RpcStorageProofsQuery) (m : StateMaps)
      (db db' : Db codec)
      → (insert_contract_leaves codec p q db >>= λ db₁.
          insert_storage_entries codec m.storage db₁ >>= λ db₂.
          insert_class_entries codec m.compiled_class_hashes db₂)
        ≡ ok db'
      → get codec (inner_key h) db' ≡ get codec (inner_key h) db
  unfolding insert_contract_leaves
  get-leaves h p q m db db' e =
      let (db₁, e₁, r₁) = >>=-eq-ok (insert_contract_leaves codec p q db) _ e in
      let (db₂, e₂, r₂) = >>=-eq-ok (insert_storage_entries codec m.storage db₁) _ r₁ in
      let pairs = zip p.contracts_proof.contract_leaves_data q.contract_addresses in
      let (passed, r₀) =
        reject_if-eq-ok
          (not
            (nat_beq (length p.contracts_proof.contract_leaves_data) (length q.contract_addresses)))
          (invalid_proof_response leaves_length) (insert_leaves codec pairs db) e₁ in
      get-insert_classes h m.compiled_class_hashes db₂ db' r₂
      ∙ get-insert_storage h m.storage db₁ db₂ e₂
      ∙ get-insert_leaves h pairs db db₁ r₀
