-- ===== src/Committer/Stored.antt =====
-- `create_facts_db_from_storage_proof` stores every node of the proof as it is, and makes every
-- child of such a node readable.
use snip36_prover_web.Common.{
  ◌≡◌, ◌≢◌, ◌∙◌, true, some, List, [], ◌∷◌, nat_beq, nat_beq_iff, ok, subst, Option-cases, map_err,
  >>=-eq-ok, map_err-eq-ok, All, All-weaken, arith, Bool-cases, inl, inr, nat_eq,
}
use snip36_prover_web.Common.Assoc.{lookup}
use snip36_prover_web.Proofs.Types.{
  Felt, MerkleNode, binary_node, edge_node, Nodes, serialization_error,
}
use snip36_prover_web.Committer.Codec.{Codec}
use snip36_prover_web.Committer.Facts.{
  Db, get, put, insert_inner_nodes, has_preimage, add_dummies_from,
  add_dummy_nodes_for_orphan_hashes, for_each,
}
use snip36_prover_web.Committer.Leaves.{get-put, done}
use snip36_prover_web.Committer.Closure.{
  Agrees, lookup-All, Present, ChildrenPresent, add_dummies_from-closed, get-add_dummies_from,
}

module _ (codec : Codec) (node_of : Felt → MerkleNode) where
  open codec use {Key, Value, inner_key, serialize_node}

  -- The fact under the hash is the node with that hash, serialized.
  abbrev pub Stored : Felt → Db codec → Type 0
  Stored h db =
      (v : Value) × (serialize_node h (node_of h) ≡ ok v) × (get codec (inner_key h) db ≡ some v)

  abbrev pub AllStored : Nodes → Db codec → Type 0
  AllStored nodes db = All (λ p. Stored p.0 db) nodes

  Stored-put :
      (h : Felt) (db : Db codec) (v : Value)
      → serialize_node h (node_of h) ≡ ok v
      → Stored h (put codec (inner_key h) v db)
  Stored-put h db v e = (
    v,
    e,
    get-put codec (inner_key h) (inner_key h) v db
        ∙ ground (arith, codec.key_eq.beq_iff (inner_key h) (inner_key h)),
  )

  Stored-put_other :
      (h k : Felt) (db : Db codec) (v : Value)
      → serialize_node k (node_of k) ≡ ok v
      → Stored h db
      → Stored h (put codec (inner_key k) v db)
  Stored-put_other h k db v e (w, s, p) = elim (Bool-cases (nat_beq k h)) [
    | inl same ↦
        subst (λ t. Stored t (put codec (inner_key k) v db)) ((nat_beq_iff k h).0 same)
          (Stored-put k db v e)
    | inr other ↦
        let apart : inner_key k ≢ inner_key h =
          λ q. absurd (let r = codec.inner_key_injective k h q in ground arith) in
        (
          w,
          s,
          get-put codec (inner_key k) (inner_key h) v db
              ∙ ground (arith, codec.key_eq.beq_iff (inner_key k) (inner_key h)),
        )
  ]

  abbrev pub Written : Nodes → Db codec → Db codec → Type 0
  Written nodes db db' = AllStored nodes db' × ((h : Felt) → Stored h db → Stored h db')

  -- The nodes of the batch are stored, and what was stored stays.
  pub insert_inner_nodes-Written :
      (nodes : Nodes) (db db' : Db codec)
      → Agrees node_of nodes
      → insert_inner_nodes codec nodes db ≡ ok db'
      → Written nodes db db'
  unfolding insert_inner_nodes
  insert_inner_nodes-Written [] db db' a e =
      let w : db ≡ db' = cc in (tt, λ h s. subst (Stored h) w s)
  insert_inner_nodes-Written ((k, n) ∷ nodes) db db' (a, as') e =
      let (v, p, r) =
        >>=-eq-ok (map_err serialization_error (serialize_node k n))
          (λ value. insert_inner_nodes codec nodes (put codec (inner_key k) value db)) e in
      let q : serialize_node k (node_of k) ≡ ok v =
        subst (λ t. serialize_node k t ≡ ok v) a
          (map_err-eq-ok serialization_error (serialize_node k n) p) in
      let (later, stays) =
        insert_inner_nodes-Written nodes (put codec (inner_key k) v db) db' as' r in
      ((stays k (Stored-put k db v q), later), λ h s. stays h (Stored-put_other h k db v q s))

  pub AllStored-keep :
      (nodes : Nodes) (db db' : Db codec)
      → ((h : Felt) → Stored h db → Stored h db')
      → AllStored nodes db
      → AllStored nodes db'
  AllStored-keep nodes db db' stays h =
      All-weaken (λ p. Stored p.0 db) (λ p. Stored p.0 db') (λ p s. stays p.0 s) nodes h

  pub for_each-Written :
      (batches : List Nodes) (db db' : Db codec)
      → All (Agrees node_of) batches
      → for_each codec (insert_inner_nodes codec) batches db ≡ ok db'
      → All (λ nodes. AllStored nodes db') batches × ((h : Felt) → Stored h db → Stored h db')
  unfolding for_each
  for_each-Written [] db db' a e = let w : db ≡ db' = cc in (tt, λ h s. subst (Stored h) w s)
  for_each-Written (nodes ∷ batches) db db' (a, as') e =
      let (mid, p, r) =
        >>=-eq-ok (insert_inner_nodes codec nodes db)
          (for_each codec (insert_inner_nodes codec) batches) e in
      let (here, stays) = insert_inner_nodes-Written nodes db mid a p in
      let (later, stays') = for_each-Written batches mid db' as' r in
      ((AllStored-keep nodes mid db' stays' here, later), λ h s. stays' h (stays h s))

  -- The dummies: facts stay, and the children of the batch become readable.
  abbrev pub Stays : Db codec → Db codec → Type 0
  Stays db db' = (k : Key) (v : Value) → get codec k db ≡ some v → get codec k db' ≡ some v

  pub Stored-Stays : (db db' : Db codec) → Stays db db' → (h : Felt) → Stored h db → Stored h db'
  Stored-Stays db db' stays h (v, s, p) = (v, s, stays (inner_key h) v p)

  abbrev pub AllClosed : Nodes → Db codec → Type 0
  AllClosed nodes db = All (λ p. ChildrenPresent codec p.1 db) nodes

  pub AllClosed-Stays :
      (nodes : Nodes) (db db' : Db codec) → Stays db db' → AllClosed nodes db → AllClosed nodes db'
  AllClosed-Stays nodes db db' stays h =
      All-weaken (λ p. ChildrenPresent codec p.1 db) (λ p. ChildrenPresent codec p.1 db')
        (λ p c. grown p.1 c) nodes h
    where
      grown : (n : MerkleNode) → ChildrenPresent codec n db → ChildrenPresent codec n db'
      grown (binary_node l r) ((v, p), (w, q)) =
          ((v, stays (inner_key l) v p), (w, stays (inner_key r) w q))
      grown (edge_node x y c) (v, p) = (v, stays (inner_key c) v p)

  has_preimage-Present :
      (nodes : Nodes) (db : Db codec)
      → AllStored nodes db
      → (c : Felt) → has_preimage codec c nodes ≡ true
      → Present codec c db
  has_preimage-Present nodes db h c known = elim (Option-cases (lookup c nodes)) [
    | inl absent ↦ cc (rw (absent, has_preimage) at known)
    | inr (n, found) ↦ let (v, s, p) = lookup-All (λ t. Stored t db) nodes c n h found in (v, p)
  ]

  pub add_dummy_nodes-Closed :
      (nodes : Nodes) (db db' : Db codec)
      → AllStored nodes db
      → add_dummy_nodes_for_orphan_hashes codec nodes db ≡ ok db'
      → Stays db db' × AllClosed nodes db'
  unfolding add_dummy_nodes_for_orphan_hashes
  add_dummy_nodes-Closed nodes db db' h e =
      let (dummy, p, r) =
        >>=-eq-ok (map_err serialization_error (serialize_node 0 (binary_node 0 0)))
          (λ d. done codec (add_dummies_from codec nodes nodes d db)) e in
      let w : add_dummies_from codec nodes nodes dummy db ≡ db' = cc in
      (
        λ k v q.
            subst (λ t. get codec k t ≡ some v) w
              (get-add_dummies_from codec nodes dummy nodes k v db q),
        subst (AllClosed nodes) w
            (add_dummies_from-closed codec nodes dummy nodes db (has_preimage-Present nodes db h)),
      )

  pub for_each-Closed :
      (batches : List Nodes) (db db' : Db codec)
      → All (λ nodes. AllStored nodes db) batches
      → for_each codec (add_dummy_nodes_for_orphan_hashes codec) batches db ≡ ok db'
      → Stays db db' × All (λ nodes. AllClosed nodes db') batches
  unfolding for_each
  for_each-Closed [] db db' h e =
      let w : db ≡ db' = cc in ((λ k v p. subst (λ t. get codec k t ≡ some v) w p), tt)
  for_each-Closed (nodes ∷ batches) db db' (h, hs) e =
      let (mid, p, r) =
        >>=-eq-ok (add_dummy_nodes_for_orphan_hashes codec nodes db)
          (for_each codec (add_dummy_nodes_for_orphan_hashes codec) batches) e in
      let (stays, closed) = add_dummy_nodes-Closed nodes db mid h p in
      let (stays', later) =
        for_each-Closed batches mid db'
          (All-weaken (λ ns. AllStored ns db) (λ ns. AllStored ns mid)
            (λ ns s. AllStored-keep ns db mid (Stored-Stays db mid stays) s) batches hs)
          r in
      ((λ k v q. stays' k v (stays k v q)), (AllClosed-Stays nodes mid db' stays' closed, later))
