-- ===== src/Committer/Closure.antt =====
-- The facts that the committer traverses: no node of a proof is lost, and every child that a node
-- of a proof names can be read.
use snip36_prover_web.Common.{
  ◌≡◌, ◌∙◌, true, some, [], ◌∷◌, nat_beq, nat_beq_iff, subst, Option-cases, All, arith, Bool-cases,
  inl, inr, nat_eq,
}
use snip36_prover_web.Common.Assoc.{lookup}
use snip36_prover_web.Proofs.Types.{Felt, MerkleNode, binary_node, edge_node, Nodes}
use snip36_prover_web.Committer.Codec.{Codec}
use snip36_prover_web.Committer.Facts.{
  Db, get, or_insert, has_preimage, add_dummy_node_for_orphan_child, add_dummies_of_node,
  add_dummies_from,
}
use snip36_prover_web.Committer.Leaves.{get-put}

-- The batch agrees with one node for each hash: a hash determines its node.
abbrev pub Agrees : (Felt → MerkleNode) → Nodes → Type 0
Agrees node_of = All (λ p. p.1 ≡ node_of p.0)

pub lookup-All :
    (P : Felt → Type 0) (nodes : Nodes) (c : Felt) (n : MerkleNode)
    → All (λ p. P p.0) nodes
    → lookup c nodes ≡ some n
    → P c
unfolding lookup
lookup-All P [] c n h e = cc
lookup-All P ((k, m) ∷ nodes) c n (p, h) e = elim (Bool-cases (nat_beq k c)) [
  | inl same ↦ subst P ((nat_beq_iff k c).0 same) p
  | inr other ↦ lookup-All P nodes c n h (ground arith)
]

module _ (codec : Codec) where
  open codec use {Key, Value, inner_key, serialize_node}

  -- The database has a fact for the hash.
  abbrev pub Present : Felt → Db codec → Type 0
  Present h db = (v : Value) × (get codec (inner_key h) db ≡ some v)

  abbrev pub ChildrenPresent : MerkleNode → Db codec → Type 0
  ChildrenPresent (binary_node left right) db = Present left db × Present right db
  ChildrenPresent (edge_node path len child) db = Present child db

  -- A dummy is written only where there is nothing.
  get-or_insert :
      (k j : Key) (v w : Value) (db : Db codec)
      → get codec j db ≡ some w
      → get codec j (or_insert codec k v db) ≡ some w
  get-or_insert k j v w db h = elim (Option-cases (get codec k db)) [
    | inl absent ↦
        rw (absent, or_insert) (get-put codec k j v db ∙ ground (arith, codec.key_eq.beq_iff k j))
    | inr (old, found) ↦ rw (found, or_insert) h
  ]

  get-or_insert_self :
      (k : Key) (v : Value) (db : Db codec)
      → (w : Value) × (get codec k (or_insert codec k v db) ≡ some w)
  get-or_insert_self k v db = elim (Option-cases (get codec k db)) [
    | inl absent ↦ (
      v,
      rw (absent, or_insert) (get-put codec k k v db ∙ ground (arith, codec.key_eq.beq_iff k k)),
    )
    | inr (old, found) ↦ (old, rw (found, or_insert) found)
  ]

  module _ (nodes : Nodes) (dummy : Value) where
    get-add_dummy :
        (c : Felt) (j : Key) (w : Value) (db : Db codec)
        → get codec j db ≡ some w
        → get codec j (add_dummy_node_for_orphan_child codec c nodes dummy db) ≡ some w
    unfolding add_dummy_node_for_orphan_child
    get-add_dummy c j w db h = elim (Bool-cases (has_preimage codec c nodes)) [
      | inl known ↦ rw known h
      | inr orphan ↦ rw orphan (get-or_insert (inner_key c) j dummy w db h)
    ]

    Present-add_dummy :
        (c : Felt) (db : Db codec)
        → (has_preimage codec c nodes ≡ true → Present c db)
        → Present c (add_dummy_node_for_orphan_child codec c nodes dummy db)
    unfolding add_dummy_node_for_orphan_child
    Present-add_dummy c db full = elim (Bool-cases (has_preimage codec c nodes)) [
      | inl known ↦ rw known (full known)
      | inr orphan ↦ rw orphan (get-or_insert_self (inner_key c) dummy db)
    ]

    get-add_dummies_of_node :
        (n : MerkleNode) (j : Key) (w : Value) (db : Db codec)
        → get codec j db ≡ some w
        → get codec j (add_dummies_of_node codec n nodes dummy db) ≡ some w
    unfolding add_dummies_of_node
    get-add_dummies_of_node (binary_node l r) j w db h =
        get-add_dummy r j w _ (get-add_dummy l j w db h)
    get-add_dummies_of_node (edge_node p n c) j w db h = get-add_dummy c j w db h

    -- Every hash of the batch has a fact.
    abbrev pub IsFull : Db codec → Type 0
    IsFull db = (c : Felt) → has_preimage codec c nodes ≡ true → Present c db

    ChildrenPresent-add_dummies :
        (n : MerkleNode) (db : Db codec)
        → IsFull db
        → ChildrenPresent n (add_dummies_of_node codec n nodes dummy db)
    unfolding add_dummies_of_node
    ChildrenPresent-add_dummies (binary_node l r) db full =
        let (v, p) = Present-add_dummy l db (full l) in
        (
          (v, get-add_dummy r (inner_key l) v _ p),
          Present-add_dummy r _
              (λ k. let (w, q) = full r k in (w, get-add_dummy l (inner_key r) w db q)),
        )
    ChildrenPresent-add_dummies (edge_node p n c) db full = Present-add_dummy c db (full c)

    pub get-add_dummies_from :
        (ns : Nodes) (j : Key) (w : Value) (db : Db codec)
        → get codec j db ≡ some w
        → get codec j (add_dummies_from codec ns nodes dummy db) ≡ some w
    unfolding add_dummies_from
    get-add_dummies_from [] j w db h = h
    get-add_dummies_from ((k, n) ∷ ns) j w db h =
        get-add_dummies_from ns j w _ (get-add_dummies_of_node n j w db h)

    pub ChildrenPresent-keep :
        (n : MerkleNode) (db db' : Db codec)
        → ((c : Felt) → Present c db → Present c db')
        → ChildrenPresent n db
        → ChildrenPresent n db'
    ChildrenPresent-keep (binary_node l r) db db' grows (p, q) = (grows l p, grows r q)
    ChildrenPresent-keep (edge_node p n c) db db' grows h = grows c h

    pub add_dummies_from-closed :
        (ns : Nodes) (db : Db codec)
        → IsFull db
        → All (λ p. ChildrenPresent p.1 (add_dummies_from codec ns nodes dummy db)) ns
    unfolding add_dummies_from
    add_dummies_from-closed [] db full = tt
    add_dummies_from-closed ((k, n) ∷ ns) db full = (
      ChildrenPresent-keep n (add_dummies_of_node codec n nodes dummy db) _
          (λ c (v, p). (v, get-add_dummies_from ns (inner_key c) v _ p))
          (ChildrenPresent-add_dummies n db full),
      add_dummies_from-closed ns (add_dummies_of_node codec n nodes dummy db) (λ c known.
          let (v, p) = full c known in (v, get-add_dummies_of_node n (inner_key c) v db p)),
    )
