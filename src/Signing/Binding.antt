-- ===== src/Signing/Binding.antt =====
-- crates/snip36-pure/src/signing.rs: what the hash of a transaction determines.
use snip36_prover_web.Common.{
  ℕ, List, [], ◌∷◌, ◌≡◌, ◌≢◌, refl, ◌⊎◌, inl, inr, ◌^◌, ◌<◌, arith, nat_beq, nat_beq_iff,
  Bool-cases, is_empty, if◌then◌else◌,
}
use snip36_prover_web.Common.Text.{as_bytes}
use snip36_prover_web.Proofs.Types.{Felt}
use snip36_prover_web.Signing.Types.{ResourceBounds}
use snip36_prover_web.Signing.Crates.{Crates, IsField}
use snip36_prover_web.Signing.TxHash.{
  compute_tip_resource_bounds_hash, elements, compute_invoke_v3_tx_hash, resource_name_felt,
}
use snip36_prover_web.Signing.Packing.{FitsBounds, bound-injective, da_mode-injective}

-- Two lists of felts with one hash.
abbrev pub Collision : (List Felt → Felt) → Type 0
Collision h = (xs : List Felt) × (ys : List Felt) × (xs ≢ ys) × (h xs ≡ h ys)

same_list : (xs ys : List Felt) → (xs ≡ ys) ⊎ (xs ≢ ys)
same_list [] [] = inl refl
same_list [] (y ∷ ys) = inr (λ h. cc)
same_list (x ∷ xs) [] = inr (λ h. cc)
same_list (x ∷ xs) (y ∷ ys) = elim (Bool-cases (nat_beq x y)) [
  | inl p ↦ elim (same_list xs ys) [
    | inl q ↦ inl (rw ((nat_beq_iff x y).0 p, q) refl)
    | inr q ↦ inr (λ h. q cc)
  ]
  | inr p ↦ inr (λ h. ground (arith, nat_beq_iff x y))
]

-- Equal hashes are hashes of equal lists, or a collision.
separate : (h : List Felt → Felt) (xs ys : List Felt) → h xs ≡ h ys → (xs ≡ ys) ⊎ Collision h
separate h xs ys p = elim (same_list xs ys) [ inl q ↦ inl q | inr q ↦ inr (xs, ys, q, p) ]

infixr 5 ◌>=>◌
◌>=>◌ : {A B C : Type 0} → A ⊎ C → (A → B ⊎ C) → B ⊎ C
inl a >=> f = f a
inr c >=> f = inr c

-- The arguments of `compute_invoke_v3_tx_hash`.
pub record InvokeFields : Type 0 where
  pub sender_address : Felt
  pub calldata : List Felt
  pub chain_id : Felt
  pub nonce : Felt
  pub tip : Felt
  pub resource_bounds : ResourceBounds
  pub paymaster_data : List Felt
  pub account_deployment_data : List Felt
  pub nonce_da_mode : ℕ
  pub fee_da_mode : ℕ
  pub proof_facts : List Felt

unfoldable pub elements_of : Crates → InvokeFields → List Felt
elements_of c t =
    elements c t.sender_address t.calldata t.chain_id t.nonce t.tip t.resource_bounds
      t.paymaster_data t.account_deployment_data t.nonce_da_mode t.fee_da_mode t.proof_facts

unfoldable pub hash_of : Crates → InvokeFields → Felt
hash_of c t =
    compute_invoke_v3_tx_hash c t.sender_address t.calldata t.chain_id t.nonce t.tip
      t.resource_bounds t.paymaster_data t.account_deployment_data t.nonce_da_mode t.fee_da_mode
      t.proof_facts

-- The machine integers among them are in range.
abbrev pub FitsMachine : InvokeFields → Type 0
FitsMachine t = FitsBounds t.resource_bounds × (t.nonce_da_mode < 2 ^ 32) × (t.fee_da_mode < 2 ^ 32)

l1_name : resource_name_felt "L1_GAS" < 2 ^ 56
unfolding resource_name_felt as_bytes
l1_name = omega arith

l2_name : resource_name_felt "L2_GAS" < 2 ^ 56
unfolding resource_name_felt as_bytes
l2_name = omega arith

data_name : resource_name_felt "L1_DATA" < 2 ^ 56
unfolding resource_name_felt as_bytes
data_name = omega arith

module _ (c : Crates) (f : IsField c) where
  bounds-binding :
      (s t : Felt) (b d : ResourceBounds)
      → FitsBounds b
      → FitsBounds d
      → compute_tip_resource_bounds_hash c s b ≡ compute_tip_resource_bounds_hash c t d
      → ((s ≡ t) × (b ≡ d)) ⊎ Collision c.poseidon_hash_many
  unfolding compute_tip_resource_bounds_hash
  bounds-binding s t b d (b1, b2, b3) (d1, d2, d3) h =
      separate c.poseidon_hash_many _ _ h >=> λ same.
      let e1 = bound-injective c f "L1_GAS" l1_name b.l1_gas d.l1_gas b1 d1 cc in
      let e2 = bound-injective c f "L2_GAS" l2_name b.l2_gas d.l2_gas b2 d2 cc in
      let e3 = bound-injective c f "L1_DATA" data_name b.l1_data_gas d.l1_data_gas b3 d3 cc in
      inl (cc, λ i. record { l1_gas = e1 i; l2_gas = e2 i; l1_data_gas = e3 i })

  facts-binding :
      (xs ys : List Felt)
      → (if is_empty xs then [] else c.poseidon_hash_many xs ∷ [])
        ≡ (if is_empty ys then [] else c.poseidon_hash_many ys ∷ [])
      → (xs ≡ ys) ⊎ Collision c.poseidon_hash_many
  facts-binding [] [] h = inl refl
  facts-binding [] (y ∷ ys) h = cc
  facts-binding (x ∷ xs) [] h = cc
  facts-binding (x ∷ xs) (y ∷ ys) h = separate c.poseidon_hash_many (x ∷ xs) (y ∷ ys) cc

  -- Felts being the integers modulo the prime, and bounds and availability modes being in the
  -- range of their machine types, two transactions with equal hashes have equal fields (proof
  -- facts included), or the two differ and give two different lists of felts with one Poseidon
  -- hash.
  pub tx_hash-binding :
      (t u : InvokeFields)
      → FitsMachine t
      → FitsMachine u
      → hash_of c t ≡ hash_of c u
      → (t ≡ u) ⊎ Collision c.poseidon_hash_many
  unfolding hash_of compute_invoke_v3_tx_hash elements
  tx_hash-binding t u (tb, tn, tf) (ub, un, uf) h = separate c.poseidon_hash_many _ _ h >=> λ same.
      bounds-binding t.tip u.tip t.resource_bounds u.resource_bounds tb ub (cc) >=> λ priced.
      separate c.poseidon_hash_many t.paymaster_data u.paymaster_data (cc) >=> λ paymaster.
      separate c.poseidon_hash_many t.account_deployment_data u.account_deployment_data (cc)
      >=> λ deployment. separate c.poseidon_hash_many t.calldata u.calldata (cc) >=> λ calldata.
          facts-binding t.proof_facts u.proof_facts (cc) >=> λ facts.
          let (nda, fda) =
            da_mode-injective c f t.nonce_da_mode u.nonce_da_mode t.fee_da_mode u.fee_da_mode tn un
              tf uf cc in
          let sender : t.sender_address ≡ u.sender_address = cc in
          let chain : t.chain_id ≡ u.chain_id = cc in
          let nonces : t.nonce ≡ u.nonce = cc in
          inl (λ i. record {
            sender_address = sender i;
            calldata = calldata i;
            chain_id = chain i;
            nonce = nonces i;
            tip = priced.0 i;
            resource_bounds = priced.1 i;
            paymaster_data = paymaster i;
            account_deployment_data = deployment i;
            nonce_da_mode = nda i;
            fee_da_mode = fda i;
            proof_facts = facts i;
          })
