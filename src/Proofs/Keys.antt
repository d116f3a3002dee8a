-- ===== src/Proofs/Keys.antt =====
-- The keys of one contract among the (contract, key) pairs of a query.
use snip36_prover_web.Common.{
  ◌≡◌, ◌≢◌, refl, sym, ◌∙◌, List, [], ◌∷◌, ◌++◌, append-nil, nat_eq, nat_beq, if◌then◌else◌, All,
  arith,
}
use snip36_prover_web.Proofs.Types.{Felt, ContractStorageKeys}
use snip36_prover_web.Proofs.Items.{storage_pairs, pair_with}
use snip36_prover_web.Proofs.Position.{NotListed, HasDistinctAddresses}

-- The keys of one contract among pairs.
abbrev pub keys_for : Felt → List (Felt × Felt) → List Felt
keys_for a [] = []
keys_for a ((b, k) ∷ ps) = if nat_beq b a then k ∷ keys_for a ps else keys_for a ps

pub keys_for-append :
    (a : Felt) (ps qs : List (Felt × Felt)) → keys_for a (ps ++ qs) ≡ keys_for a ps ++ keys_for a qs
keys_for-append a [] qs = refl
keys_for-append a ((b, k) ∷ ps) qs = ground (arith, keys_for-append a ps qs)

pub keys_for-pair_with : (a : Felt) (ks : List Felt) → keys_for a (pair_with a ks) ≡ ks
keys_for-pair_with a [] = refl
keys_for-pair_with a (k ∷ ks) = ground (arith, keys_for-pair_with a ks)

pub keys_for-pair_with_ne : (a b : Felt) (ks : List Felt) → b ≢ a → keys_for a (pair_with b ks) ≡ []
keys_for-pair_with_ne a b [] h = refl
keys_for-pair_with_ne a b (k ∷ ks) h = ground (arith, keys_for-pair_with_ne a b ks h)

pub keys_for-fresh :
    (a : Felt) (cs : List ContractStorageKeys) → NotListed a cs → keys_for a (storage_pairs cs) ≡ []
keys_for-fresh a [] h = refl
keys_for-fresh a (c ∷ cs) (h, hs) =
    keys_for-append a (pair_with c.contract_address c.storage_keys) (storage_pairs cs)
    ∙ simp (keys_for-pair_with_ne a c.contract_address c.storage_keys h, keys_for-fresh a cs hs)

-- Once all keys of the query are seen, every contract has the proof for its own keys.
keys_for-storage_pairs_cons :
    (c : ContractStorageKeys) (cs ds : List ContractStorageKeys)
    → NotListed c.contract_address ds
    → All (λ d. keys_for d.contract_address (storage_pairs cs) ≡ d.storage_keys) ds
    → All (λ d. keys_for d.contract_address (storage_pairs (c ∷ cs)) ≡ d.storage_keys) ds
keys_for-storage_pairs_cons c cs [] f h = tt
keys_for-storage_pairs_cons c cs (d ∷ ds) (f, fs) (p, h) = (
  keys_for-append d.contract_address (pair_with c.contract_address c.storage_keys)
        (storage_pairs cs)
      ∙ rw
          (keys_for-pair_with_ne d.contract_address c.contract_address c.storage_keys
            (λ e. f (sym e)))
          p,
  keys_for-storage_pairs_cons c cs ds fs h,
)

pub keys_for-storage_pairs :
    (cs : List ContractStorageKeys)
    → HasDistinctAddresses cs
    → All (λ d. keys_for d.contract_address (storage_pairs cs) ≡ d.storage_keys) cs
keys_for-storage_pairs [] d = tt
keys_for-storage_pairs (c ∷ cs) (f, d) = (
  keys_for-append c.contract_address (pair_with c.contract_address c.storage_keys)
        (storage_pairs cs)
      ∙ rw (keys_for-pair_with c.contract_address c.storage_keys)
          (rw (keys_for-fresh c.contract_address cs f) (append-nil _)),
  keys_for-storage_pairs_cons c cs cs f (keys_for-storage_pairs cs d),
)
