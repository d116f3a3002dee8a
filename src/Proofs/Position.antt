-- ===== src/Proofs/Position.antt =====
-- Where the merge keeps the nodes of a contract: the index of its entry in the original query.
use snip36_prover_web.Common.{
  ℕ, suc, ◌+◌, ◌≡◌, ◌≢◌, refl, sym, ap, ◌∙◌, subst, ◌⊎◌, inl, inr, some, List, [], ◌∷◌, map, nat_eq,
  nat_beq, nat_beq_iff, if◌then◌else◌, false, Bool-cases, arith,
}
use snip36_prover_web.Common.Assoc.{Assoc, lookup, insert, extend, lookup-insert}
use snip36_prover_web.Proofs.Types.{Felt, ContractStorageKeys, Nodes}
use snip36_prover_web.Proofs.Merge.{index_from, extend_at}

-- The entry's address is that of one of the contracts.
abbrev pub Listed : Felt → List ContractStorageKeys → Type 0
Listed a [] = ⊥
Listed a (c ∷ cs) = (c.contract_address ≡ a) ⊎ Listed a cs

abbrev pub NotListed : Felt → List ContractStorageKeys → Type 0
NotListed a [] = Unit
NotListed a (c ∷ cs) = (c.contract_address ≢ a) × NotListed a cs

-- No two entries have one address: `prepare_query` makes one entry for each address of a set.
abbrev pub HasDistinctAddresses : List ContractStorageKeys → Type 0
HasDistinctAddresses [] = Unit
HasDistinctAddresses (c ∷ cs) = NotListed c.contract_address cs × HasDistinctAddresses cs

pub Listed-tail :
    (a : Felt) (c : ContractStorageKeys) (cs : List ContractStorageKeys)
    → Listed a (c ∷ cs)
    → nat_beq c.contract_address a ≡ false
    → Listed a cs
Listed-tail a c cs (inl p) o = absurd (ground arith)
Listed-tail a c cs (inr l) o = l

unfoldable pub position : Felt → List ContractStorageKeys → ℕ
position a [] = 0
position a (c ∷ cs) = if nat_beq c.contract_address a then 0 else suc (position a cs)

lookup-index_from_fresh :
    (a : Felt) (i : ℕ) (cs : List ContractStorageKeys) (m : Assoc Felt ℕ)
    → NotListed a cs
    → lookup a (index_from i cs m) ≡ lookup a m
unfolding index_from
lookup-index_from_fresh a i [] m h = refl
lookup-index_from_fresh a i (c ∷ cs) m (h, hs) =
    lookup-index_from_fresh a (suc i) cs (insert c.contract_address i m) hs
    ∙ ground (arith, lookup-insert c.contract_address a i m)

pub lookup-index_from :
    (a : Felt) (i : ℕ) (cs : List ContractStorageKeys) (m : Assoc Felt ℕ)
    → HasDistinctAddresses cs
    → Listed a cs
    → lookup a (index_from i cs m) ≡ some (i + position a cs)
unfolding index_from position
lookup-index_from a i [] m d l = elim l [ ]
lookup-index_from a i (c ∷ cs) m (f, d) l = elim (Bool-cases (nat_beq c.contract_address a)) [
  | inl same ↦
      let p : c.contract_address ≡ a = (nat_beq_iff c.contract_address a).0 same in
      lookup-index_from_fresh a (suc i) cs (insert c.contract_address i m)
        (subst (λ t. NotListed t cs) p f)
      ∙ ground (arith, lookup-insert c.contract_address a i m)
  | inr other ↦
      lookup-index_from a (suc i) cs (insert c.contract_address i m) d (Listed-tail a c cs l other)
      ∙ ground arith
]

-- Writing at the position of an address changes the entry with that address alone.
abbrev pub extended : Felt → Nodes → (ContractStorageKeys → Nodes) → ContractStorageKeys → Nodes
extended a n f c = if nat_beq c.contract_address a then extend (f c) n else f c

extended-other :
    (a : Felt) (n : Nodes) (f : ContractStorageKeys → Nodes) (cs : List ContractStorageKeys)
    → NotListed a cs
    → map (extended a n f) cs ≡ map f cs
extended-other a n f [] h = refl
extended-other a n f (c ∷ cs) (h, hs) =
    let o : nat_beq c.contract_address a ≡ false = ground arith in
    rw o (ap (◌∷◌ (f c)) (extended-other a n f cs hs))

pub extend_at-position :
    (a : Felt) (n : Nodes) (f : ContractStorageKeys → Nodes) (cs : List ContractStorageKeys)
    → HasDistinctAddresses cs
    → Listed a cs
    → extend_at (position a cs) n (map f cs) ≡ map (extended a n f) cs
unfolding extend_at position
extend_at-position a n f [] d l = elim l [ ]
extend_at-position a n f (c ∷ cs) (f', d) l = elim (Bool-cases (nat_beq c.contract_address a)) [
  | inl same ↦
      let p : c.contract_address ≡ a = (nat_beq_iff c.contract_address a).0 same in
      rw same (
        ap (◌∷◌ (extend (f c) n))
          (sym (extended-other a n f cs (subst (λ t. NotListed t cs) p f'))))
  | inr other ↦
      rw other (ap (◌∷◌ (f c)) (extend_at-position a n f cs d (Listed-tail a c cs l other)))
]
