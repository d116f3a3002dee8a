-- ===== src/Provider/Sorting.antt =====
-- What the sorting of `prepare_query` keeps: the contracts, their number, and what holds of all.
use snip36_prover_web.Common.{
  ℕ, suc, Bool, true, false, ◌≡◌, ◌≢◌, ◌≤◌, refl, sym, ◌∙◌, List, [], ◌∷◌, leb, nat_beq,
  if◌then◌else◌, nat_eq, arith, Bool-cases, inl, inr, All, All-weaken,
}
use snip36_prover_web.Proofs.Types.{Felt}
use snip36_prover_web.Provider.Prepare.{insert_sorted, sort}

-- How often an address stands in a list.
abbrev pub count : Felt → List Felt → ℕ
count a [] = 0
count a (b ∷ xs) = let rest = count a xs in if nat_beq b a then suc rest else rest

abbrev pub Apart : Felt → List Felt → Type 0
Apart a = All (λ b. b ≢ a)

abbrev pub IsNodup : List Felt → Type 0
IsNodup [] = Unit
IsNodup (a ∷ xs) = Apart a xs × IsNodup xs

none_of : (a : Felt) (xs : List Felt) → Apart a xs → count a xs ≡ 0
none_of a [] h = refl
none_of a (x ∷ xs) (p, h) = ground (arith, none_of a xs h)

-- Each address of a list without repetition stands in it once.
pub count-IsNodup : (xs : List Felt) → IsNodup xs → All (λ a. count a xs ≡ 1) xs
count-IsNodup [] h = tt
count-IsNodup (x ∷ xs) (p, h) = (ground (arith, none_of x xs p), later xs p (count-IsNodup xs h))
  where
    later :
        (ys : List Felt)
        → Apart x ys
        → All (λ a. count a xs ≡ 1) ys
        → All (λ a. count a (x ∷ xs) ≡ 1) ys
    later [] q k = tt
    later (y ∷ ys) (q, k) (e, l) = (ground (arith, e, q), later ys k l)

abbrev pub IsSorted : List Felt → Type 0
IsSorted [] = Unit
IsSorted (a ∷ xs) = All (λ b. a ≤ b) xs × IsSorted xs

Apart-insert_sorted :
    (a b : Felt) (xs : List Felt) → b ≢ a → Apart a xs → Apart a (insert_sorted b xs)
unfolding insert_sorted
Apart-insert_sorted a b [] h k = (h, tt)
Apart-insert_sorted a b (x ∷ xs) h (p, k) = ground (arith, Apart-insert_sorted a b xs h k)

Apart-sort : (a : Felt) (xs : List Felt) → Apart a xs → Apart a (sort xs)
unfolding sort
Apart-sort a [] h = tt
Apart-sort a (x ∷ xs) (p, h) = Apart-insert_sorted a x (sort xs) p (Apart-sort a xs h)

IsNodup-insert_sorted :
    (a : Felt) (xs : List Felt) → Apart a xs → IsNodup xs → IsNodup (insert_sorted a xs)
unfolding insert_sorted
IsNodup-insert_sorted a [] h k = (tt, tt)
IsNodup-insert_sorted a (x ∷ xs) (p, h) (q, k) =
    ground (arith, IsNodup-insert_sorted a xs h k, Apart-insert_sorted x a xs (λ e. p (sym e)) q)

pub IsNodup-sort : (xs : List Felt) → IsNodup xs → IsNodup (sort xs)
unfolding sort
IsNodup-sort [] h = tt
IsNodup-sort (a ∷ xs) (p, h) =
    IsNodup-insert_sorted a (sort xs) (Apart-sort a xs p) (IsNodup-sort xs h)

below-insert_sorted :
    (a b : Felt) (xs : List Felt)
    → a ≤ b
    → All (λ c. a ≤ c) xs
    → All (λ c. a ≤ c) (insert_sorted b xs)
unfolding insert_sorted
below-insert_sorted a b [] h k = (h, tt)
below-insert_sorted a b (x ∷ xs) h (p, k) = ground (arith, below-insert_sorted a b xs h k)

below_trans : (a b : Felt) (xs : List Felt) → a ≤ b → All (λ c. b ≤ c) xs → All (λ c. a ≤ c) xs
below_trans a b xs h k = All-weaken (λ c. b ≤ c) (λ c. a ≤ c) (λ c p. omega arith) xs k

IsSorted-insert_sorted : (a : Felt) (xs : List Felt) → IsSorted xs → IsSorted (insert_sorted a xs)
unfolding insert_sorted
IsSorted-insert_sorted a [] h = (tt, tt)
IsSorted-insert_sorted a (x ∷ xs) (q, k) = elim (Bool-cases (leb a x)) [
  | inl le ↦ rw le ((ground arith, below_trans a x xs (ground arith) q), (q, k))
  | inr gt ↦ rw gt (below-insert_sorted x a xs (ground arith) q, IsSorted-insert_sorted a xs k)
]

pub IsSorted-sort : (xs : List Felt) → IsSorted (sort xs)
unfolding sort
IsSorted-sort [] = tt
IsSorted-sort (a ∷ xs) = IsSorted-insert_sorted a (sort xs) (IsSorted-sort xs)

count-insert_sorted :
    (a b : Felt) (xs : List Felt) → count a (insert_sorted b xs) ≡ count a (b ∷ xs)
unfolding insert_sorted
count-insert_sorted a b [] = refl
count-insert_sorted a b (x ∷ xs) = elim (Bool-cases (leb b x)) [
  | inl le ↦ rw le refl
  | inr gt ↦ rw gt (rw (count-insert_sorted a b xs) (swapped (nat_beq x a) (nat_beq b a)))
]
  where
    swapped :
        (p q : Bool)
        → (if p
            then suc (if q then suc (count a xs) else count a xs)
            else if q
            then suc (count a xs)
            else count a xs)
          ≡ (if q
              then suc (if p then suc (count a xs) else count a xs)
              else if p
              then suc (count a xs)
              else count a xs)
    swapped true true = refl
    swapped true false = refl
    swapped false true = refl
    swapped false false = refl

pub count-sort : (a : Felt) (xs : List Felt) → count a (sort xs) ≡ count a xs
unfolding sort
count-sort a [] = refl
count-sort a (x ∷ xs) = count-insert_sorted a x (sort xs) ∙ rw (count-sort a xs) refl

-- What holds of all addresses holds of all sorted ones, and the other way.
module _ (P : Felt → Type 0) where
  All-insert_sorted : (b : Felt) (xs : List Felt) → P b → All P xs → All P (insert_sorted b xs)
  unfolding insert_sorted
  All-insert_sorted b [] h k = (h, tt)
  All-insert_sorted b (x ∷ xs) h (p, k) = elim (Bool-cases (leb b x)) [
    | inl le ↦ rw le (h, (p, k))
    | inr gt ↦ rw gt (p, All-insert_sorted b xs h k)
  ]

  pub All-sort : (xs : List Felt) → All P xs → All P (sort xs)
  unfolding sort
  All-sort [] h = tt
  All-sort (x ∷ xs) (p, h) = All-insert_sorted x (sort xs) p (All-sort xs h)

  insert_sorted-All : (b : Felt) (xs : List Felt) → All P (insert_sorted b xs) → P b × All P xs
  unfolding insert_sorted
  insert_sorted-All b [] h = h
  insert_sorted-All b (x ∷ xs) h = elim (Bool-cases (leb b x)) [
    | inl le ↦ rw le at h
    | inr gt ↦
        let (p, k) : P x × All P (insert_sorted b xs) = rw gt at h in
        let (q, rest) = insert_sorted-All b xs k in (q, (p, rest))
  ]

  pub sort-All : (xs : List Felt) → All P (sort xs) → All P xs
  unfolding sort
  sort-All [] h = tt
  sort-All (x ∷ xs) h = let (p, k) = insert_sorted-All x (sort xs) h in (p, sort-All xs k)
