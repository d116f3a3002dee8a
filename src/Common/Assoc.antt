-- ===== src/Common/Assoc.antt =====
-- Maps as association lists. `insert` is `IndexMap::insert`: a key that is there keeps its place
-- and takes the new value, a new key goes to the end. `HashMap` and `DashMap` are used through the
-- same functions; nothing that is proved of them depends on the order of their entries.
use mathlib.Core.Path.{◌≡◌, refl, sym, ap, subst, ◌∙◌}
use mathlib.Core.Logic.{◌≢◌, inl, inr}
use mathlib.Core.Option.{Option, none, some}
use mathlib.Core.List.{List, [], ◌∷◌}
use native.Mathlib.Omega.{arith}
use package.snip36_prover_web.Common.Tests.{Eq, ◌==◌, if◌then◌else◌, Bool-cases}

abbrev pub Assoc {ℓ} : Type ℓ → Type ℓ → Type ℓ
Assoc K V = List (K × V)

module _ {ℓ} {K V : Type ℓ} ⦃e : Eq K⦄ where
  unfoldable pub lookup : K → Assoc K V → Option V
  lookup k [] = none
  lookup k ((key, value) ∷ rest) = if key == k then some value else lookup k rest

  unfoldable pub insert : K → V → Assoc K V → Assoc K V
  insert k v [] = (k, v) ∷ []
  insert k v ((key, old) ∷ rest) = if key == k then (k, v) ∷ rest else (key, old) ∷ insert k v rest

  unfoldable pub remove : K → Assoc K V → Assoc K V
  remove k [] = []
  remove k ((j, v) ∷ m) = let rest = remove k m in if j == k then rest else (j, v) ∷ rest

  -- `m.extend(n)`
  unfoldable pub extend : Assoc K V → Assoc K V → Assoc K V
  extend m [] = m
  extend m ((k, v) ∷ n) = extend (insert k v m) n

  pub lookup-insert :
      (k other : K) (v : V) (m : Assoc K V)
      → lookup other (insert k v m) ≡ (if k == other then some v else lookup other m)
  unfolding lookup insert
  lookup-insert k other v [] = refl
  lookup-insert k other v ((i, w) ∷ m) =
      ground (arith, e.beq_iff i other, e.beq_iff i k, e.beq_iff k other, lookup-insert k other v m)

  pub lookup-remove :
      (k j : K) (m : Assoc K V) → lookup j (remove k m) ≡ (if k == j then none else lookup j m)
  unfolding lookup remove
  lookup-remove k j [] = ground arith
  lookup-remove k j ((i, w) ∷ m) =
      ground (arith, e.beq_iff k j, e.beq_iff i k, e.beq_iff i j, lookup-remove k j m)

  -- A key keeps its place, so writing another key before or after makes no difference.
  insert_comm :
      (k j : K) (v w u : V) (m : Assoc K V)
      → j ≢ k
      → lookup k m ≡ some u
      → insert k v (insert j w m) ≡ insert j w (insert k v m)
  unfolding lookup insert
  insert_comm k j v w u [] h p = ground arith
  insert_comm k j v w u ((i, x) ∷ m) h p =
      ground (
        arith,
        e.beq_iff i k,
        e.beq_iff i j,
        e.beq_iff j k,
        e.beq_iff k j,
        insert_comm k j v w u m h,
      )

  insert_twice : (k : K) (v w : V) (m : Assoc K V) → insert k v (insert k w m) ≡ insert k v m
  unfolding insert
  insert_twice k v w [] = ground (arith, e.beq_iff k k)
  insert_twice k v w ((i, x) ∷ m) =
      ground (arith, e.beq_iff i k, e.beq_iff k k, insert_twice k v w m)

-- `Fresh k m`: no entry of `m` has the key `k`. `IsKeyed m`: no key twice, as in any map.
module _ {ℓ} {K V : Type ℓ} where
  abbrev pub Fresh : K → Assoc K V → Type ℓ
  Fresh k [] = Unit
  Fresh k ((j, v) ∷ m) = (j ≢ k) × Fresh k m

  abbrev pub IsKeyed : Assoc K V → Type ℓ
  IsKeyed [] = Unit
  IsKeyed ((k, v) ∷ m) = Fresh k m × IsKeyed m

module _ {ℓ} {K V : Type ℓ} ⦃e : Eq K⦄ where
  Fresh-insert : (k j : K) (v : V) (m : Assoc K V) → j ≢ k → Fresh k m → Fresh k (insert j v m)
  unfolding insert
  Fresh-insert k j v [] h f = (h, tt)
  Fresh-insert k j v ((i, w) ∷ m) h f = ground (arith, e.beq_iff i j, Fresh-insert k j v m h)

  pub IsKeyed-insert : (k : K) (v : V) (m : Assoc K V) → IsKeyed m → IsKeyed (insert k v m)
  unfolding insert
  IsKeyed-insert k v [] h = (tt, tt)
  IsKeyed-insert k v ((i, w) ∷ m) (f, h) = elim (Bool-cases (i == k)) [
    | inl same ↦ rw same (subst (λ t. Fresh t m) ((e.beq_iff i k).0 same) f, h)
    | inr other ↦
        let apart : k ≢ i = ground (arith, e.beq_iff i k) in
        rw other (Fresh-insert i k v m apart f, IsKeyed-insert k v m h)
  ]

  pub IsKeyed-extend : (m n : Assoc K V) → IsKeyed m → IsKeyed (extend m n)
  unfolding extend
  IsKeyed-extend m [] h = h
  IsKeyed-extend m ((k, v) ∷ n) h = IsKeyed-extend (insert k v m) n (IsKeyed-insert k v m h)

  insert-extend_of_Fresh :
      (k : K) (v u : V) (m n : Assoc K V)
      → Fresh k n
      → lookup k m ≡ some u
      → insert k v (extend m n) ≡ extend (insert k v m) n
  unfolding extend
  insert-extend_of_Fresh k v u m [] f p = refl
  insert-extend_of_Fresh k v u m ((j, w) ∷ n) (h, f) p =
      insert-extend_of_Fresh k v u (insert j w m) n f
        (ground (arith, lookup-insert j k w m, e.beq_iff j k))
      ∙ ap (λ t. extend t n) (insert_comm k j v w u m h p)

  pub extend-insert :
      (k : K) (v : V) (m n : Assoc K V)
      → IsKeyed n
      → extend m (insert k v n) ≡ insert k v (extend m n)
  unfolding extend insert
  extend-insert k v m [] h = refl
  extend-insert k v m ((j, w) ∷ n) (f, h) = elim (Bool-cases (j == k)) [
    | inl same ↦
        let q : j ≡ k = (e.beq_iff j k).0 same in
        rw same (
          rw q (
            ap (λ t. extend t n) (sym (insert_twice k v w m))
            ∙ sym (
                insert-extend_of_Fresh k v w (insert k w m) n (rw q at f)
                  (lookup-insert k k w m ∙ rw ((e.beq_iff k k).1 refl) refl))))
    | inr other ↦ rw other (extend-insert k v (insert j w m) n h)
  ]

  -- Extending by one map after another is extending by their union.
  pub extend_assoc : (m n l : Assoc K V) → IsKeyed n → extend m (extend n l) ≡ extend (extend m n) l
  unfolding extend
  extend_assoc m n [] h = refl
  extend_assoc m n ((k, v) ∷ l) h =
      extend_assoc m (insert k v n) l (IsKeyed-insert k v n h)
      ∙ ap (λ t. extend t l) (extend-insert k v m n h)

  pub lookup-extend_of_Fresh :
      (k : K) (m n : Assoc K V) → Fresh k n → lookup k (extend m n) ≡ lookup k m
  unfolding extend
  lookup-extend_of_Fresh k m [] f = refl
  lookup-extend_of_Fresh k m ((j, w) ∷ n) (h, f) =
      lookup-extend_of_Fresh k (insert j w m) n f
      ∙ ground (arith, lookup-insert j k w m, e.beq_iff j k)

  -- What the second map has is what the union has.
  pub lookup-extend :
      (k : K) (v : V) (m n : Assoc K V)
      → IsKeyed n
      → lookup k n ≡ some v
      → lookup k (extend m n) ≡ some v
  unfolding extend lookup
  lookup-extend k v m [] h p = cc
  lookup-extend k v m ((j, w) ∷ n) (f, h) p = elim (Bool-cases (j == k)) [
    | inl same ↦
        let q : j ≡ k = (e.beq_iff j k).0 same in
        let r : some w ≡ some v = rw same at p in
        lookup-extend_of_Fresh k (insert j w m) n (subst (λ t. Fresh t n) q f)
        ∙ lookup-insert j k w m
        ∙ rw same r
    | inr other ↦ lookup-extend k v (insert j w m) n h (rw other at p)
  ]
