-- ===== src/Server/Submitting.antt =====
-- crates/snip36-server/src/routes/coinflip.rs: how the loop over the attempts ends.
use snip36_prover_web.Common.{
  ℕ, zero, suc, ◌+◌, ◌≤◌, ◌<◌, String, Bool, true, false, ◌&&◌, ltb, Option, none, some, Result, ok,
  err, ◌≡◌, refl, sym, ap, ◌∙◌, ◌⊎◌, inl, inr, arith, Bool-cases, nat_beq, nat_beq_iff, subst,
}
use snip36_prover_web.Common.Json.{Json}
use snip36_prover_web.Server.Task.{Ran}
use snip36_prover_web.Server.Flip.{is_received, is_not_ready, attempted, submit_from, submit}

abbrev pub Gateway : Type 0
Gateway = ℕ → Result String (Result String Json)

-- The attempt is answered that the block is not known yet.
abbrev pub Waits : Gateway → ℕ → Type 0
Waits gateway j =
    (body : Json) × (gateway j ≡ ok (ok body))
    × (is_received body ≡ false)
    × (is_not_ready body ≡ true)

-- The attempt is answered that the transaction is received.
abbrev is_ok_received : Result String (Result String Json) → Bool
is_ok_received (err e) = false
is_ok_received (ok (err e)) = false
is_ok_received (ok (ok body)) = is_received body

-- The last of the 20 attempts, or one that does not wait.
abbrev pub IsLast : Gateway → ℕ → Type 0
IsLast gateway n = (n ≡ 20) ⊎ ¬ Waits gateway n

abbrev pub is_accepting : Gateway → ℕ → Bool
is_accepting gateway n = is_ok_received (gateway n)

module _ (gateway : Gateway) where
  -- From `attempt` on, the loop waits up to the attempt `n`, which ends it with this value.
  abbrev pub EndsIn : ℕ → ℕ → Option Bool → Type 0
  EndsIn attempt n v =
      ((j : ℕ) → attempt ≤ j → j < n → Waits gateway j)
      × IsLast gateway n
      × (((v ≡ some true) × (is_accepting gateway n ≡ true))
          ⊎ ((v ≡ none) × (is_accepting gateway n ≡ false)))

  abbrev Outcome : ℕ → Option Bool → Type 0
  Outcome attempt v = (n : ℕ) × (attempt ≤ n) × (n ≤ 20) × EndsIn attempt n v

  true_not_false : {A : Type 0} → true ≡ false → A
  true_not_false h = cc

  one_more :
      (attempt n : ℕ)
      → Waits gateway attempt
      → ((j : ℕ) → suc attempt ≤ j → j < n → Waits gateway j)
      → (j : ℕ) → attempt ≤ j
      → j < n
      → Waits gateway j
  one_more attempt n first rest j le lt = elim (Bool-cases (nat_beq attempt j)) [
    | inl same ↦ subst (Waits gateway) ((nat_beq_iff attempt j).0 same) first
    | inr other ↦ rest j (ground (arith, nat_beq_iff attempt j)) lt
  ]

  -- An attempt with another answer does not wait.
  no_body :
      (n : ℕ) (r : Result String (Result String Json))
      → gateway n ≡ r
      → ((body : Json) → r ≡ ok (ok body) → is_received body ≡ false → is_not_ready body ≡ true → ⊥)
      → IsLast gateway n
  no_body n r g other = inr (λ (body, e, refused, again). other body (sym g ∙ e) refused again)

  body_of :
      {x y : Json} → ◌≡◌ {A = Result String (Result String Json)} (ok (ok x)) (ok (ok y)) → x ≡ y
  body_of h = cc

  -- The arms of one round, where the rest of the loop has an outcome if there is another round.
  round :
      (attempt : ℕ) (r : Result String (Result String Json)) (rest : Ran Bool)
      → attempt ≤ 20
      → gateway attempt ≡ r
      → (attempt < 20 → Outcome (suc attempt) rest.value)
      → Outcome attempt (attempted attempt r rest).value
  round attempt (err e) rest le g next = (
    attempt,
    omega arith,
    le,
    (
      (λ j a b. absurd (omega arith)),
      no_body attempt _ g (λ body h a b. cc),
      inr (refl, rw g refl),
    ),
  )
  round attempt (ok (err e)) rest le g next = (
    attempt,
    omega arith,
    le,
    (
      (λ j a b. absurd (omega arith)),
      no_body attempt _ g (λ body h a b. cc),
      inr (refl, rw g refl),
    ),
  )
  round attempt (ok (ok body)) rest le g next = elim (Bool-cases (is_received body)) [
    | inl taken ↦ rw taken (
      attempt,
      omega arith,
      le,
      (
        (λ j a b. absurd (omega arith)),
        no_body attempt _ g
            (λ found h a b. true_not_false (sym taken ∙ ap is_received (body_of h) ∙ a)),
        inl (refl, rw g taken),
      ),
    )
    | inr refused ↦ elim (Bool-cases (is_not_ready body && ltb attempt 20)) [
      | inl again ↦
          let (n, from, to, (waits, final, last)) = next (ground arith) in
          rw (refused, again)
            (
              n,
              omega (arith, from),
              to,
              (one_more attempt n (body, g, refused, ground arith) waits, final, last),
            )
      | inr over ↦
          rw (refused, over)
            (
              attempt,
              omega arith,
              le,
              (
                (λ j a b. absurd (omega arith)),
                elim (Bool-cases (is_not_ready body)) [
                  | inl waiting ↦ inl (ground arith)
                  | inr ready ↦ no_body attempt _ g (λ found h a b.
                      true_not_false (sym b ∙ ap is_not_ready (sym (body_of h)) ∙ ready))
                ],
                inr (refl, rw g refused),
              ),
            )
    ]
  ]

  submit_from_lem :
      (left attempt : ℕ)
      → attempt + left ≡ 20
      → Outcome attempt (submit_from gateway (suc left) attempt).value
  unfolding submit_from
  submit_from_lem zero attempt e =
      round attempt (gateway attempt) (submit_from gateway zero (suc attempt)) (omega (arith, e))
        refl (λ lt. absurd (omega (arith, e, lt)))
  submit_from_lem (suc left) attempt e =
      round attempt (gateway attempt) (submit_from gateway (suc left) (suc attempt))
        (omega (arith, e)) refl (λ lt. submit_from_lem left (suc attempt) (omega (arith, e)))

  -- Submitting a payload ends in one of at most 20 attempts: every attempt before it is answered
  -- that the block is not known yet, it is itself the 20th or is not answered so, and the
  -- submission succeeds exactly if that attempt is answered that the transaction is received.
  pub submit_lem :
      (n : ℕ) × (1 ≤ n)
      × (n ≤ 20)
      × ((j : ℕ) → 1 ≤ j → j < n → Waits gateway j)
      × IsLast gateway n
      × ((((submit gateway).value ≡ some tt) × (is_accepting gateway n ≡ true))
          ⊎ (((submit gateway).value ≡ none) × (is_accepting gateway n ≡ false)))
  unfolding submit
  submit_lem =
      let (n, from, to, (waits, final, last)) = submit_from_lem 19 1 refl in
      (
        n,
        from,
        to,
        waits,
        final,
        elim last [ inl (v, a) ↦ inl (rw v refl, a) | inr (v, a) ↦ inr (rw v refl, a) ],
      )
