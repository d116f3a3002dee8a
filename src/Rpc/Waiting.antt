-- ===== src/Rpc/Waiting.antt =====
-- crates/snip36-core/src/rpc.rs: when the polling loops end, and with what.
use snip36_prover_web.Common.{
  ℕ, zero, suc, ◌+◌, ◌≤◌, ◌<◌, String, Option, none, some, leb, Result, ok, err, ◌≡◌, refl, ◌⊎◌,
  inl, inr, arith, Bool-cases, nat_beq, nat_beq_iff, Option-cases, ltb,
}
use snip36_prover_web.Common.Json.{Json}
use snip36_prover_web.Rpc.Client.{
  RpcError, Transport, tx_timeout, block_timeout, get_receipt, block_number,
}
use snip36_prover_web.Rpc.Polling.{
  poll_from, settle_receipt, settle_block, wait_for_tx, wait_for_block_after,
}

-- Each round is followed by a sleep of at least one second.
abbrev pub Sleeps : (ℕ → ℕ) → Type 0
Sleeps now = (i : ℕ) → suc (now i) ≤ now (suc i)

module _ {A : Type 0} (now : ℕ → ℕ) (deadline : ℕ) (expired : A) (poll : ℕ → Option A) where
  -- Round `n` ends the loop that begins in round `i`: no round from `i` up to it has decided or
  -- passed the deadline, and it is the first to do so.
  abbrev pub EndsAt : ℕ → ℕ → A → Type 0
  EndsAt i n a =
      ((j : ℕ) → i ≤ j → j < n → (now j < deadline) × (poll j ≡ none))
      × (((deadline ≤ now n) × (a ≡ expired)) ⊎ ((now n < deadline) × (poll n ≡ some a)))

  before_next :
      (i n : ℕ)
      → now i < deadline
      → poll i ≡ none
      → ((j : ℕ) → suc i ≤ j → j < n → (now j < deadline) × (poll j ≡ none))
      → (j : ℕ) → i ≤ j
      → j < n
      → (now j < deadline) × (poll j ≡ none)
  before_next i n early nothing rest j le lt = elim (Bool-cases (nat_beq i j)) [
    | inl same ↦ rw⁻¹ ((nat_beq_iff i j).0 same) (early, nothing)
    | inr other ↦ rest j (ground (arith, nat_beq_iff i j)) lt
  ]

  poll_from_lem :
      Sleeps now
      → (fuel i : ℕ) → 0 < fuel
      → deadline < now i + fuel
      → (n : ℕ) × (a : A) × (i ≤ n)
        × (poll_from now deadline expired poll fuel i ≡ some a)
        × EndsAt i n a
  unfolding poll_from
  poll_from_lem sleeps zero i pos enough = ground arith
  poll_from_lem sleeps (suc fuel) i pos enough = elim (Bool-cases (leb deadline (now i))) [
    | inl late ↦ (
      i,
      expired,
      omega arith,
      rw late refl,
      ((λ j le lt. absurd (omega arith)), inl (ground arith, refl)),
    )
    | inr early ↦
        let before : now i < deadline = ground arith in
        elim (Option-cases (poll i)) [
          | inl nothing ↦
              let (n, a, le, result, (rounds, last)) =
                poll_from_lem sleeps fuel (suc i) (omega (arith, enough, before))
                  (omega (arith, enough, sleeps i)) in
              (
                n,
                a,
                omega (arith, le),
                rw (early, nothing) result,
                (before_next i n before nothing rounds, last),
              )
          | inr (a, decided) ↦ (
            i,
            a,
            omega arith,
            rw (early, decided) refl,
            ((λ j le lt. absurd (omega arith)), inr (before, decided)),
          )
        ]
  ]

-- The node answers no block above the given one.
abbrev pub IsBelow : ℕ → Result RpcError ℕ → Type 0
IsBelow number r = ((e : RpcError) × (r ≡ err e)) ⊎ ((m : ℕ) × (r ≡ ok m) × (m ≤ number))

settle_block-none :
    (number : ℕ) (r : Result RpcError ℕ) → settle_block number r ≡ none → IsBelow number r
unfolding settle_block
settle_block-none number (err e) h = inl (e, refl)
settle_block-none number (ok m) h = elim (Bool-cases (ltb number m)) [
  | inl above ↦ absurd (some_not_none (rw above at h))
  | inr below ↦ inr (m, refl, ground arith)
]
  where
    some_not_none : {A : Type 0} {x : A} → some x ≡ none → ⊥
    some_not_none h = cc

settle_block-some :
    (number : ℕ) (r a : Result RpcError ℕ)
    → settle_block number r ≡ some a
    → (m : ℕ) × (r ≡ ok m) × (number < m) × (a ≡ ok m)
unfolding settle_block
settle_block-some number (err e) a h = absurd cc
settle_block-some number (ok m) a h = elim (Bool-cases (ltb number m)) [
  | inl above ↦ (m, refl, ground arith, same (rw above at h))
  | inr below ↦ absurd (none_not_some (rw below at h))
]
  where
    none_not_some : {A : Type 0} {x : A} → none ≡ some x → ⊥
    none_not_some h = cc

    same : {A : Type 0} {x y : A} → some x ≡ some y → y ≡ x
    same h = cc

module _ (start : ℕ) (now : ℕ → ℕ) (net : ℕ → Transport) (sleeps : Sleeps now)
    (later : start ≤ now 0) where
  -- With a sleep of at least one second after each round, waiting for a transaction ends within
  -- timeout + 1 rounds: with the verdict of the first receipt that decides before the deadline, or
  -- with the timeout error in the first round at or past the deadline, no earlier round having
  -- decided.
  pub wait_for_tx_lem :
      (tx_hash : String) (timeout_secs : ℕ)
      → (n : ℕ) × (r : Result RpcError Json) × (wait_for_tx start now net
            (suc timeout_secs)
            tx_hash
            timeout_secs
          ≡ some r)
        × EndsAt now
            (start + timeout_secs)
            (err (tx_timeout tx_hash timeout_secs))
            (λ i. settle_receipt (get_receipt (net i) tx_hash))
            0
            n
            r
  unfolding wait_for_tx
  wait_for_tx_lem tx_hash timeout_secs =
      let (n, r, le, result, ends) =
        poll_from_lem now (start + timeout_secs) (err (tx_timeout tx_hash timeout_secs))
          (λ i. settle_receipt (get_receipt (net i) tx_hash)) sleeps (suc timeout_secs) 0
          (omega arith) (omega (arith, later)) in
      (n, r, result, ends)

  -- With a sleep of at least one second after each round, waiting for a block ends within timeout
  -- + 1 rounds. In every round before the last the deadline has not passed, and the node fails or
  -- answers a block that is not above the given one. In the last round either the deadline has
  -- passed and the result is the timeout error, or it has not, and the result is the block that
  -- the node answers, which is above the given one.
  pub wait_for_block_after_lem :
      (number timeout_secs : ℕ)
      → (n : ℕ) × (r : Result RpcError ℕ) × (wait_for_block_after start now net
            (suc timeout_secs)
            number
            timeout_secs
          ≡ some r)
        × ((j : ℕ) → j < n → (now j < start + timeout_secs) × IsBelow number (block_number (net j)))
        × (((start + timeout_secs ≤ now n) × (r ≡ err (block_timeout number timeout_secs)))
            ⊎ ((now n < start + timeout_secs)
                × ((m : ℕ) × (block_number (net n) ≡ ok m) × (number < m) × (r ≡ ok m))))
  unfolding wait_for_block_after
  wait_for_block_after_lem number timeout_secs =
      let (n, r, le, result, (rounds, last)) =
        poll_from_lem now (start + timeout_secs) (err (block_timeout number timeout_secs))
          (λ i. settle_block number (block_number (net i))) sleeps (suc timeout_secs) 0
          (omega arith) (omega (arith, later)) in
      (
        n,
        r,
        result,
        (λ j lt.
            let (early, nothing) = rounds j (omega arith) lt in
            (early, settle_block-none number (block_number (net j)) nothing)),
        elim last [
          | inl late ↦ inl late
          | inr (early, found) ↦
              inr (early, settle_block-some number (block_number (net n)) r found)
        ],
      )
