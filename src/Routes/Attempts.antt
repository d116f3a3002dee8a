-- ===== src/Routes/Attempts.antt =====
-- crates/snip36-server/src/routes/prove_block.rs: how the loop over the attempts ends.
use snip36_prover_web.Common.{
  ℕ, zero, suc, ◌+◌, ◌≤◌, ◌<◌, String, ltb, Option, none, some, Result, ok, err, ok_or, ◌≡◌, refl,
  ◌⊎◌, sym, ◌∙◌, inl, inr, arith, Bool-cases, nat_beq, nat_beq_iff, subst,
}
use snip36_prover_web.Common.Json.{Json}
use snip36_prover_web.Rpc.Client.{RpcError, json_rpc}
use snip36_prover_web.Server.State.{AppState}
use snip36_prover_web.Server.Coinflip.{ErrorResponse, text}
use snip36_prover_web.Routes.Program.{Program, done, fail, stop, access, emit, ◌>>=◌, or_stop, run}
use snip36_prover_web.Routes.Landing.{attempted, submit_from, submit}

-- The value of a run, without that of the state.
abbrev pub value_at : {A : Type 0} → AppState → Program A → Option (Result ErrorResponse A)
value_at s p = (run p s).value

abbrev pub Node : Type 0
Node = ℕ → Result RpcError String

-- The attempt is answered with a JSON-RPC error.
abbrev pub IsRetried : Node → ℕ → Type 0
IsRetried node j = (msg : Json) × (node j ≡ err (json_rpc msg))

-- The last of the 20 attempts, or one that is not retried.
abbrev pub IsLast : Node → ℕ → Type 0
IsLast node n = (n ≡ 20) ⊎ ¬ IsRetried node n

module _ (s : AppState) (to_string : Json → String) (node : Node) where
  -- From `attempt` on, the loop goes on up to the attempt `n`, which ends it with this value.
  abbrev EndsAt : ℕ → ℕ → Option (Result ErrorResponse (Option String)) → Type 0
  EndsAt attempt n v =
      ((j : ℕ) → attempt ≤ j → j < n → IsRetried node j)
      × IsLast node n
      × (((hash : String) × (node n ≡ ok hash) × (v ≡ some (ok (some hash))))
          ⊎ ((e : RpcError) × (node n ≡ err e) × (v ≡ none)))

  abbrev Ends : ℕ → Option (Result ErrorResponse (Option String)) → Type 0
  Ends attempt v = (n : ℕ) × (attempt ≤ n) × (n ≤ 20) × EndsAt attempt n v

  one_more :
      (attempt n : ℕ)
      → IsRetried node attempt
      → ((j : ℕ) → suc attempt ≤ j → j < n → IsRetried node j)
      → (j : ℕ) → attempt ≤ j
      → j < n
      → IsRetried node j
  one_more attempt n first rest j le lt = elim (Bool-cases (nat_beq attempt j)) [
    | inl same ↦ subst (IsRetried node) ((nat_beq_iff attempt j).0 same) first
    | inr other ↦ rest j (ground (arith, nat_beq_iff attempt j)) lt
  ]

  -- The loop ends here, without a hash.
  last_attempt :
      (attempt : ℕ) (e : RpcError) (v : Option (Result ErrorResponse (Option String)))
      → attempt ≤ 20
      → node attempt ≡ err e
      → IsLast node attempt
      → v ≡ none
      → Ends attempt v
  last_attempt attempt e v le g final h =
      (attempt, omega arith, le, ((λ j a b. absurd (omega (arith, a, b))), final, inr (e, g, h)))

  -- An attempt with another answer is not retried.
  no_retry :
      (n : ℕ) (r : Result RpcError String)
      → node n ≡ r
      → ((msg : Json) → r ≡ err (json_rpc msg) → ⊥)
      → IsLast node n
  no_retry n r g other = inr (λ (msg, e). other msg (sym g ∙ e))

  round :
      (attempt : ℕ) (r : Result RpcError String) (rest : Program (Option String))
      → attempt ≤ 20
      → node attempt ≡ r
      → (attempt < 20 → Ends (suc attempt) (value_at s rest))
      → Ends attempt (value_at s (attempted to_string attempt r rest))
  round attempt (ok hash) rest le g next = (
    attempt,
    omega arith,
    le,
    (
      (λ j a b. absurd (omega (arith, a, b))),
      no_retry attempt _ g (λ msg h. cc),
      inl (hash, g, refl),
    ),
  )
  round attempt (err (RpcError.http e)) rest le g next =
      last_attempt attempt _ _ le g (no_retry attempt _ g (λ msg h. cc)) refl
  round attempt (err (RpcError.unexpected t e)) rest le g next =
      last_attempt attempt _ _ le g (no_retry attempt _ g (λ msg h. cc)) refl
  round attempt (err (RpcError.tx_timeout t n)) rest le g next =
      last_attempt attempt _ _ le g (no_retry attempt _ g (λ msg h. cc)) refl
  round attempt (err (RpcError.tx_rejected e)) rest le g next =
      last_attempt attempt _ _ le g (no_retry attempt _ g (λ msg h. cc)) refl
  round attempt (err (RpcError.block_timeout a b)) rest le g next =
      last_attempt attempt _ _ le g (no_retry attempt _ g (λ msg h. cc)) refl
  round attempt (err (json_rpc msg)) rest le g next = elim (Bool-cases (ltb attempt 20)) [
    | inl again ↦
        let (n, from, to, (retried, final, last)) = next (ground arith) in
        rw (again, value_at)
          (n, omega (arith, from), to, (one_more attempt n (msg, g) retried, final, last))
    | inr over ↦
        rw (over, value_at)
          (last_attempt attempt (json_rpc msg) none le g (inl (ground arith)) refl)
  ]

  submit_from_lem :
      (left attempt : ℕ)
      → attempt + left ≡ 20
      → Ends attempt (value_at s (submit_from to_string node (suc left) attempt))
  unfolding submit_from
  submit_from_lem zero attempt e =
      round attempt (node attempt) (submit_from to_string node zero (suc attempt))
        (omega (arith, e)) refl (λ lt. absurd (omega (arith, e, lt)))
  submit_from_lem (suc left) attempt e =
      round attempt (node attempt) (submit_from to_string node (suc left) (suc attempt))
        (omega (arith, e)) refl (λ lt. submit_from_lem left (suc attempt) (omega (arith, e)))

-- What a program gives, the next one starts from.
pub run-bind_ok :
    {A B : Type 0} (p : Program A) (next : A → Program B) (s : AppState) (a : A)
    → value_at s p ≡ some (ok a)
    → value_at s (p >>= next) ≡ value_at (run p s).state (next a)
run-bind_ok (done b) next s a h = let e : b ≡ a = cc h in rw e refl
run-bind_ok (fail e) next s a h = absurd (cc h)
run-bind_ok stop next s a h = absurd (cc h)
run-bind_ok (access write f) next s a h = run-bind_ok (f s) next (write s) a h
run-bind_ok (emit e rest) next s a h = run-bind_ok rest next s a h

pub run-bind_none :
    {A B : Type 0} (p : Program A) (next : A → Program B) (s : AppState)
    → value_at s p ≡ none
    → value_at s (p >>= next) ≡ none
run-bind_none (done b) next s h = absurd (cc h)
run-bind_none (fail e) next s h = absurd (cc h)
run-bind_none stop next s h = refl
run-bind_none (access write f) next s h = run-bind_none (f s) next (write s) h
run-bind_none (emit e rest) next s h = run-bind_none rest next s h

module _ (s : AppState) (to_string : Json → String) (node : Node) where
  -- The submission loop of prove_block ends in one of at most 20 attempts: every attempt before it
  -- is answered with a JSON-RPC error, it is itself the 20th or is not answered so, and the loop
  -- gives the hash if that attempt is accepted and stops with an error otherwise.
  pub submit_ends :
      (n : ℕ) × (1 ≤ n)
      × (n ≤ 20)
      × ((j : ℕ) → 1 ≤ j → j < n → IsRetried node j)
      × IsLast node n
      × (((hash : String) × (node n ≡ ok hash)
            × ((run (submit to_string node) s).value ≡ some (ok hash)))
          ⊎ ((e : RpcError) × (node n ≡ err e) × ((run (submit to_string node) s).value ≡ none)))
  unfolding submit or_stop
  submit_ends =
      let (n, from, to, (retried, final, last)) = submit_from_lem s to_string node 19 1 refl in
      let p = submit_from to_string node 20 1 in
      let next = λ (hash : Option String).
        or_stop (ok_or hash "RPC did not accept after all retries") text in
      (
        n,
        from,
        to,
        retried,
        final,
        elim last [
          | inl (hash, g, v) ↦ inl (hash, g, run-bind_ok p next s (some hash) v)
          | inr (e, g, v) ↦ inr (e, g, run-bind_none p next s v)
        ],
      )
