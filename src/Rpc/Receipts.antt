-- ===== src/Rpc/Receipts.antt =====
-- crates/snip36-core/src/rpc.rs: what is true of a receipt that waiting returns.
use snip36_prover_web.Common.{
  ℕ, zero, suc, ◌+◌, String, Option, none, some, Bool, true, false, ◌&&◌, ◌||◌, leb, ◌==◌,
  string_eq, Result, ok, err, ◌≡◌, ◌≢◌, refl, sym, ap, ◌∙◌, ◌⊎◌, inl, inr, Bool-cases, Option-cases,
  arith,
}
use snip36_prover_web.Common.Json.{Json, null, bool, number, other_number, str, array, object, get}
use snip36_prover_web.Rpc.Client.{RpcError, Transport, tx_timeout, tx_rejected, get_receipt}
use snip36_prover_web.Rpc.Polling.{
  text_or, text_field, is, is_none, has, poll_from, settle_receipt, is_failed, is_accepted,
  wait_for_tx,
}

-- A round that decides is the last.
module _ {A : Type 0} (now : ℕ → ℕ) (deadline : ℕ) (expired : A) (poll : ℕ → Option A) where
  polled :
      (fuel i : ℕ) (a : A)
      → poll_from now deadline expired poll fuel i ≡ some a
      → (a ≡ expired) ⊎ ((j : ℕ) × (poll j ≡ some a))
  unfolding poll_from
  polled zero i a h = cc
  polled (suc fuel) i a h = elim (Bool-cases (leb deadline (now i))) [
    | inl late ↦ inl (some-injective (rw late at h))
    | inr early ↦ elim (Option-cases (poll i)) [
      | inl nothing ↦ polled fuel (suc i) a (rw (early, nothing) at h)
      | inr (b, decided) ↦ inr (i, decided ∙ rw (early, decided) at h)
    ]
  ]
    where
      some-injective : {B : Type 0} {b d : B} → some b ≡ some d → d ≡ b
      some-injective h = cc

settled :
    (r : Result RpcError Json) (receipt : Json)
    → settle_receipt r ≡ some (ok receipt)
    → (r ≡ ok receipt) × (is_accepted receipt ≡ true)
unfolding settle_receipt
settled (err e) receipt h = cc
settled (ok found) receipt h = elim (Bool-cases (is_failed found)) [
  | inl failed ↦ other (tx_rejected found) (rw failed at h)
  | inr fine ↦ elim (Bool-cases (is_accepted found)) [
    | inl accepted ↦
        let same : found ≡ receipt = ok_same (rw (fine, accepted) at h) in
        (ap ok same, rw⁻¹ same accepted)
    | inr waiting ↦ none_is (rw (fine, waiting) at h)
  ]
]
  where
    ok_same :
        {x y : Json} → ◌≡◌ {A = Option (Result RpcError Json)} (some (ok x)) (some (ok y)) → x ≡ y
    ok_same h = cc

    other :
        {B : Type 0} (e : RpcError) {x : Json}
        → ◌≡◌ {A = Option (Result RpcError Json)} (some (err e)) (some (ok x))
        → B
    other e h = cc

    none_is :
        {B : Type 0} {x : Json} → ◌≡◌ {A = Option (Result RpcError Json)} none (some (ok x)) → B
    none_is h = cc

-- The field holds this text.
abbrev Holds : Option Json → String → Type 0
Holds o s = o ≡ some (str s)

-- A field is a text or has none.
abbrev Reads : Option Json → Type 0
Reads o =
    ((s : String) × Holds o s)
    ⊎ ((text_field o ≡ none) × (text_or o "" ≡ "") × ((s : String) → o ≢ some (str s)))

reads : (o : Option Json) → Reads o
reads none = inr (refl, refl, λ s. λ e. absurd cc)
reads (some null) = inr (refl, refl, λ s. λ e. absurd cc)
reads (some (bool b)) = inr (refl, refl, λ s. λ e. absurd cc)
reads (some (number n)) = inr (refl, refl, λ s. λ e. absurd cc)
reads (some (other_number t)) = inr (refl, refl, λ s. λ e. absurd cc)
reads (some (str s)) = inl (s, refl)
reads (some (array vs)) = inr (refl, refl, λ s. λ e. absurd cc)
reads (some (object fs)) = inr (refl, refl, λ s. λ e. absurd cc)

true_not_false : true ≡ false → ⊥
true_not_false h = cc

text_of :
    (o : Option Json) (s : String) → ("" == s) ≡ false → (text_or o "" == s) ≡ true → Holds o s
text_of o s h k = elim (reads o) [
  | inl (t, e) ↦ e ∙ ap (λ u. some (str u)) ((string_eq.beq_iff t s).0 (rw e at k))
  | inr (_, empty, _) ↦ absurd (true_not_false (sym (rw empty at k) ∙ h))
]

succeeded :
    (o : Option Json)
    → (is_none (text_field o) || is (text_field o) "SUCCEEDED") ≡ true
    → Holds o "SUCCEEDED" ⊎ ((s : String) → o ≢ some (str s))
succeeded o h = elim (reads o) [
  | inl (t, e) ↦ inl (e ∙ ap (λ u. some (str u)) ((string_eq.beq_iff t "SUCCEEDED").0 (rw e at h)))
  | inr (_, _, other) ↦ inr other
]

present : (o : Option Json) → has o ≡ true → (v : Json) × (o ≡ some v)
present none h = absurd cc
present (some v) h = (v, refl)

either : (a b : Bool) → (a || b) ≡ true → (a ≡ true) ⊎ (b ≡ true)
either a b h = ground arith

all_three : (a b c : Bool) → (a && b && c) ≡ true → (a ≡ true) × (b ≡ true) × (c ≡ true)
all_three a b c h = ground arith

accepted_fields :
    (finality block execution : Option Json)
    → ((text_or finality "" == "ACCEPTED_ON_L2" || text_or finality "" == "ACCEPTED_ON_L1")
        && has block
        && (is_none (text_field execution) || is (text_field execution) "SUCCEEDED"))
      ≡ true
    → (Holds finality "ACCEPTED_ON_L2" ⊎ Holds finality "ACCEPTED_ON_L1")
      × ((b : Json) × (block ≡ some b))
      × (Holds execution "SUCCEEDED" ⊎ ((s : String) → execution ≢ some (str s)))
accepted_fields f b e h =
    let (final, included, fine) = all_three _ _ _ h in
    (
      elim (either _ _ final) [
        | inl l2 ↦ inl (text_of f "ACCEPTED_ON_L2" refl l2)
        | inr l1 ↦ inr (text_of f "ACCEPTED_ON_L1" refl l1)
      ],
      present b included,
      succeeded e fine,
    )

-- A receipt that waiting returns was answered by the node, and by its fields it is accepted on L2
-- or L1, has a block number, and its execution status is SUCCEEDED or no text, so that it is not
-- REVERTED.
pub wait_for_tx-ok :
    (start : ℕ) (now : ℕ → ℕ) (net : ℕ → Transport) (fuel : ℕ) (tx_hash : String) (timeout_secs : ℕ)
    (receipt : Json)
    → wait_for_tx start now net fuel tx_hash timeout_secs ≡ some (ok receipt)
    → (i : ℕ) × (get_receipt (net i) tx_hash ≡ ok receipt)
      × ((get "finality_status" receipt ≡ some (str "ACCEPTED_ON_L2"))
          ⊎ (get "finality_status" receipt ≡ some (str "ACCEPTED_ON_L1")))
      × ((block : Json) × (get "block_number" receipt ≡ some block))
      × ((get "execution_status" receipt ≡ some (str "SUCCEEDED"))
          ⊎ ((s : String) → get "execution_status" receipt ≢ some (str s)))
unfolding wait_for_tx is_accepted
wait_for_tx-ok start now net fuel tx_hash timeout_secs receipt h =
    elim (polled now (start + timeout_secs) (err (tx_timeout tx_hash timeout_secs))
      (λ i. settle_receipt (get_receipt (net i) tx_hash)) fuel 0 (ok receipt) h) [
        | inl late ↦ cc
        | inr (j, decided) ↦
            let (found, accepted) = settled (get_receipt (net j) tx_hash) receipt decided in
            let (final, included, fine) =
              accepted_fields (get "finality_status" receipt) (get "block_number" receipt)
                (get "execution_status" receipt) accepted in
            (j, found, final, included, fine)
      ]
