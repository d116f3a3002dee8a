-- ===== src/Rpc/Polling.antt =====
-- crates/snip36-core/src/rpc.rs: the two loops that poll until a deadline. The clock and the node
-- are read once in each round: `now i` is the time at the start of round i, `net i` the node then, `start` the time before the loop.
use snip36_prover_web.Common.{
  ℕ, zero, suc, ◌+◌, String, Option, none, some, Bool, true, false, ◌&&◌, ◌||◌, ltb, leb, ◌==◌,
  string_eq, if◌then◌else◌, Result, ok, err,
}
use snip36_prover_web.Common.Json.{Json, get, as_str}
use snip36_prover_web.Rpc.Client.{
  RpcError, Transport, tx_timeout, tx_rejected, block_timeout, get_receipt, block_number,
}

abbrev pub text_or : Option Json → String → String
text_or none d = d
text_or (some v) d = elim (as_str v) [ none ↦ d | some s ↦ s ]

-- `execution_status`: none where the field is missing or not a string.
abbrev pub text_field : Option Json → Option String
text_field none = none
text_field (some v) = as_str v

abbrev pub is : Option String → String → Bool
is none s = false
is (some t) s = t == s

abbrev pub is_none : Option String → Bool
is_none none = true
is_none (some t) = false

abbrev pub has : Option Json → Bool
has none = false
has (some v) = true

unfoldable pub is_failed : Json → Bool
is_failed receipt =
    text_or (get "finality_status" receipt) "" == "REJECTED"
    || is (text_field (get "execution_status" receipt)) "REVERTED"

unfoldable pub is_accepted : Json → Bool
is_accepted receipt =
    (text_or (get "finality_status" receipt) "" == "ACCEPTED_ON_L2"
      || text_or (get "finality_status" receipt) "" == "ACCEPTED_ON_L1")
    && has (get "block_number" receipt)
    && (is_none (text_field (get "execution_status" receipt))
        || is (text_field (get "execution_status" receipt)) "SUCCEEDED")

-- What a receipt decides; `none` is to go on waiting.
unfoldable pub settle_receipt : Result RpcError Json → Option (Result RpcError Json)
unfolding is_failed is_accepted
settle_receipt (err e) = none
settle_receipt (ok receipt) =
    if is_failed receipt
    then some (err (tx_rejected receipt))
    else if is_accepted receipt
    then some (ok receipt)
    else none

unfoldable pub settle_block : ℕ → Result RpcError ℕ → Option (Result RpcError ℕ)
settle_block after (err e) = none
settle_block after (ok current) = if ltb after current then some (ok current) else none

-- The loop from round `i` on; `none` is that the fuel ran out.
module _ {A : Type 0} (now : ℕ → ℕ) (deadline : ℕ) (expired : A) (poll : ℕ → Option A) where
  abbrev go_on : Option A → Option A → Option A
  go_on none rest = rest
  go_on (some a) rest = some a

  unfoldable pub poll_from : ℕ → ℕ → Option A
  poll_from zero i = none
  poll_from (suc fuel) i =
      let rest = poll_from fuel (suc i) in
      if leb deadline (now i) then some expired else go_on (poll i) rest

module _ (start : ℕ) (now : ℕ → ℕ) (net : ℕ → Transport) (fuel : ℕ) where
  unfoldable pub wait_for_tx : String → ℕ → Option (Result RpcError Json)
  unfolding poll_from settle_receipt
  wait_for_tx tx_hash timeout_secs =
      poll_from now (start + timeout_secs) (err (tx_timeout tx_hash timeout_secs))
        (λ i. settle_receipt (get_receipt (net i) tx_hash)) fuel 0

  unfoldable pub wait_for_block_after : ℕ → ℕ → Option (Result RpcError ℕ)
  unfolding poll_from settle_block
  wait_for_block_after number timeout_secs =
      poll_from now (start + timeout_secs) (err (block_timeout number timeout_secs))
        (λ i. settle_block number (block_number (net i))) fuel 0
