-- ===== src/Examples/Serving.antt =====
-- A node that confirms a transaction in its third round, and a bet that is committed and revealed.
use snip36_prover_web.Common.{
  ℕ, zero, suc, ◌+◌, ◌*◌, ◌≤◌, ◌<◌, String, ◌≡◌, ◌≢◌, refl, ap, ◌⊎◌, some, List, [], ◌∷◌, leb,
  if◌then◌else◌, Result, ok, err, arith, string_eq,
}
use Prim.Native.String.{len}
use snip36_prover_web.Common.Json.{Json, str, number, obj, get, find_field}
use snip36_prover_web.Common.Assoc.{lookup}
use snip36_prover_web.Proofs.Types.{Felt}
use snip36_prover_web.Signing.Crates.{Crates}
use snip36_prover_web.Signing.Payload.{felt_from_hex}
use snip36_prover_web.Rpc.Client.{
  RpcError, Transport, tx_timeout, block_timeout, get_receipt, block_number, call, read_response,
}
use snip36_prover_web.Rpc.Polling.{
  wait_for_tx, wait_for_block_after, settle_receipt, is_failed, is_accepted, poll_from,
}
use snip36_prover_web.Rpc.Waiting.{
  Sleeps, EndsAt, IsBelow, wait_for_tx_lem, wait_for_block_after_lem,
}
use snip36_prover_web.Rpc.Receipts.{wait_for_tx-ok}
use snip36_prover_web.Examples.Signing.{residues}
use snip36_prover_web.Server.State.{AppState, BetCommitment}
use snip36_prover_web.Server.Coinflip.{Reveal, PlayQuery, play_coinflip, verify_reveal}
use snip36_prover_web.Server.Betting.{
  Request, commit, play, starts, commits, pending, starts-le-commits,
}
use snip36_prover_web.Server.Revealing.{
  Opens, PedersenCollision, play_coinflip-Opens, reveal-binding,
}

-- The time in seconds, with rounds of three seconds.
abbrev clock : ℕ → ℕ
clock i = 1000 + 3 * i

clock-Sleeps : Sleeps clock
clock-Sleeps i = omega arith

abbrev receipt : Json
receipt = obj (
    ("finality_status", str "ACCEPTED_ON_L2")
    ∷ ("execution_status", str "SUCCEEDED")
    ∷ ("block_number", number 7)
    ∷ [])

abbrev node : ℕ → Transport
node i payload = if leb 2 i then ok (obj (("result", receipt) ∷ [])) else err "connection refused"

wait_for_tx_lem_example :
    (n : ℕ) × (r : Result RpcError Json) × (wait_for_tx 1000 clock node 121 "0x1" 120 ≡ some r)
    × EndsAt clock 1120
        (err (tx_timeout "0x1" 120))
        (λ i. settle_receipt (get_receipt (node i) "0x1"))
        0
        n
        r
wait_for_tx_lem_example = wait_for_tx_lem 1000 clock node clock-Sleeps (omega arith) "0x1" 120

wait_for_block_after_lem_example :
    (n : ℕ) × (r : Result RpcError ℕ) × (wait_for_block_after 1000 clock node 121 6 120 ≡ some r)
    × ((j : ℕ) → j < n → (clock j < 1120) × IsBelow 6 (block_number (node j)))
    × (((1120 ≤ clock n) × (r ≡ err (block_timeout 6 120)))
        ⊎ ((clock n < 1120) × ((m : ℕ) × (block_number (node n) ≡ ok m) × (6 < m) × (r ≡ ok m))))
wait_for_block_after_lem_example =
    wait_for_block_after_lem 1000 clock node clock-Sleeps (omega arith) 6 120

confirmed : wait_for_tx 1000 clock node 121 "0x1" 120 ≡ some (ok receipt)
unfolding wait_for_tx poll_from settle_receipt get_receipt call read_response find_field is_failed
    is_accepted
confirmed = refl

wait_for_tx-ok_example :
    (i : ℕ) × (get_receipt (node i) "0x1" ≡ ok receipt)
    × ((get "finality_status" receipt ≡ some (str "ACCEPTED_ON_L2"))
        ⊎ (get "finality_status" receipt ≡ some (str "ACCEPTED_ON_L1")))
    × ((block : Json) × (get "block_number" receipt ≡ some block))
    × ((get "execution_status" receipt ≡ some (str "SUCCEEDED"))
        ⊎ ((s : String) → get "execution_status" receipt ≢ some (str s)))
wait_for_tx-ok_example = wait_for_tx-ok 1000 clock node 121 "0x1" 120 receipt confirmed

-- Felts that are shown in unary, with a hash that keeps the bet in its lowest bit.
unfoldable unary : ℕ → String
unary zero = String.[]
unary (suc n) = String.◌∷◌ "x" (unary n)

unary_injective : (a b : ℕ) → unary a ≡ unary b → a ≡ b
unfolding unary
unary_injective zero zero h = refl
unary_injective zero (suc b) h = cc
unary_injective (suc a) zero h = cc
unary_injective (suc a) (suc b) h = ap suc (unary_injective a b cc)

abbrev counting : Crates
counting = record residues { felt_from = λ n. n; felt_hex = unary; from_hex = λ s. ok (len s) }

abbrev pedersen : Felt → Felt → Felt
pedersen a n = a + 2 * n

-- The commitment is to the bet 1 with the nonce 2.
abbrev bet : BetCommitment
bet = record { commitment = "xxxxx"; seed_block = 41; player = "0xa" }

abbrev deployed : AppState
deployed = record {
  sessions = [];
  coinflip = some (record { contract_address = "0xc"; class_hash = "0xd"; deploy_block = 1 });
  commitments = ("s1", bet) ∷ [];
}

abbrev query : PlayQuery
query = record { player = "0xa"; bet = 9; nonce = "xx" }

abbrev reveal : Reveal
reveal = record {
  deployment = record { contract_address = "0xc"; class_hash = "0xd"; deploy_block = 1 };
  session_id = "s1";
  player = "0xa";
  bet = 1;
  seed_block = 41;
}

revealed : (play_coinflip counting pedersen "s1" query deployed).1 ≡ ok reveal
unfolding play_coinflip verify_reveal felt_from_hex lookup unary
revealed = refl

found : lookup "s1" deployed.commitments ≡ some bet
unfolding lookup
found = refl

play_coinflip-Opens_example :
    (b : BetCommitment) × (lookup "s1" deployed.commitments ≡ some b)
    × Opens counting pedersen b reveal
play_coinflip-Opens_example =
    play_coinflip-Opens counting pedersen "s1" query deployed reveal revealed

reveal-binding_example : (reveal.bet ≡ reveal.bet) ⊎ PedersenCollision pedersen
reveal-binding_example =
    reveal-binding counting pedersen unary_injective (λ m n hm hn e. e) "s1" "s1" query query
      deployed deployed bet found found reveal reveal revealed revealed

abbrev requests : List Request
requests =
    play "s1" query ∷ commit "s1" (ok 50) "xxxxx" "0xa" ∷ play "s1" query ∷ play "s1" query ∷ []

starts-le-commits_example :
    starts counting pedersen "s1" requests deployed ≤ commits "s1" requests + pending "s1" deployed
starts-le-commits_example = starts-le-commits counting pedersen "s1" requests deployed
