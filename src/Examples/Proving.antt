-- ===== src/Examples/Proving.antt =====
-- A world whose transactions are their fee, and a service with one permit.
use snip36_prover_web.Common.{
  ℕ, zero, suc, true, nat_beq, Option, none, some, List, [], ok, err, ◌≡◌,
}
use snip36_prover_web.Proving.Prover.{World, RpcTransaction}
use snip36_prover_web.Proving.Errors.{Code}
use snip36_prover_web.Proving.Capacity.{new, rpc_prove_transaction}
use snip36_prover_web.Proving.Answers.{answered_code, rpc_prove_transaction_lem}

abbrev world : World
world = record {
  BlockId = ℕ;
  is_pending = λ b. nat_beq b 0;
  InvokeV3 = ℕ;
  proof_is_empty = λ t. true;
  proof_facts_is_empty = λ t. true;
  max_possible_fee = λ t. t;
  Pie = ℕ;
  Messages = List ℕ;
  Proof = ℕ;
  ProgramOutput = List ℕ;
  Facts = List ℕ;
  run_virtual_os = λ b t. ok (b, []);
  prove = λ pie. err "out of memory";
  try_into_proof_facts = λ o. ok o;
}

-- A semaphore is its number of free permits.
abbrev try_acquire : ℕ → Option ℕ
try_acquire zero = none
try_acquire (suc n) = some n

rpc_prove_transaction_example :
    answered_code world
      (rpc_prove_transaction world true try_acquire 7 (RpcTransaction.invoke 3) (new (λ n. n) 1))
    ≡ some (Code.plus 1000)
unfolding new
rpc_prove_transaction_example =
    rpc_prove_transaction_lem world true try_acquire 7 (RpcTransaction.invoke 3) (new (λ n. n) 1)
