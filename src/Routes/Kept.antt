-- ===== src/Routes/Kept.antt =====
-- The updates of the handlers keep a session consistent.
use snip36_prover_web.Common.{ℕ, String, Option, none, some, ok, ok_or, ◌≡◌, refl}
use snip36_prover_web.Server.State.{Session}
use snip36_prover_web.Routes.Fund.{with_account, with_counter}
use snip36_prover_web.Routes.Invoke.{with_invoke_tx, with_invoke_block}
use snip36_prover_web.Routes.Prove.{with_prove_block, with_proof_file}
use snip36_prover_web.Routes.Landing.{with_reference_block}
use snip36_prover_web.Routes.Sessions.{Has, IsConsistent, Keeps}

-- A value that is there.
pub ok_or-Has : {A E : Type 0} (o : Option A) (e : E) {a : A} → ok_or o e ≡ ok a → Has o
ok_or-Has none e h = cc
ok_or-Has (some b) e h = refl

-- A consistent session that has kept what another had.
abbrev pub Kept : Session → Session → Type 0
Kept a b = IsConsistent b × Keeps a b

module _ (a : Session) (h : IsConsistent a) where
  pub with_account-Kept : (address : String) → Kept a (with_account address a)
  with_account-Kept address = (
    record {
      account = λ x. refl;
      class_of_contract = h.class_of_contract;
      invoked = λ x. ((h.invoked x).0, refl);
      included = h.included;
      proving = h.proving;
      proved = h.proved;
      deployed = h.deployed;
      referenced = h.referenced;
    },
    record { account = λ x. refl; contract = λ x. x; tx = λ x. x; block = λ x. x },
  )

  pub with_counter-Kept :
      (contract_address class_hash : String) (block : Option ℕ)
      → Kept a (with_counter contract_address class_hash block a)
  with_counter-Kept contract_address class_hash block = (
    record {
      account = h.account;
      class_of_contract = λ x. refl;
      invoked = λ x. (refl, (h.invoked x).1);
      included = h.included;
      proving = h.proving;
      proved = h.proved;
      deployed = λ x. refl;
      referenced = λ x. refl;
    },
    record { account = λ x. x; contract = λ x. refl; tx = λ x. x; block = λ x. x },
  )

  pub with_invoke_tx-Kept :
      (tx_hash : String)
      → Has a.contract_address
      → Has a.account_address
      → Kept a (with_invoke_tx tx_hash a)
  with_invoke_tx-Kept tx_hash contract account = (
    record {
      account = h.account;
      class_of_contract = h.class_of_contract;
      invoked = λ x. (contract, account);
      included = λ x. refl;
      proving = λ x. refl;
      proved = h.proved;
      deployed = h.deployed;
      referenced = h.referenced;
    },
    record { account = λ x. x; contract = λ x. x; tx = λ x. refl; block = λ x. x },
  )

  pub with_invoke_block-Kept :
      (block : ℕ) → Has a.last_invoke_tx → Kept a (with_invoke_block block a)
  with_invoke_block-Kept block tx = (
    record {
      account = h.account;
      class_of_contract = h.class_of_contract;
      invoked = h.invoked;
      included = λ x. tx;
      proving = h.proving;
      proved = h.proved;
      deployed = h.deployed;
      referenced = h.referenced;
    },
    record { account = λ x. x; contract = λ x. x; tx = λ x. x; block = λ x. x },
  )

  pub with_prove_block-Kept : (block : ℕ) → Has a.last_invoke_tx → Kept a (with_prove_block block a)
  with_prove_block-Kept block tx = (
    record {
      account = h.account;
      class_of_contract = h.class_of_contract;
      invoked = h.invoked;
      included = h.included;
      proving = λ x. tx;
      proved = λ x. refl;
      deployed = h.deployed;
      referenced = h.referenced;
    },
    record { account = λ x. x; contract = λ x. x; tx = λ x. x; block = λ x. refl },
  )

  pub with_proof_file-Kept : (file : String) → Has a.prove_block → Kept a (with_proof_file file a)
  with_proof_file-Kept file block = (
    record {
      account = h.account;
      class_of_contract = h.class_of_contract;
      invoked = h.invoked;
      included = h.included;
      proving = h.proving;
      proved = λ x. block;
      deployed = h.deployed;
      referenced = h.referenced;
    },
    record { account = λ x. x; contract = λ x. x; tx = λ x. x; block = λ x. x },
  )

  pub with_reference_block-Kept :
      (block : ℕ) → Has a.contract_address → Kept a (with_reference_block block a)
  with_reference_block-Kept block contract = (
    record {
      account = h.account;
      class_of_contract = h.class_of_contract;
      invoked = h.invoked;
      included = h.included;
      proving = h.proving;
      proved = h.proved;
      deployed = h.deployed;
      referenced = λ x. contract;
    },
    record { account = λ x. x; contract = λ x. x; tx = λ x. x; block = λ x. x },
  )
