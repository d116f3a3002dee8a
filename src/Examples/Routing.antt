-- ===== src/Examples/Routing.antt =====
-- A node that accepts a transaction and includes it in block 7, and one that refuses it twice.
use snip36_prover_web.Common.{
  ℕ, ◌*◌, ◌≤◌, ◌<◌, leb, String, true, if◌then◌else◌, none, some, [], ◌∷◌, Result, ok, err, ◌≡◌,
  refl, ◌⊎◌, string_eq,
}
use snip36_prover_web.Common.Json.{str, number, obj, find_field}
use snip36_prover_web.Core.Config.{Config}
use snip36_prover_web.Rpc.Client.{RpcError, Transport, get_receipt, json_rpc}
use snip36_prover_web.Rpc.Polling.{wait_for_tx}
use snip36_prover_web.Server.State.{AppState, Session, default_session, new}
use snip36_prover_web.Routes.Program.{run, try, session_of, update_session}
use snip36_prover_web.Routes.World.{World, Regex}
use snip36_prover_web.Routes.Fund.{DeployAccountRequest, deploy_account}
use snip36_prover_web.Routes.Invoke.{InvokeRequest, InvokeResponse, invoke_increment}
use snip36_prover_web.Routes.Prove.{Prover, prove_task, prove_transaction}
use snip36_prover_web.Routes.ProveBlock.{Workshop, ProveBlock}
use snip36_prover_web.Routes.Landing.{submit, prove_block_task}
use snip36_prover_web.Routes.System.{
  System, start, step, arrived, turned, arrive, turn, answered, to_deploy_account,
}
use snip36_prover_web.Routes.Sessions.{session_at, IsConsistent}
use snip36_prover_web.Routes.Consistency.{Reaches-Consistent}
use snip36_prover_web.Routes.Streams.{EndsOnce}
use snip36_prover_web.Routes.Endings.{prove_task-EndsOnce, prove_block_task-EndsOnce}
use snip36_prover_web.Routes.Attempts.{IsRetried, IsLast, submit_ends}
use snip36_prover_web.Routes.Predecessor.{invoke-prove}
use snip36_prover_web.Examples.Signing.{residues}

abbrev config : Config
config = record {
  rpc_url = "http://node";
  account_address = "0x7";
  private_key = "0x3";
  chain_id = "SN_SEPOLIA";
  gateway_url = none;
  project_dir = "/app";
  output_dir = "/app/output";
  deps_dir = "/app/deps";
}

-- What it answers is the hash to a submission, and the receipt to a request for it.
abbrev net : ℕ → Transport
net i payload = ok (
    obj (
      (
        "result",
        obj (
            ("transaction_hash", str "0x51")
            ∷ ("finality_status", str "ACCEPTED_ON_L2")
            ∷ ("execution_status", str "SUCCEEDED")
            ∷ ("block_number", number 7)
            ∷ []),
      )
      ∷ []))

abbrev finds : String → Regex
finds text = record { is_match = λ line. true; find = λ line. some text }

abbrev world : World
world = record {
  config = config;
  sncast_account = "playground-master";
  contracts_dir = "/app/tests/contracts";
  salt = "0x1f";
  sncast = λ dir args. ok (record { stdout = "0xacc"; stderr = ""; status = "0"; success = true });
  regex = λ pattern. some (finds "0xacc");
  network = record { start = 0; now = λ i. 3 * i; net = net };
}

abbrev request : DeployAccountRequest
request = record { session_id = "s1"; public_key = "0x9"; account_address = "0xacc" }

abbrev first : System
first = record { state = new; running = [] }

abbrev asked : System
asked = arrive (answered (deploy_account world request)) first

Reaches-Consistent_example : IsConsistent (session_at (turn 0 asked).state "s1")
Reaches-Consistent_example = Reaches-Consistent (turn 0 asked) "s1" (
    step asked (turn 0 asked)
      (step first asked start
        (arrived (answered (deploy_account world request)) first (to_deploy_account world request)))
      (turned 0 asked))

abbrev prover : Prover
prover = record {
  create_dir_all = λ dir. ok tt;
  join = λ dir name. dir;
  spawn = λ script args. ok ("proving" ∷ []);
  exists = λ path. true;
  file_size = λ path. 900;
}

prove_task-EndsOnce_example : EndsOnce (prove_task world prover "s1" "0x51")
prove_task-EndsOnce_example = prove_task-EndsOnce world prover "s1" "0x51"

abbrev workshop : Workshop
workshop = record {
  surroundings = record {
    var = λ name. none;
    current_exe = none;
    parent = λ path. none;
    join = λ dir name. dir;
    exists = λ path. true;
  };
  create_dir_all = λ dir. ok tt;
  write = λ path json. ok tt;
  spawn = λ program args. ok ("proving" ∷ [], true);
  file_size = λ path. 900;
  read_to_string = λ path. ok "[]";
  with_extension = λ path extension. path;
  from_bytes_be = λ bytes. 5;
  parse_proof_facts_json = λ text. ok [];
  to_string = λ json. "{}";
}

abbrev task : ProveBlock
task = record {
  session_id = "s1";
  contract_address = "0xc";
  reference_block = 40;
  query = record { increment_amount = 2; increments_per_block = 3 };
}

prove_block_task-EndsOnce_example : EndsOnce (prove_block_task residues world workshop task)
prove_block_task-EndsOnce_example = prove_block_task-EndsOnce residues world workshop task

abbrev busy : ℕ → Result RpcError String
busy n = if leb n 2 then err (json_rpc (str "stored block hash: 0")) else ok "0x51"

submit_ends_example :
    (n : ℕ) × (1 ≤ n)
    × (n ≤ 20)
    × ((j : ℕ) → 1 ≤ j → j < n → IsRetried busy j)
    × IsLast busy n
    × (((hash : String) × (busy n ≡ ok hash)
          × ((run (submit (λ json. "{}") busy) new).value ≡ some (ok hash)))
        ⊎ ((e : RpcError) × (busy n ≡ err e)
            × ((run (submit (λ json. "{}") busy) new).value ≡ none)))
submit_ends_example = submit_ends new (λ json. "{}") busy

abbrev session : Session
session = record default_session {
  account_address = some "0xacc";
  account_deployed = true;
  contract_address = some "0xc";
  class_hash = some "0xd";
}

abbrev ready : AppState
ready = record { sessions = ("s1", session) ∷ []; coinflip = none; commitments = [] }

abbrev increment : InvokeRequest
increment = record {
  session_id = "s1";
  amount = 1;
  signature_r = "0x1";
  signature_s = "0x2";
  nonce = 4;
}

abbrev response : InvokeResponse
response = record { tx_hash = "0x51"; block_number = some 7; warning = none }

invoked : (run (invoke_increment world increment) ready).value ≡ some (ok response)
unfolding invoke_increment session_of try find_field update_session wait_for_tx get_receipt
invoked = refl

invoke-prove_example :
    (session_at
      (run
        (prove_transaction world prover "s1")
        (run (invoke_increment world increment) ready).state).state
      "s1").prove_block
    ≡ some 6
unfolding invoke_increment
invoke-prove_example = invoke-prove world world prover increment ready response 7 invoked refl
