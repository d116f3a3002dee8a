-- ===== src/Routes/ProveBlock.antt =====
-- crates/snip36-server/src/routes/prove_block.rs: the first two phases of the task.
use snip36_prover_web.Common.{
  ℕ, ◌*◌, ◌%◌, ◌^◌, String, Bool, not, ◌||◌, Option, none, some, List, [], ◌∷◌, ◌++◌, Result,
  traverse, concat, replicate, ◌==◌, string_eq, if◌then◌else◌, map_err,
}
use snip36_prover_web.Common.Text.{◌+++◌, decimal, hex}
use snip36_prover_web.Common.Json.{Json, number, obj}
use snip36_prover_web.Proofs.Types.{Felt}
use snip36_prover_web.Core.Config.{chain_id_felt}
use snip36_prover_web.Signing.Types.{default_bounds}
use snip36_prover_web.Signing.Crates.{Crates}
use snip36_prover_web.Signing.TxHash.{compute_invoke_v3_tx_hash}
use snip36_prover_web.Signing.Payload.{
  felt_from_hex, sign, sign_error_text, signature_hex, invoke_fields,
}
use snip36_prover_web.Rpc.Client.{get_nonce_at_block}
use snip36_prover_web.Server.Coinflip.{text, rpc}
use snip36_prover_web.Server.Task.{phase, log}
use snip36_prover_web.Server.Run.{Constructed}
use snip36_prover_web.Routes.Program.{Program, done, ◌>>=◌, ◌>>◌, send, stop_with, or_stop}
use snip36_prover_web.Routes.World.{World}
use snip36_prover_web.Routes.Fund.{strk_token}
use snip36_prover_web.Routes.Invoke.{increment_selector}
use snip36_prover_web.Routes.Submit.{config_error_text}
use snip36_prover_web.Routes.Prove.{send_lines}
use snip36_prover_web.Routes.Binary.{Surroundings, find_snip36_bin}

-- The files of the task, the prover's process (its start, with the lines that it prints and
-- whether it succeeds), and the crates that read felts and print and read JSON.
pub record Workshop : Type 0 where
  pub surroundings : Surroundings
  pub create_dir_all : String → Result String (Unit {0})
  pub write : String → Json → Result String (Unit {0})
  pub spawn : String → List String → Result String (List String × Bool)
  pub file_size : String → ℕ
  pub read_to_string : String → Result String String
  pub with_extension : String → String → String
  pub from_bytes_be : List ℕ → Felt
  pub parse_proof_facts_json : String → Result String (List String)
  pub to_string : Json → String

pub record ProveBlockQuery : Type 0 where
  pub increment_amount : ℕ
  pub increments_per_block : ℕ

-- What the handler gives to the task.
pub record ProveBlock : Type 0 where
  pub session_id : String
  pub contract_address : String
  pub reference_block : ℕ
  pub query : ProveBlockQuery

-- The product of the two, which wraps around in an optimized build.
abbrev pub expected_increment : ProveBlockQuery → ℕ
expected_increment q = q.increment_amount * q.increments_per_block % 2 ^ 64

-- The calls of `increment`.
abbrev pub calldata_strs : String → ProveBlockQuery → List String
unfolding hex
calldata_strs contract_address q =
    hex q.increments_per_block
    ∷ concat (
        replicate q.increments_per_block
          (contract_address ∷ increment_selector ∷ "0x1" ∷ hex q.increment_amount ∷ []))

module _ (c : Crates) (w : World) (k : Workshop) (b : ProveBlock) where
  abbrev pub output_dir : String
  output_dir = k.surroundings.join w.config.output_dir "playground"

  abbrev pub tx_path : String
  tx_path = k.surroundings.join output_dir (b.session_id +++ "_tx.json")

  abbrev pub proof_path : String
  proof_path = k.surroundings.join output_dir (b.session_id +++ ".proof")

  abbrev pub or_stop_text : {A : Type 0} → String → Result String A → Program A
  or_stop_text t r = or_stop r (λ e. text (t +++ e))

  -- Phase 1: construct the transaction, sign it, and write it for the prover.
  unfoldable pub construct : Program Constructed
  unfolding hex decimal felt_from_hex chain_id_felt get_nonce_at_block compute_invoke_v3_tx_hash
      default_bounds sign invoke_fields
  construct = do
    send (
        log (
          "Starting SNIP-36 cycle: "
          +++ decimal b.query.increments_per_block
          +++ " calls x increment("
          +++ decimal b.query.increment_amount
          +++ ") = +"
          +++ decimal (expected_increment b.query)
          +++ " per block"))
    send (phase "constructing")
    let strs = calldata_strs b.contract_address b.query
    calldata ← or_stop_text "Failed to parse calldata: " (traverse (felt_from_hex c) strs)
    sender ← or_stop_text "Invalid account address: " (felt_from_hex c w.config.account_address)
    private_key ← or_stop_text "Invalid private key: " (felt_from_hex c w.config.private_key)
    chain_id ←
        or_stop_text "Invalid chain_id: "
          (map_err config_error_text (chain_id_felt k.from_bytes_be w.config))
    nonce ←
        or_stop
          (get_nonce_at_block (w.network.net 0) w.config.account_address
            (obj (("block_number", number b.reference_block) ∷ [])))
          (rpc ("Failed to get nonce at block " +++ decimal b.reference_block +++ ": "))
    let nonce_felt = c.felt_from nonce
    sig ←
        or_stop
          (sign c private_key (
            compute_invoke_v3_tx_hash c sender calldata chain_id nonce_felt 0 default_bounds [] [] 0
              0 []))
          (λ e. text ("Signing failed: " +++ sign_error_text e))
    or_stop_text "Failed to create output dir: " (k.create_dir_all output_dir)
    or_stop_text "Failed to write tx JSON: " (
        k.write tx_path (
          obj (
            invoke_fields w.config.account_address strs (hex nonce) default_bounds
              (signature_hex c sig))))
    send (
        log (
          "Transaction constructed (nonce: "
          +++ decimal nonce
          +++ ", ref block: "
          +++ decimal b.reference_block
          +++ ")"))
    done (record {
      sender = sender;
      private_key = private_key;
      calldata = calldata;
      chain_id = chain_id;
      nonce = nonce_felt;
    })

  abbrev pub prover_url_args : Option String → List String
  prover_url_args none = []
  prover_url_args (some url) = if url == "" then [] else "--prover-url" ∷ url ∷ []

  abbrev pub prove_args : List String
  prove_args =
      ("prove"
        ∷ "virtual-os"
        ∷ "--block-number"
        ∷ decimal b.reference_block
        ∷ "--tx-json"
        ∷ tx_path
        ∷ "--rpc-url"
        ∷ w.config.rpc_url
        ∷ "--output"
        ∷ proof_path
        ∷ "--strk-fee-token"
        ∷ strk_token
        ∷ [])
      ++ prover_url_args (k.surroundings.var "PROVER_URL")

  abbrev pub messages_file : String
  messages_file = k.with_extension proof_path "raw_messages.json"

  -- Phase 2: run the prover; the value is the proof's size.
  unfoldable pub prove : Program ℕ
  unfolding decimal find_snip36_bin
  prove = do
    send (phase "proving")
    send (log ("Proving against block " +++ decimal b.reference_block +++ "..."))
    finished ←
        or_stop_text ("Failed to spawn prover (" +++ find_snip36_bin k.surroundings +++ "): ")
          (k.spawn (find_snip36_bin k.surroundings) prove_args)
    send_lines finished.0
    (if not finished.1 || not (k.surroundings.exists proof_path)
        then stop_with (text "Proof generation failed")
        else done tt)
    send (log ("Proof generated (" +++ decimal (k.file_size proof_path) +++ " bytes)"))
    (if k.surroundings.exists messages_file
        then send (log ("L2→L1 messages saved: " +++ messages_file))
        else done tt)
    done (k.file_size proof_path)
