-- ===== src/Routes/Submit.antt =====
-- crates/snip36-server/src/routes/submit.rs.
use snip36_prover_web.Common.{
  ℕ, String, Bool, not, Option, some, List, [], ◌∷◌, Result, map_err, ok_or, reject_if, traverse,
}
use snip36_prover_web.Common.Text.{◌+++◌}
use snip36_prover_web.Common.Lines.{replace, trim}
use snip36_prover_web.Proofs.Types.{Felt}
use snip36_prover_web.Core.Config.{ConfigError, chain_id_felt}
use snip36_prover_web.Signing.Types.{playground, SubmitParams}
use snip36_prover_web.Signing.Crates.{Crates}
use snip36_prover_web.Signing.Payload.{felt_from_hex, sign_error_text, sign_and_build_payload}
use snip36_prover_web.Rpc.Client.{get_nonce, add_invoke_transaction}
use snip36_prover_web.Server.Coinflip.{ErrorResponse, error_response, rpc_response}
use snip36_prover_web.Routes.Program.{Program, done, ◌>>=◌, ◌>>◌, try, session_of}
use snip36_prover_web.Routes.World.{World}
use snip36_prover_web.Routes.Invoke.{increment_selector}

-- The files, and the crates that read a felt of 32 bytes and a JSON array of texts.
pub record Files : Type 0 where
  pub exists : String → Bool
  pub read_to_string : String → Result String String
  pub from_bytes_be : List ℕ → Felt
  pub parse_texts : String → Result String (List String)

pub record SubmitProofResponse : Type 0 where
  pub tx_hash : Option String
  pub local_tx_hash : Option String
  pub output : String

-- The `Display` of `ConfigError`.
abbrev pub config_error_text : ConfigError → String
config_error_text (ConfigError.missing v) = "missing required environment variable: " +++ v
config_error_text (ConfigError.invalid_chain_id t) = "invalid chain_id: " +++ t

module _ (c : Crates) (w : World) (f : Files) where
  abbrev or_500 : {A : Type 0} → String → Result String A → Result ErrorResponse A
  or_500 t r = map_err (λ e. error_response 500 (t +++ e)) r

  -- The parameters of the submission, from the two files and the session's contract.
  unfoldable pub submit_params : String → String → String → Program SubmitParams
  unfolding felt_from_hex chain_id_felt get_nonce playground replace trim
  submit_params proof_file contract_address account_address = do
    proof_text ← try (or_500 "Failed to read proof file: " (f.read_to_string proof_file))
    proof_facts_json ← try (
        or_500 "Failed to read proof_facts file: "
          (f.read_to_string (replace ".proof" ".proof_facts" proof_file)))
    proof_facts_hex ← try (or_500 "Invalid proof_facts JSON: " (f.parse_texts proof_facts_json))
    proof_facts ← try (or_500 "" (traverse (felt_from_hex c) proof_facts_hex))
    contract ← try (or_500 "" (felt_from_hex c contract_address))
    selector ← try (or_500 "" (felt_from_hex c increment_selector))
    sender_address ← try (or_500 "" (felt_from_hex c account_address))
    private_key ← try (or_500 "" (felt_from_hex c w.config.private_key))
    chain_id ← try (
        map_err (λ e. error_response 500 (config_error_text e))
          (chain_id_felt f.from_bytes_be w.config))
    nonce ← try (map_err (rpc_response 500 "") (get_nonce (w.network.net 0) account_address))
    done (record {
      sender_address = sender_address;
      private_key = private_key;
      calldata = 1 ∷ contract ∷ selector ∷ 1 ∷ 1 ∷ [];
      proof_base64 = trim proof_text;
      proof_facts = proof_facts;
      nonce = c.felt_from nonce;
      chain_id = chain_id;
      resource_bounds = playground;
    })

  unfoldable pub submit_proof : String → Program SubmitProofResponse
  unfolding submit_params sign_and_build_payload add_invoke_transaction
  submit_proof session_id = do
    session ← session_of session_id
    proof_file ← try (ok_or session.proof_file (error_response 400 "No proof file available"))
    try (reject_if (not (f.exists proof_file)) (error_response 400 "No proof file available"))
    contract_address ←
        try (ok_or session.contract_address (error_response 400 "No counter contract in session"))
    params ← submit_params proof_file contract_address w.config.account_address
    signed ←
        try
          (map_err (λ e. error_response 500 (sign_error_text e)) (sign_and_build_payload c params))
    rpc_tx_hash ← try (
        map_err (rpc_response 502 "RPC submission failed: ")
          (add_invoke_transaction (w.network.net 0) signed.1))
    done (record {
      tx_hash = some rpc_tx_hash;
      local_tx_hash = some (c.felt_hex signed.0);
      output = "{\"transaction_hash\":\"" +++ rpc_tx_hash +++ "\"}";
    })
