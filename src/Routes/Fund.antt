-- ===== src/Routes/Fund.antt =====
-- crates/snip36-server/src/routes/fund.rs and deploy.rs. A handler that knows the block of its
-- transaction waits for the next one and drops what the wait gives.
use snip36_prover_web.Common.{
  ℕ, String, not, true, Option, none, some, [], ◌∷◌, map_err, ok_or, reject_if, string_eq,
}
use snip36_prover_web.Common.Text.{◌+++◌, hex}
use snip36_prover_web.Rpc.Client.{receipt_block_number}
use snip36_prover_web.Server.State.{Session}
use snip36_prover_web.Server.Coinflip.{error_response, rpc_response}
use snip36_prover_web.Routes.Program.{Program, done, ◌>>=◌, ◌>>◌, try, update_session}
use snip36_prover_web.Routes.World.{World, combined, tx_within, parse_hex, extract_long_hex}

-- crates/snip36-core/src/types.rs
abbrev pub strk_token : String
strk_token = "0x04718f5a0fc34cc1af16a1cdee98ffb20c31f5cd61d6ab07201858f4287c938d"

abbrev pub oz_account_class_hash : String
oz_account_class_hash = "0x05b4b537eaa2399e3aa99c4e2e0208ebd6c71bc1467938cd52c798c601e43564"

pub record FundResponse : Type 0 where
  pub tx_hash : String
  pub amount : String
  pub block_number : Option ℕ

pub record DeployAccountRequest : Type 0 where
  pub session_id : String
  pub public_key : String
  pub account_address : String

pub record DeployAccountResponse : Type 0 where
  pub account_address : String
  pub tx_hash : String
  pub block_number : Option ℕ

pub record DeployCounterResponse : Type 0 where
  pub class_hash : String
  pub contract_address : String
  pub tx_hash : String
  pub block_number : Option ℕ

-- The session after the account is deployed.
abbrev pub with_account : String → Session → Session
with_account address session = record session {
  account_address = some address;
  account_deployed = true;
}

-- The session after the counter is deployed.
abbrev pub with_counter : String → String → Option ℕ → Session → Session
with_counter contract_address class_hash block_number session = record session {
  contract_address = some contract_address;
  class_hash = some class_hash;
  deploy_block = block_number;
  last_reference_block = block_number;
}

module _ (w : World) where
  -- Transfers 0.01 STRK.
  unfoldable pub fund_account : String → Program FundResponse
  unfolding parse_hex receipt_block_number hex
  fund_account account_address = do
    let calldata = account_address +++ " " +++ hex 10000000000000000 +++ " 0x0"
    output ← try (
        map_err (error_response 500) (
          w.sncast none (
            "--account" ∷ w.sncast_account ∷ "invoke" ∷ "--contract-address" ∷ strk_token
            ∷ "--function" ∷ "transfer" ∷ "--calldata" ∷ calldata ∷ "--url" ∷ w.config.rpc_url
            ∷ [])))
    tx_hash ← try (
        ok_or (parse_hex w.regex "transaction_hash" (combined output))
          (error_response 500 ("Transfer failed: " +++ combined output)))
    receipt ← try (map_err (rpc_response 504 "") (tx_within w.network tx_hash 120))
    done (record {
      tx_hash = tx_hash;
      amount = "0.01 STRK";
      block_number = receipt_block_number receipt;
    })

  unfoldable pub deploy_account : DeployAccountRequest → Program DeployAccountResponse
  unfolding parse_hex receipt_block_number
  deploy_account req = do
    output ← try (
        map_err (error_response 500) (
          w.sncast none (
            "--account" ∷ w.sncast_account ∷ "deploy" ∷ "--class-hash" ∷ oz_account_class_hash
            ∷ "--constructor-calldata" ∷ req.public_key ∷ "--salt" ∷ req.public_key ∷ "--url"
            ∷ w.config.rpc_url ∷ [])))
    try (
        reject_if (not output.success) (
          error_response 500
            ("Account deploy failed (exit " +++ output.status +++ "): " +++ combined output)))
    address ← try (
        ok_or (parse_hex w.regex "contract_address" (combined output))
          (error_response 500 ("Account deploy failed: " +++ combined output)))
    tx_hash ← try (
        ok_or (parse_hex w.regex "transaction_hash" (combined output)) (
          error_response 500
            ("Deploy succeeded but no transaction_hash in output: " +++ combined output)))
    receipt ← try (map_err (rpc_response 504 "") (tx_within w.network tx_hash 120))
    update_session req.session_id (with_account address)
    done (record {
      account_address = address;
      tx_hash = tx_hash;
      block_number = receipt_block_number receipt;
    })

  unfoldable pub deploy_counter : String → Program DeployCounterResponse
  unfolding parse_hex extract_long_hex receipt_block_number
  deploy_counter session_id = do
    declared ← try (
        map_err (error_response 500) (
          w.sncast (some w.contracts_dir) (
            "--account" ∷ w.sncast_account ∷ "declare" ∷ "--contract-name" ∷ "Counter" ∷ "--url"
            ∷ w.config.rpc_url ∷ [])))
    class_hash ← try (
        ok_or (extract_long_hex w.regex (combined declared))
          (error_response 500 ("Declare failed: " +++ combined declared)))
    output ← try (
        map_err (error_response 500) (
          w.sncast none (
            "--account" ∷ w.sncast_account ∷ "deploy" ∷ "--class-hash" ∷ class_hash ∷ "--salt"
            ∷ w.salt ∷ "--url" ∷ w.config.rpc_url ∷ [])))
    try (
        reject_if (not output.success) (
          error_response 500
            ("Counter deploy failed (exit " +++ output.status +++ "): " +++ combined output)))
    contract_address ← try (
        ok_or (parse_hex w.regex "contract_address" (combined output))
          (error_response 500 ("Deploy failed: " +++ combined output)))
    tx_hash ← try (
        ok_or (parse_hex w.regex "transaction_hash" (combined output)) (
          error_response 500
            ("Deploy succeeded but no transaction_hash in output: " +++ combined output)))
    receipt ← try (map_err (rpc_response 504 "") (tx_within w.network tx_hash 120))
    update_session session_id
        (with_counter contract_address class_hash (receipt_block_number receipt))
    done (record {
      class_hash = class_hash;
      contract_address = contract_address;
      tx_hash = tx_hash;
      block_number = receipt_block_number receipt;
    })
