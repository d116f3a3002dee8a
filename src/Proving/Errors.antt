-- ===== src/Proving/Errors.antt =====
-- portable-core/starknet_transaction_prover/src/server/errors.rs: the errors of the JSON-RPC service.
use text.Mathlib.Text.{find?}
use snip36_prover_web.Common.{ℕ, String, Bool, true, false, Option, none, some, if◌then◌else◌}
use snip36_prover_web.Common.Text.{◌+++◌, decimal}
use snip36_prover_web.Proving.Prover.{
  VirtualSnosProverError, invalid_transaction_type, invalid_transaction_input, validation_error,
  program_output_error, runner_error, proving_error, output_parse_error,
}

-- An `i32`, by its sign and its size.
pub data Code : Type 0 where
  plus : ℕ → Code
  minus : ℕ → Code

pub record ErrorObject : Type 0 where
  pub code : Code
  pub message : String
  pub data_of : Option String

abbrev owned : Code → String → Option String → ErrorObject
owned code message data_of = record { code = code; message = message; data_of = data_of }

abbrev pub block_not_found : ErrorObject
block_not_found = owned (plus 24) "Block not found" none

abbrev pub validation_failure : String → ErrorObject
validation_failure d = owned (plus 55) "Account validation failed" (some d)

abbrev pub unsupported_tx_version : String → ErrorObject
unsupported_tx_version d = owned (plus 61) "The transaction version is not supported" (some d)

abbrev pub invalid_input : String → ErrorObject
invalid_input d = owned (plus 1000) "Invalid transaction input" (some d)

unfoldable pub service_busy : ℕ → ErrorObject
unfolding decimal
service_busy max_concurrent = owned (minus 32005) "Service is busy" (
    some (
      "The proving service is at capacity ("
      +++ decimal max_concurrent
      +++ " concurrent request(s)). Please retry later."))

-- `INTERNAL_ERROR_MSG` of jsonrpsee
abbrev pub internal_server_error : String → ErrorObject
internal_server_error e = owned (minus 32603) "Internal error" (some e)

abbrev is_found : Option ℕ → Bool
is_found none = false
is_found (some n) = true

-- `str::contains`
abbrev contains_text : String → String → Bool
contains_text s t = is_found (find? s t)

-- `From<VirtualSnosProverError> for ErrorObjectOwned`
unfoldable pub error_object : VirtualSnosProverError → ErrorObject
error_object (invalid_transaction_type msg) = unsupported_tx_version msg
error_object (invalid_transaction_input msg) = invalid_input msg
error_object (validation_error msg) =
    if contains_text msg "Pending" then block_not_found else validation_failure msg
error_object (runner_error e) = internal_server_error e
error_object (proving_error e) = internal_server_error e
error_object (output_parse_error e) = internal_server_error e
error_object (program_output_error e) = internal_server_error e
