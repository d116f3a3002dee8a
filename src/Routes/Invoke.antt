-- ===== src/Routes/Invoke.antt =====
-- crates/snip36-server/src/routes/invoke.rs.
use snip36_prover_web.Common.{
  ℕ, String, Option, none, some, [], ◌∷◌, Result, ok, err, map_err, ok_or,
}
use snip36_prover_web.Common.Text.{hex}
use snip36_prover_web.Common.Json.{Json, str, number, obj, get, as_str}
use snip36_prover_web.Signing.Types.{playground}
use snip36_prover_web.Signing.Payload.{invoke_fields}
use snip36_prover_web.Rpc.Client.{RpcError, http, receipt_block_number}
use snip36_prover_web.Server.State.{Session}
use snip36_prover_web.Server.Coinflip.{ErrorResponse, shown, error_response, rpc_response}
use snip36_prover_web.Routes.Program.{Program, done, ◌>>=◌, ◌>>◌, try, session_of, update_session}
use snip36_prover_web.Routes.World.{World, tx_within}

-- crates/snip36-core/src/types.rs
abbrev pub increment_selector : String
increment_selector = "0x7a44dde9fea32737a5cf3f9683b3235138654aa2d189f6fe44af37a61dc60d"

pub record InvokeRequest : Type 0 where
  pub session_id : String
  pub amount : ℕ
  pub signature_r : String
  pub signature_s : String
  pub nonce : ℕ

pub record InvokeResponse : Type 0 where
  pub tx_hash : String
  pub block_number : Option ℕ
  pub warning : Option String

-- The session after the transaction is submitted, and after it is included.
abbrev pub with_invoke_tx : String → Session → Session
with_invoke_tx tx_hash session = record session { last_invoke_tx = some tx_hash }

abbrev pub with_invoke_block : ℕ → Session → Session
with_invoke_block block session = record session { invoke_block = some block }

abbrev pub shown_response : ℕ → String → Json → ErrorResponse
shown_response status t v = record { status = status; detail = shown t v }

-- The answer of `starknet_addInvokeTransaction`.
unfoldable pub submitted_hash : Json → Result ErrorResponse String
submitted_hash result = elim (get "error" result) [
  | some error ↦ err (shown_response 400 "" error)
  | none ↦
      ok_or (text_of (hash_of (get "result" result)))
        (shown_response 500 "Unexpected RPC response: " result)
]
  where
    hash_of : Option Json → Option Json
    hash_of none = none
    hash_of (some r) = get "transaction_hash" r

    text_of : Option Json → Option String
    text_of none = none
    text_of (some v) = as_str v

-- The JSON-RPC request, on the session's contract and account.
unfoldable pub invoke_payload : InvokeRequest → String → String → Json
unfolding hex invoke_fields playground
invoke_payload req contract_address account_address = obj (
    ("jsonrpc", str "2.0")
    ∷ ("method", str "starknet_addInvokeTransaction")
    ∷ (
      "params",
      obj (
          (
            "invoke_transaction",
            obj (
                invoke_fields account_address
                  ("0x1" ∷ contract_address ∷ increment_selector ∷ "0x1" ∷ hex req.amount ∷ [])
                  (hex req.nonce) playground (req.signature_r ∷ req.signature_s ∷ [])),
          )
          ∷ []),
    )
    ∷ ("id", number 1)
    ∷ [])

module _ (w : World) where
  abbrev pub note_block : String → Option ℕ → Program (Unit {0})
  note_block session_id none = done tt
  note_block session_id (some block) = update_session session_id (with_invoke_block block)

  -- The answer, after the block of the receipt is noted.
  abbrev pub confirmed : String → String → Option ℕ → Program InvokeResponse
  confirmed session_id tx_hash block_number =
      note_block session_id block_number
      >> done (record { tx_hash = tx_hash; block_number = block_number; warning = none })

  -- The wait for the inclusion; where it fails, the answer has a warning.
  abbrev pub await_inclusion : String → String → Result RpcError Json → Program InvokeResponse
  await_inclusion session_id tx_hash (ok receipt) =
      confirmed session_id tx_hash (receipt_block_number receipt)
  await_inclusion session_id tx_hash (err e) = done (record {
    tx_hash = tx_hash;
    block_number = none;
    warning = some "Tx submitted but not yet confirmed";
  })

  unfoldable pub invoke_increment : InvokeRequest → Program InvokeResponse
  unfolding invoke_payload submitted_hash receipt_block_number
  invoke_increment req = do
    session ← session_of req.session_id
    contract_address ←
        try (ok_or session.contract_address (error_response 400 "No counter contract deployed"))
    account_address ← try (ok_or session.account_address (error_response 400 "No account deployed"))
    result ← try (
        map_err (λ e. rpc_response 500 "" (http e))
          (w.network.net 0 (invoke_payload req contract_address account_address)))
    tx_hash ← try (submitted_hash result)
    update_session req.session_id (with_invoke_tx tx_hash)
    await_inclusion req.session_id tx_hash (tx_within w.network tx_hash 120)
