-- ===== src/Rpc/Client.antt =====
-- crates/snip36-core/src/rpc.rs: requests and the reading of their responses.
use snip36_prover_web.Common.{
  ℕ, String, Option, none, some, List, [], ◌∷◌, ◌&&◌, ◌+◌, ◌-◌, ◌*◌, ◌^◌, ltb, leb, nat_beq,
  string_eq, if◌then◌else◌, Result, ok, err, ◌>>=◌, ok_or, ◌≡◌, refl,
}
use snip36_prover_web.Common.Text.{as_bytes}
use snip36_prover_web.Common.Json.{
  Json, Items, no_items, item, str, strs, number, obj, get, as_u64, as_str, as_array,
}

-- The texts of `Unexpected` keep the fixed part and the value that it shows.
pub data RpcError : Type 0 where
  http : String → RpcError
  json_rpc : Json → RpcError
  unexpected : String → Json → RpcError
  tx_timeout : String → ℕ → RpcError
  tx_rejected : Json → RpcError
  block_timeout : ℕ → ℕ → RpcError

-- `call_raw`: reqwest sends the payload and reads the response as JSON.
abbrev pub Transport : Type 0
Transport = Json → Result String Json

abbrev hex_digit : ℕ → Option ℕ
hex_digit c =
    if leb 48 c && leb c 57
    then some (c - 48)
    else if leb 97 c && leb c 102
    then some (c - 87)
    else if leb 65 c && leb c 70
    then some (c - 55)
    else none

-- The digits of a `u64`, with its check for overflow.
unfoldable pub hex_digits : ℕ → List ℕ → Option ℕ
hex_digits acc [] = some acc
hex_digits acc (c ∷ cs) = elim (hex_digit c) [
  | none ↦ none
  | some d ↦
      let rest = hex_digits (acc * 16 + d) cs in if ltb (acc * 16 + d) (2 ^ 64) then rest else none
]

-- `trim_start_matches("0x")`
abbrev trim_0x : List ℕ → List ℕ
trim_0x [] = []
trim_0x (a ∷ []) = a ∷ []
trim_0x (a ∷ b ∷ rest) =
    let trimmed = trim_0x rest in if nat_beq a 48 && nat_beq b 120 then trimmed else a ∷ b ∷ rest

-- `u64::from_str_radix(s, 16)`
abbrev from_str_radix_16 : List ℕ → Option ℕ
from_str_radix_16 [] = none
from_str_radix_16 (c ∷ []) = hex_digits 0 (c ∷ [])
from_str_radix_16 (c ∷ d ∷ cs) =
    if nat_beq c 43 then hex_digits 0 (d ∷ cs) else hex_digits 0 (c ∷ d ∷ cs)

unfoldable pub parse_hex_u64 : String → Option ℕ
unfolding hex_digits as_bytes
parse_hex_u64 s = from_str_radix_16 (trim_0x (as_bytes s))

-- `filter_map(|v| v.as_str())`
abbrev pub texts : Items → List String
texts no_items = []
texts (item v vs) = keep (as_str v) (texts vs)
  where
    keep : Option String → List String → List String
    keep none rest = rest
    keep (some s) rest = s ∷ rest

unfoldable pub read_response : Json → Result RpcError Json
read_response resp = elim (get "error" resp) [
  | some error ↦ err (json_rpc error)
  | none ↦ ok_or (get "result" resp) (unexpected "" resp)
]

module _ (call_raw : Transport) where
  unfoldable pub call : String → Json → Result RpcError Json
  unfolding read_response
  call method params =
      elim (call_raw (
        obj (
          ("jsonrpc", str "2.0")
          ∷ ("method", str method)
          ∷ ("params", params)
          ∷ ("id", number 1)
          ∷ []))) [ err e ↦ err (http e) | ok resp ↦ read_response resp ]

  unfoldable pub block_number : Result RpcError ℕ
  unfolding call
  block_number = call "starknet_blockNumber" (obj []) >>= λ result.
      ok_or (as_u64 result) (unexpected "expected u64 block number" result)

  unfoldable pub chain_id : Result RpcError String
  unfolding call
  chain_id = call "starknet_chainId" (obj []) >>= λ result.
      ok_or (as_str result) (unexpected "expected string chain id" result)

  unfoldable pub get_nonce_at_block : String → Json → Result RpcError ℕ
  unfolding call parse_hex_u64
  get_nonce_at_block address block_id =
      call "starknet_getNonce"
        (obj (("block_id", block_id) ∷ ("contract_address", str address) ∷ []))
      >>= λ result. ok_or (as_str result) (unexpected "expected hex nonce" result) >>= λ hex_str.
          ok_or (parse_hex_u64 hex_str) (unexpected "invalid nonce hex" (str hex_str))

  unfoldable pub get_nonce : String → Result RpcError ℕ
  unfolding get_nonce_at_block
  get_nonce address = elim (get_nonce_at_block address (str "pre_confirmed")) [
    | ok n ↦ ok n
    | err e ↦ get_nonce_at_block address (str "latest")
  ]

  unfoldable pub starknet_call : String → String → List String → Result RpcError (List String)
  unfolding call
  starknet_call contract_address selector calldata =
      call "starknet_call" (
        obj (
          (
            "request",
            obj (
                ("contract_address", str contract_address)
                ∷ ("entry_point_selector", str selector)
                ∷ ("calldata", strs calldata)
                ∷ []),
          )
          ∷ ("block_id", str "latest")
          ∷ []))
      >>= λ result.
          ok_or (as_array result) (unexpected "expected array" result) >>= λ arr. ok (texts arr)

  unfoldable pub get_transaction : String → Result RpcError Json
  unfolding call
  get_transaction tx_hash =
      call "starknet_getTransactionByHash" (obj (("transaction_hash", str tx_hash) ∷ []))

  unfoldable pub get_receipt : String → Result RpcError Json
  unfolding call
  get_receipt tx_hash =
      call "starknet_getTransactionReceipt" (obj (("transaction_hash", str tx_hash) ∷ []))

  unfoldable pub get_class : String → Result RpcError Json
  unfolding call
  get_class class_hash =
      call "starknet_getClass"
        (obj (("block_id", str "latest") ∷ ("class_hash", str class_hash) ∷ []))

  unfoldable pub add_invoke_transaction : Json → Result RpcError String
  unfolding call
  add_invoke_transaction invoke_tx =
      call "starknet_addInvokeTransaction" (obj (("invoke_transaction", invoke_tx) ∷ []))
      >>= λ result.
          ok_or (hash_field (get "transaction_hash" result))
            (unexpected "no transaction_hash in" result)
    where
      hash_field : Option Json → Option String
      hash_field none = none
      hash_field (some v) = as_str v

unfoldable pub receipt_block_number : Json → Option ℕ
unfolding parse_hex_u64
receipt_block_number receipt = number_of (get "block_number" receipt)
  where
    text_number : Option String → Option ℕ
    text_number none = none
    text_number (some s) = parse_hex_u64 s

    number_of : Option Json → Option ℕ
    number_of none = none
    number_of (some bn) = elim (as_u64 bn) [ some n ↦ some n | none ↦ text_number (as_str bn) ]

hex_test : parse_hex_u64 "0x1F" ≡ some 31
unfolding parse_hex_u64 hex_digits as_bytes
hex_test = refl
