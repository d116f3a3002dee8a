-- ===== src/Running/Records.antt =====
-- portable-core/starknet_transaction_prover/src/running/rpc_records.rs: the recording proxy and the
-- server that replays its records. A handler holds the lock on the interactions for one access.
use snip36_prover_web.Common.{String, Option, none, some, List, [], ◌∷◌, ◌++◌, string_eq}
use snip36_prover_web.Common.Text.{◌+++◌}
use snip36_prover_web.Common.Json.{Json, null, get, as_str}
use snip36_prover_web.Common.Assoc.{Assoc, lookup, insert}
use snip36_prover_web.Running.Normal.{normalize_json}

pub record RpcInteraction : Type 0 where
  pub method : String
  pub sorted_params : Json
  pub response : Json

-- `RpcRecords`
abbrev pub RpcRecords : Type 0
RpcRecords = List RpcInteraction

-- `request["method"].as_str().unwrap_or("unknown")`
abbrev pub method_or_unknown : Option Json → String
method_or_unknown none = "unknown"
method_or_unknown (some v) = known (as_str v)
  where
    known : Option String → String
    known none = "unknown"
    known (some s) = s

abbrev pub value_or_null : Option Json → Json
value_or_null none = null
value_or_null (some v) = v

abbrev pub method_of : Json → String
method_of request = method_or_unknown (get "method" request)

abbrev pub params_of : Json → Json
params_of request = value_or_null (get "params" request)

module _ (to_string : Json → String) where
  unfoldable pub make_lookup_key : String → Json → String
  unfolding normalize_json
  make_lookup_key method params = method +++ ":" +++ to_string (normalize_json to_string params)

  -- The loop of `MockRpcServer::new`.
  unfoldable pub lookup_table : RpcRecords → Assoc String Json → Assoc String Json
  unfolding make_lookup_key
  lookup_table [] table = table
  lookup_table (interaction ∷ rest) table = lookup_table rest (
      insert (make_lookup_key interaction.method interaction.sorted_params) interaction.response
        table)

  -- `MockRpcServer::handler`; none is the answer `NOT_FOUND`.
  unfoldable pub replay : RpcRecords → Json → Option Json
  unfolding lookup_table lookup
  replay records request =
      lookup (make_lookup_key (method_of request) (params_of request)) (lookup_table records [])

  -- `RecordingProxy::handler`, on a request and the node's answer to it.
  unfoldable pub record_interaction : RpcRecords → Json × Json → RpcRecords
  unfolding normalize_json
  record_interaction interactions (request, response_body) =
      interactions
      ++ record {
        method = method_of request;
        sorted_params = normalize_json to_string (params_of request);
        response = response_body;
      }
        ∷ []

  -- A session of the proxy.
  abbrev pub record_all : RpcRecords → List (Json × Json) → RpcRecords
  record_all interactions [] = interactions
  record_all interactions (exchange ∷ rest) =
      record_all (record_interaction interactions exchange) rest
