-- ===== src/Artifact/Bundle.antt =====
-- crates/snip36-artifact/src/lib.rs: `export_artifact` and `bundle_from_response`;
-- crates/snip36-pure/src/lib.rs: `bundle_from_execution_payload`.
use snip36_prover_web.Common.{
  ℕ, String, Option, none, some, List, [], ◌∷◌, length, is_empty, if◌then◌else◌, Result, ok, err,
  ◌>>=◌, ok_or, map_err,
}
use snip36_prover_web.Common.Text.{◌+++◌, as_bytes}
use snip36_prover_web.Common.Json.{Json, null, get, as_str, obj}
use snip36_prover_web.Rpc.Client.{RpcError, Transport, block_number, get_transaction}

pub record Artifact : Type 0 where
  pub version : ℕ
  pub block_number : ℕ
  pub rpc_url : String
  pub chain_id : String
  pub strk_fee_token_address : String
  pub tx_hash : Option String
  pub transaction : Json
  pub execution_payload : Option String
  pub proof_facts_preimage : Option (List String)
  pub raw_messages : Option Json

pub record Bundle : Type 0 where
  pub artifact : Artifact
  pub proof_base64 : Option String
  pub proof_facts : List String
  pub raw_messages : Option Json
  pub proof_size : Option ℕ

pub record ArtifactExportRequest : Type 0 where
  pub block_number : Option ℕ
  pub rpc_url : String
  pub chain_id : String
  pub strk_fee_token_address : String
  pub tx_hash : Option String
  pub tx_json : Option Json

pub data ArtifactError : Type 0 where
  missing_transaction : ArtifactError
  rpc : RpcError → ArtifactError

-- serde_json: printing and parsing a value, and reading a value, or a text, as a list of texts.
pub record Serde : Type 0 where
  pub to_string : Json → String
  pub from_str : String → Result String Json
  pub strings_from_value : Json → Result String (List String)
  pub strings_from_str : String → Result String (List String)

abbrev pub map_option : {A B : Type 0} → (A → B) → Option A → Option B
map_option f none = none
map_option f (some a) = some (f a)

abbrev pub and_then : {A B : Type 0} → Option A → (A → Option B) → Option B
and_then none f = none
and_then (some a) f = f a

-- `StarknetRpc::new` gives the transport of a URL.
module _ (transport : String → Transport) where
  abbrev transaction_of :
      ArtifactExportRequest → Option Json → Option String → Result ArtifactError Json
  transaction_of req (some tx) hash = ok tx
  transaction_of req none (some hash) =
      map_err ArtifactError.rpc (get_transaction (transport req.rpc_url) hash)
  transaction_of req none none = err missing_transaction

  abbrev block_of : ArtifactExportRequest → Option ℕ → Result ArtifactError ℕ
  block_of req (some number) = ok number
  block_of req none = map_err ArtifactError.rpc (block_number (transport req.rpc_url))

  unfoldable pub export_artifact : ArtifactExportRequest → Result ArtifactError Artifact
  export_artifact req = do
    transaction ← transaction_of req req.tx_json req.tx_hash
    number ← block_of req req.block_number
    ok (record {
      version = 1;
      block_number = number;
      rpc_url = req.rpc_url;
      chain_id = req.chain_id;
      strk_fee_token_address = req.strk_fee_token_address;
      tx_hash = req.tx_hash;
      transaction = transaction;
      execution_payload = none;
      proof_facts_preimage = none;
      raw_messages = none;
    })

-- `.filter(|v| !v.is_null())`
abbrev pub not_null : Option Json → Option Json
not_null (some null) = none
not_null (some v) = some v
not_null none = none

abbrev pub messages_of : Json → Option Json
messages_of result =
    map_option (λ messages. obj (("l2_to_l1_messages", messages) ∷ []))
      (get "l2_to_l1_messages" result)

-- What both functions make of a result that they have read.
abbrev pub bundle_of : Artifact → Json → List String → Bundle
bundle_of artifact result proof_facts =
    let proof_base64 = and_then (get "proof" result) as_str in
    record {
      artifact = record artifact {
        proof_facts_preimage = if is_empty proof_facts then none else some proof_facts;
        raw_messages = messages_of result;
      };
      proof_base64 = proof_base64;
      proof_facts = proof_facts;
      raw_messages = messages_of result;
      proof_size = map_option (λ s. length (as_bytes s)) proof_base64;
    }

module _ (s : Serde) where
  -- `parse_proof_facts_json(&v.to_string())`, with the text of `InvalidJson`.
  abbrev pub facts_of_text : Option Json → Result String (List String)
  facts_of_text none = ok []
  facts_of_text (some v) =
      map_err (λ e. "invalid JSON: " +++ e) (s.strings_from_str (s.to_string v))

  unfoldable pub bundle_from_response : Artifact → Json → Result String Bundle
  unfolding as_bytes
  bundle_from_response artifact prove_response = do
    result ←
        ok_or (not_null (get "result" prove_response))
          ("empty result from starknet_proveTransaction: " +++ s.to_string prove_response)
    proof_facts ← facts_of_text (get "proof_facts" result)
    ok (
        bundle_of (record artifact { execution_payload = some (s.to_string result) }) result
          proof_facts)

  abbrev pub facts_of_value : Option Json → Result String (List String)
  facts_of_value none = ok []
  facts_of_value (some v) = map_err (λ e. "invalid proof_facts: " +++ e) (s.strings_from_value v)

  unfoldable pub bundle_from_execution_payload : Artifact → Result String Bundle
  unfolding as_bytes
  bundle_from_execution_payload artifact = do
    payload ← ok_or artifact.execution_payload "artifact.execution_payload is missing"
    result ← map_err (λ e. "invalid execution payload json: " +++ e) (s.from_str payload)
    proof_facts ← facts_of_value (get "proof_facts" result)
    ok (bundle_of artifact result proof_facts)
