-- ===== src/Examples/Bundling.antt =====
-- A response with a proof and one proof fact, and a parser for it.
use snip36_prover_web.Common.{◌≡◌, refl, none, some, [], ◌∷◌, ok}
use snip36_prover_web.Common.Text.{as_bytes}
use snip36_prover_web.Common.Json.{Json, str, strs, obj, null, get, find_field}
use snip36_prover_web.Artifact.Bundle.{
  Artifact, Bundle, Serde, bundle_of, bundle_from_response, bundle_from_execution_payload,
}
use snip36_prover_web.Artifact.Replay.{AgreesOn, bundle_from_response-replay}

abbrev proved : Json
proved = obj (("proof", str "AAAA") ∷ ("proof_facts", strs ("0x1" ∷ [])) ∷ [])

abbrev answer : Json
answer = obj (("id", null) ∷ ("result", proved) ∷ [])

abbrev serde : Serde
serde = record {
  to_string = λ v. "{}";
  from_str = λ text. ok proved;
  strings_from_value = λ v. ok ("0x1" ∷ []);
  strings_from_str = λ text. ok ("0x1" ∷ []);
}

abbrev recorded : Artifact
recorded = record {
  version = 1;
  block_number = 12;
  rpc_url = "http://node";
  chain_id = "SN_SEPOLIA";
  strk_fee_token_address = "0x4";
  tx_hash = none;
  transaction = null;
  execution_payload = none;
  proof_facts_preimage = none;
  raw_messages = none;
}

abbrev made : Bundle
made = bundle_of (record recorded { execution_payload = some "{}" }) proved ("0x1" ∷ [])

serde-AgreesOn : (v : Json) → get "result" answer ≡ some v → AgreesOn serde v
unfolding find_field
serde-AgreesOn v h = record { parse_print = cc h; same_strings = λ facts l here e. e }

bundle_from_response-replay_example : bundle_from_execution_payload serde made.artifact ≡ ok made
unfolding bundle_from_response find_field as_bytes
bundle_from_response-replay_example =
    bundle_from_response-replay serde recorded answer made serde-AgreesOn refl
