-- ===== src/Artifact/Replay.antt =====
-- A bundle can be built again from the artifact inside it.
use snip36_prover_web.Common.{
  ◌≡◌, refl, sym, String, Option, none, some, List, ok, ok_or, >>=-eq-ok, map_err-eq-ok,
}
use snip36_prover_web.Common.Text.{◌+++◌, as_bytes}
use snip36_prover_web.Common.Json.{Json, null, bool, number, other_number, str, array, object, get}
use snip36_prover_web.Artifact.Bundle.{
  Artifact, Bundle, Serde, not_null, bundle_of, facts_of_text, facts_of_value, bundle_from_response,
  bundle_from_execution_payload,
}

-- Printing the value and parsing the text gives it back, and its proof facts are a list of texts
-- as a value where they are one as a text.
pub record AgreesOn (s : Serde) (v : Json) : Type 0 where
  pub parse_print : s.from_str (s.to_string v) ≡ ok v
  pub same_strings :
      (facts : Json) (l : List String)
      → get "proof_facts" v ≡ some facts
      → s.strings_from_str (s.to_string facts) ≡ ok l
      → s.strings_from_value facts ≡ ok l

not_null-eq_some : (o : Option Json) {v : Json} → not_null o ≡ some v → o ≡ some v
not_null-eq_some none h = h
not_null-eq_some (some null) h = cc
not_null-eq_some (some (bool b)) h = h
not_null-eq_some (some (number n)) h = h
not_null-eq_some (some (other_number t)) h = h
not_null-eq_some (some (str t)) h = h
not_null-eq_some (some (array vs)) h = h
not_null-eq_some (some (object fs)) h = h

ok_or-eq-ok : (o : Option Json) (e : String) {v : Json} → ok_or o e ≡ ok v → o ≡ some v
ok_or-eq-ok none e h = cc
ok_or-eq-ok (some w) e h = cc

facts_agree :
    (s : Serde) (v : Json)
    → AgreesOn s v
    → (o : Option Json) (l : List String) → get "proof_facts" v ≡ o
    → facts_of_text s o ≡ ok l
    → facts_of_value s o ≡ ok l
facts_agree s v h none l here e = e
facts_agree s v h (some facts) l here e =
    rw (h.same_strings facts l here (map_err-eq-ok (λ m. "invalid JSON: " +++ m) _ e)) refl

-- Where printing the prover's result and parsing the text gives it back, and its proof facts read
-- the same from a value and from a text, a bundle that is made from the prover's response can be
-- made again from the execution payload of the artifact inside it, and is the same bundle.
pub bundle_from_response-replay :
    (s : Serde) (artifact : Artifact) (response : Json) (bundle : Bundle)
    → ((v : Json) → get "result" response ≡ some v → AgreesOn s v)
    → bundle_from_response s artifact response ≡ ok bundle
    → bundle_from_execution_payload s bundle.artifact ≡ ok bundle
unfolding bundle_from_response bundle_from_execution_payload as_bytes
bundle_from_response-replay s artifact response bundle agrees e =
    let empty = "empty result from starknet_proveTransaction: " +++ s.to_string response in
    let (result, found, e1) = >>=-eq-ok (ok_or (not_null (get "result" response)) empty) _ e in
    let (facts, read, e2) = >>=-eq-ok (facts_of_text s (get "proof_facts" result)) _ e1 in
    let whole : bundle_of (record artifact { execution_payload = some (s.to_string result) }) result
          facts
        ≡ bundle =
      cc e2 in
    let h = agrees result (not_null-eq_some (get "result" response) (ok_or-eq-ok _ empty found)) in
    rw (sym whole) (
      rw (h.parse_print)
        (rw (facts_agree s result h (get "proof_facts" result) facts refl read) refl))
