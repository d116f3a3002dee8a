-- ===== src/Running/Replay.antt =====
-- rpc_records.rs: a recorded session, replayed.
use snip36_prover_web.Common.{
  String, Bool, true, false, Option, none, some, List, [], ◌∷◌, ◌++◌, map, ◌==◌, string_eq, ◌≡◌,
  refl, sym, ap, ◌∙◌, append-nil, append_assoc, if◌then◌else◌,
}
use snip36_prover_web.Common.Text.{◌+++◌}
use snip36_prover_web.Common.Json.{Json}
use snip36_prover_web.Common.Assoc.{Assoc, lookup, insert, lookup-insert}
use snip36_prover_web.Running.Normal.{normalize_json, normalize_json-idempotent}
use snip36_prover_web.Running.Records.{
  RpcInteraction, RpcRecords, method_of, params_of, make_lookup_key, lookup_table, replay,
  record_interaction, record_all,
}

abbrev or_else : Option Json → Option Json → Option Json
or_else none other = other
or_else (some a) other = some a

or_else_assoc : (a b c : Option Json) → or_else a (or_else b c) ≡ or_else (or_else a b) c
or_else_assoc none b c = refl
or_else_assoc (some a) b c = refl

module _ (to_string : Json → String) where
  abbrev pub key_of : Json → String
  key_of request = make_lookup_key to_string (method_of request) (params_of request)

  -- The last answer in the session to a request with the same method and the same normal form.
  abbrev pub latest : String → List (Json × Json) → Option Json
  latest key [] = none
  latest key ((request, response) ∷ rest) =
      or_else (latest key rest) (if key_of request == key then some response else none)

  abbrev interaction_of : Json × Json → RpcInteraction
  interaction_of (request, response) = record {
    method = method_of request;
    sorted_params = normalize_json to_string (params_of request);
    response = response;
  }

  record_all_lem :
      (acc : RpcRecords) (log : List (Json × Json))
      → record_all to_string acc log ≡ acc ++ map interaction_of log
  unfolding record_interaction
  record_all_lem acc [] = sym (append-nil acc)
  record_all_lem acc (e ∷ log) =
      record_all_lem (record_interaction to_string acc e) log
      ∙ append_assoc acc (interaction_of e ∷ []) (map interaction_of log)

  -- The key of a record is the key of its request.
  key_recorded :
      (request : Json)
      → make_lookup_key to_string (method_of request) (normalize_json to_string (params_of request))
        ≡ key_of request
  unfolding make_lookup_key
  key_recorded request =
      ap (λ v. method_of request +++ ":" +++ to_string v)
        (normalize_json-idempotent to_string (params_of request))

  lookup-lookup_table :
      (key : String) (log : List (Json × Json)) (table : Assoc String Json)
      → lookup key (lookup_table to_string (map interaction_of log) table)
        ≡ or_else (latest key log) (lookup key table)
  unfolding lookup_table
  lookup-lookup_table key [] table = refl
  lookup-lookup_table key ((request, response) ∷ log) table =
      ap
        (λ t.
          lookup key (lookup_table to_string (map interaction_of log) (insert t response table)))
        (key_recorded request)
      ∙ lookup-lookup_table key log (insert (key_of request) response table)
      ∙ ap (or_else (latest key log)) (lookup-insert (key_of request) key response table)
      ∙ step (key_of request == key)
      ∙ or_else_assoc (latest key log) _ (lookup key table)
    where
      step :
          (b : Bool)
          → or_else (latest key log) (if b then some response else lookup key table)
            ≡ or_else
                (latest key log)
                (or_else (if b then some response else none) (lookup key table))
      step true = refl
      step false = refl

  or_else-none : (o : Option Json) → or_else o none ≡ o
  or_else-none none = refl
  or_else-none (some a) = refl

  -- The replay of a recorded session answers a request with the last response that was recorded
  -- for a request of the same lookup key, and does not find it where there is none.
  pub replay-record_all :
      (log : List (Json × Json)) (request : Json)
      → replay to_string (record_all to_string [] log) request ≡ latest (key_of request) log
  unfolding replay lookup
  replay-record_all log request =
      rw (record_all_lem [] log)
        (lookup-lookup_table (key_of request) log [] ∙ or_else-none (latest (key_of request) log))
