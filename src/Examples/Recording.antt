-- ===== src/Examples/Recording.antt =====
-- A printer that prints a text as it is, an array item by item and all else as a dash.
use snip36_prover_web.Common.{ℕ, arith, String, some, List, [], ◌∷◌, ◌≡◌, ◌≢◌, refl}
use snip36_prover_web.Common.Text.{◌+++◌, as_bytes}
use snip36_prover_web.Common.Json.{
  Json, find_field, null, bool, number, other_number, str, array, object, obj, items, Items,
  no_items, item,
}
use snip36_prover_web.Running.Normal.{key_leb, normalize_json}
use snip36_prover_web.Running.Records.{make_lookup_key, replay, record_all}
use snip36_prover_web.Running.Reordered.{bytes_of, in_array, swap, make_lookup_key-Reordered}
use snip36_prover_web.Running.Replay.{replay-record_all}

mutual
  text_of : Json → String
  text_of null = "-"
  text_of (bool b) = "-"
  text_of (number n) = "-"
  text_of (other_number t) = "-"
  text_of (str s) = s
  text_of (array arr) = text_of_items arr
  text_of (object fs) = "-"

  text_of_items : Items → String
  text_of_items no_items = ""
  text_of_items (item v vs) = text_of v +++ "," +++ text_of_items vs

abbrev ask : List Json → Json
ask params = obj (("method", str "starknet_getNonce") ∷ ("params", array (items params)) ∷ [])

abbrev session : List (Json × Json)
session =
    (ask (str "b" ∷ str "a" ∷ []), number 1)
    ∷ (ask (str "c" ∷ []), number 2)
    ∷ (ask (str "a" ∷ str "b" ∷ []), number 3)
    ∷ []

test_normal :
    normalize_json text_of (array (items (str "b" ∷ str "a" ∷ [])))
    ≡ array (items (str "a" ∷ str "b" ∷ []))
unfolding normalize_json text_of key_leb
test_normal = refl

-- A text is printed by its bytes, and these two differ.
apart : bytes_of text_of (str "b") ≢ bytes_of text_of (str "a")
unfolding normalize_json text_of as_bytes
apart h = let e : ◌≡◌ {A = List ℕ} (98 ∷ []) (97 ∷ []) = h in ground arith

make_lookup_key-Reordered_example :
    make_lookup_key text_of "starknet_call" (array (items (str "b" ∷ str "a" ∷ [])))
    ≡ make_lookup_key text_of "starknet_call" (array (items (str "a" ∷ str "b" ∷ [])))
make_lookup_key-Reordered_example =
    make_lookup_key-Reordered text_of "starknet_call" (array (items (str "b" ∷ str "a" ∷ [])))
      (array (items (str "a" ∷ str "b" ∷ [])))
      (in_array _ _ (swap (str "b") (str "a") no_items apart))

-- The parameters are the same in another order, so the later answer is given.
replay-record_all_example :
    replay text_of (record_all text_of [] session) (ask (str "b" ∷ str "a" ∷ [])) ≡ some (number 3)
unfolding normalize_json text_of key_leb make_lookup_key find_field
replay-record_all_example = replay-record_all text_of session (ask (str "b" ∷ str "a" ∷ []))
