-- ===== src/Common/Json.antt =====
-- `serde_json::Value`, as far as the program reads and writes it. Of the numbers only the unsigned
-- ones are read; any other number is kept as its text.
use Prim.Native.Nat.{ℕ}
use Prim.Native.String.{String}
use mathlib.Core.Bool.{Bool, true, false}
use mathlib.Core.Option.{Option, none, some}
use mathlib.Core.List.{List, [], ◌∷◌, map}
use package.snip36_prover_web.Common.Tests.{◌==◌, string_eq, if◌then◌else◌}

mutual
  pub data Json : Type 0 where
    null : Json
    bool : Bool → Json
    number : ℕ → Json
    other_number : String → Json
    str : String → Json
    array : Items → Json
    object : Fields → Json

  pub data Items : Type 0 where
    no_items : Items
    item : Json → Items → Items

  pub data Fields : Type 0 where
    no_fields : Fields
    field : String → Json → Fields → Fields

abbrev pub items : List Json → Items
items [] = no_items
items (v ∷ vs) = item v (items vs)

abbrev pub fields : List (String × Json) → Fields
fields [] = no_fields
fields ((k, v) ∷ kvs) = field k v (fields kvs)

-- `json!({ .. })`
abbrev pub obj : List (String × Json) → Json
obj kvs = object (fields kvs)

-- `json!(vec_of_strings)`
abbrev pub strs : List String → Json
strs ss = array (items (map str ss))

unfoldable pub find_field : String → Fields → Option Json
find_field key no_fields = none
find_field key (field k v rest) = if k == key then some v else find_field key rest

-- `get(key)`
abbrev pub get : String → Json → Option Json
get key (object fs) = find_field key fs
get key _ = none

abbrev pub as_u64 : Json → Option ℕ
as_u64 (number n) = some n
as_u64 _ = none

abbrev pub as_str : Json → Option String
as_str (str s) = some s
as_str _ = none

abbrev pub as_array : Json → Option Items
as_array (array vs) = some vs
as_array _ = none

abbrev pub is_null : Json → Bool
is_null null = true
is_null _ = false
