-- ===== src/Running/Normal.antt =====
-- portable-core/starknet_transaction_prover/src/running/rpc_records.rs: `normalize_json`.
use snip36_prover_web.Common.{
  ℕ, String, Bool, true, false, ltb, nat_beq, List, [], ◌∷◌, ◌≡◌, refl, ap, arith, Bool-cases, inl,
  inr, if◌then◌else◌,
}
use snip36_prover_web.Common.Text.{as_bytes}
use snip36_prover_web.Common.Json.{
  Json, null, bool, number, other_number, str, array, object, Items, no_items, item, Fields,
  no_fields, field,
}

-- The order of texts: that of their bytes.
abbrev pub bytes_leb : List ℕ → List ℕ → Bool
bytes_leb [] ys = true
bytes_leb (x ∷ xs) [] = false
bytes_leb (x ∷ xs) (y ∷ ys) =
    let rest = bytes_leb xs ys in if ltb x y then true else if nat_beq x y then rest else false

-- `to_string` is serde_json's printer.
module _ (to_string : Json → String) where
  unfoldable pub key_leb : Json → Json → Bool
  unfolding as_bytes
  key_leb v w = bytes_leb (as_bytes (to_string v)) (as_bytes (to_string w))

  -- `sort_by_key(|a| a.to_string())`, which keeps the order of equal keys.
  unfoldable pub insert_item : Json → Items → Items
  insert_item v no_items = item v no_items
  insert_item v (item w ws) = if key_leb v w then item v (item w ws) else item w (insert_item v ws)

  unfoldable pub sort_items : Items → Items
  unfolding insert_item
  sort_items no_items = no_items
  sort_items (item v vs) = insert_item v (sort_items vs)

  unfoldable mutual
    unfolding sort_items

    pub normalize_json : Json → Json
    normalize_json (array arr) = array (sort_items (normalize_items arr))
    normalize_json (object fs) = object (normalize_fields fs)
    normalize_json null = null
    normalize_json (bool b) = bool b
    normalize_json (number n) = number n
    normalize_json (other_number t) = other_number t
    normalize_json (str s) = str s

    -- `arr.iter().map(normalize_json)`
    pub normalize_items : Items → Items
    normalize_items no_items = no_items
    normalize_items (item v vs) = item (normalize_json v) (normalize_items vs)

    pub normalize_fields : Fields → Fields
    normalize_fields no_fields = no_fields
    normalize_fields (field k v fs) = field k (normalize_json v) (normalize_fields fs)

item_injective : (v w : Json) (vs ws : Items) → item v vs ≡ item w ws → (v ≡ w) × (vs ≡ ws)
item_injective v w vs ws h = (cc h, cc h)

pub bytes_leb_total : (xs ys : List ℕ) → bytes_leb xs ys ≡ false → bytes_leb ys xs ≡ true
bytes_leb_total [] ys h = cc
bytes_leb_total (x ∷ xs) [] h = refl
bytes_leb_total (x ∷ xs) (y ∷ ys) h = ground (arith, bytes_leb_total xs ys)

module _ (to_string : Json → String) where
  abbrev le : Json → Json → Bool
  le = key_leb to_string

  abbrev sorted : Items → Items
  sorted = sort_items to_string

  le_total : (v w : Json) → le v w ≡ false → le w v ≡ true
  unfolding key_leb
  le_total v w h = bytes_leb_total (as_bytes (to_string v)) (as_bytes (to_string w)) h

  -- Each item is at most the next.
  abbrev IsSorted : Items → Type 0
  IsSorted no_items = Unit
  IsSorted (item v no_items) = Unit
  IsSorted (item v (item w ws)) = (le v w ≡ true) × IsSorted (item w ws)

  -- An item that may stand before the list.
  abbrev Below : Json → Items → Type 0
  Below v no_items = Unit
  Below v (item w ws) = le v w ≡ true

  IsSorted-item : (v : Json) (ws : Items) → Below v ws → IsSorted ws → IsSorted (item v ws)
  IsSorted-item v no_items h s = tt
  IsSorted-item v (item w ws) h s = (h, s)

  tail_lem : (v : Json) (ws : Items) → IsSorted (item v ws) → Below v ws × IsSorted ws
  tail_lem v no_items s = (tt, tt)
  tail_lem v (item w ws) (h, s) = (h, s)

  Below-insert_item :
      (w v : Json) (ws : Items) → le w v ≡ true → Below w ws → Below w (insert_item to_string v ws)
  unfolding insert_item
  Below-insert_item w v no_items h b = h
  Below-insert_item w v (item x ws) h b = elim (Bool-cases (le v x)) [
    | inl first ↦ rw first h
    | inr later ↦ rw later b
  ]

  IsSorted-insert_item :
      (v : Json) (ws : Items) → IsSorted ws → IsSorted (insert_item to_string v ws)
  unfolding insert_item
  IsSorted-insert_item v no_items s = tt
  IsSorted-insert_item v (item w ws) s = elim (Bool-cases (le v w)) [
    | inl first ↦ rw first (first, s)
    | inr later ↦
        let (b, t) = tail_lem w ws s in
        rw later (
          IsSorted-item w (insert_item to_string v ws)
            (Below-insert_item w v ws (le_total v w later) b) (IsSorted-insert_item v ws t))
  ]

  IsSorted-sort_items : (vs : Items) → IsSorted (sorted vs)
  unfolding sort_items
  IsSorted-sort_items no_items = tt
  IsSorted-sort_items (item v vs) = IsSorted-insert_item v (sorted vs) (IsSorted-sort_items vs)

  -- Sorting a sorted list changes nothing.
  insert_item_first : (v : Json) (ws : Items) → Below v ws → insert_item to_string v ws ≡ item v ws
  unfolding insert_item
  insert_item_first v no_items h = refl
  insert_item_first v (item w ws) h = rw h refl

  sort_items_sorted : (vs : Items) → IsSorted vs → sorted vs ≡ vs
  unfolding sort_items
  sort_items_sorted no_items s = refl
  sort_items_sorted (item v vs) s =
      let (b, t) = tail_lem v vs s in rw (sort_items_sorted vs t) (insert_item_first v vs b)

  abbrev normal : Json → Json
  normal = normalize_json to_string

  abbrev normal_items : Items → Items
  normal_items = normalize_items to_string

  -- Inserting keeps a list of values that are in normal form.
  normal_items-insert_item :
      (v : Json) (ws : Items)
      → normal v ≡ v
      → normal_items ws ≡ ws
      → normal_items (insert_item to_string v ws) ≡ insert_item to_string v ws
  unfolding insert_item normalize_json
  normal_items-insert_item v no_items h k = rw h refl
  normal_items-insert_item v (item w ws) h k =
      let (first, rest) = item_injective (normal w) w (normal_items ws) ws k in
      elim (Bool-cases (le v w)) [
        | inl before ↦ rw before (rw (h, first, rest) refl)
        | inr after ↦ rw after (rw (first, normal_items-insert_item v ws h rest) refl)
      ]

  normal_items-sort_items :
      (vs : Items) → normal_items vs ≡ vs → normal_items (sorted vs) ≡ sorted vs
  unfolding sort_items normalize_json
  normal_items-sort_items no_items h = refl
  normal_items-sort_items (item v vs) h =
      let (first, rest) = item_injective (normal v) v (normal_items vs) vs h in
      normal_items-insert_item v (sorted vs) first (normal_items-sort_items vs rest)

  mutual
    unfolding normalize_json

    normal_twice : (v : Json) → normal (normal v) ≡ normal v
    normal_twice (array arr) =
        let same = normal_items_twice arr in
        let kept = normal_items-sort_items (normal_items arr) same in
        rw kept (
          ap array (
            sort_items_sorted (sorted (normal_items arr)) (IsSorted-sort_items (normal_items arr))))
    normal_twice (object fs) = ap object (normal_fields_twice fs)
    normal_twice null = refl
    normal_twice (bool b) = refl
    normal_twice (number n) = refl
    normal_twice (other_number t) = refl
    normal_twice (str s) = refl

    normal_items_twice : (vs : Items) → normal_items (normal_items vs) ≡ normal_items vs
    normal_items_twice no_items = refl
    normal_items_twice (item v vs) = rw (normal_twice v, normal_items_twice vs) refl

    normal_fields_twice :
        (fs : Fields)
        → normalize_fields to_string (normalize_fields to_string fs) ≡ normalize_fields to_string fs
    normal_fields_twice no_fields = refl
    normal_fields_twice (field k v fs) = rw (normal_twice v, normal_fields_twice fs) refl

  -- Normalizing a JSON value that is normalized changes nothing, for every printer.
  pub normalize_json-idempotent : (v : Json) → normal (normal v) ≡ normal v
  normalize_json-idempotent v = normal_twice v
