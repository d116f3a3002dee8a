-- ===== src/Running/Reordered.antt =====
-- rpc_records.rs: parameters that differ in the order of array items have the same lookup key.
use snip36_prover_web.Common.{
  ℕ, String, Bool, true, false, List, [], ◌∷◌, ◌≡◌, ◌≢◌, refl, sym, ap, ◌∙◌, arith, Bool-cases, inl,
  inr,
}
use snip36_prover_web.Common.Text.{◌+++◌, as_bytes}
use snip36_prover_web.Common.Json.{Json, array, object, Items, no_items, item, Fields, field}
use snip36_prover_web.Running.Normal.{
  bytes_leb, bytes_leb_total, key_leb, insert_item, sort_items, normalize_json, normalize_items,
  normalize_fields,
}
use snip36_prover_web.Running.Records.{make_lookup_key}

bytes_leb_trans :
    (xs ys zs : List ℕ) → bytes_leb xs ys ≡ true → bytes_leb ys zs ≡ true → bytes_leb xs zs ≡ true
bytes_leb_trans [] ys zs h k = refl
bytes_leb_trans (x ∷ xs) [] zs h k = absurd cc
bytes_leb_trans (x ∷ xs) (y ∷ ys) [] h k = absurd cc
bytes_leb_trans (x ∷ xs) (y ∷ ys) (z ∷ zs) h k = ground (arith, bytes_leb_trans xs ys zs)

bytes_leb_antisym : (xs ys : List ℕ) → bytes_leb xs ys ≡ true → bytes_leb ys xs ≡ true → xs ≡ ys
bytes_leb_antisym [] [] h k = refl
bytes_leb_antisym [] (y ∷ ys) h k = absurd cc
bytes_leb_antisym (x ∷ xs) [] h k = absurd cc
bytes_leb_antisym (x ∷ xs) (y ∷ ys) h k = ground (arith, bytes_leb_antisym xs ys)

module _ (to_string : Json → String) where
  abbrev le : Json → Json → Bool
  le = key_leb to_string

  abbrev insert : Json → Items → Items
  insert = insert_item to_string

  abbrev sorted : Items → Items
  sorted = sort_items to_string

  abbrev normal : Json → Json
  normal = normalize_json to_string

  abbrev pub bytes_of : Json → List ℕ
  bytes_of v = as_bytes (to_string (normal v))

  le_total : (v w : Json) → le v w ≡ false → le w v ≡ true
  unfolding key_leb
  le_total v w = bytes_leb_total (as_bytes (to_string v)) (as_bytes (to_string w))

  le_trans : (u v w : Json) → le u v ≡ true → le v w ≡ true → le u w ≡ true
  unfolding key_leb
  le_trans u v w =
      bytes_leb_trans (as_bytes (to_string u)) (as_bytes (to_string v)) (as_bytes (to_string w))

  le_antisym :
      (v w : Json) → le v w ≡ true → le w v ≡ true → as_bytes (to_string v) ≡ as_bytes (to_string w)
  unfolding key_leb
  le_antisym v w = bytes_leb_antisym (as_bytes (to_string v)) (as_bytes (to_string w))

  insert_first :
      (v x : Json) (xs : Items) → le v x ≡ true → insert v (item x xs) ≡ item v (item x xs)
  unfolding insert_item
  insert_first v x xs h = rw h refl

  insert_later :
      (v x : Json) (xs : Items) → le v x ≡ false → insert v (item x xs) ≡ item x (insert v xs)
  unfolding insert_item
  insert_later v x xs h = rw h refl

  -- Two items of which the first stands strictly before the second are inserted in any order.
  insert_swap :
      (v w : Json) (s : Items)
      → le v w ≡ true
      → le w v ≡ false
      → insert v (insert w s) ≡ insert w (insert v s)
  unfolding insert_item
  insert_swap v w no_items h k = insert_first v w no_items h ∙ sym (insert_later w v no_items k)
  insert_swap v w (item x xs) h k = elim (Bool-cases (le w x)) [
    | inl first ↦
        ap (insert v) (insert_first w x xs first)
        ∙ insert_first v w (item x xs) h
        ∙ sym (
            ap (insert w) (insert_first v x xs (le_trans v w x h first))
            ∙ insert_later w v (item x xs) k
            ∙ ap (item v) (insert_first w x xs first))
    | inr later ↦ elim (Bool-cases (le v x)) [
      | inl first ↦
          ap (insert v) (insert_later w x xs later)
          ∙ insert_first v x (insert w xs) first
          ∙ sym (
              ap (insert w) (insert_first v x xs first)
              ∙ insert_later w v (item x xs) k
              ∙ ap (item v) (insert_later w x xs later))
      | inr after ↦
          ap (insert v) (insert_later w x xs later)
          ∙ insert_later v x (insert w xs) after
          ∙ ap (item x) (insert_swap v w xs h k)
          ∙ sym (ap (insert w) (insert_later v x xs after) ∙ insert_later w x (insert v xs) later)
    ]
  ]

  insert_comm :
      (v w : Json) (s : Items)
      → as_bytes (to_string v) ≢ as_bytes (to_string w)
      → insert v (insert w s) ≡ insert w (insert v s)
  insert_comm v w s apart = elim (Bool-cases (le v w)) [
    | inl before ↦ elim (Bool-cases (le w v)) [
      | inl after ↦ absurd (apart (le_antisym v w before after))
      | inr strict ↦ insert_swap v w s before strict
    ]
    | inr after ↦ sym (insert_swap w v s (le_total v w after) after)
  ]

  -- The same value up to the order of array items, at any depth: two neighbours may change places
  -- where their normal forms are printed differently.
  mutual
    pub data Reordered : Json → Json → Type 0 where
      same : (v : Json) → Reordered v v
      in_array : (vs ws : Items) → ReorderedItems vs ws → Reordered (array vs) (array ws)
      in_object : (fs gs : Fields) → ReorderedFields fs gs → Reordered (object fs) (object gs)

    pub data ReorderedItems : Items → Items → Type 0 where
      same_items : (vs : Items) → ReorderedItems vs vs
      next_item :
          (v w : Json) (vs ws : Items)
          → Reordered v w
          → ReorderedItems vs ws
          → ReorderedItems (item v vs) (item w ws)
      swap :
          (v w : Json) (vs : Items)
          → bytes_of v ≢ bytes_of w
          → ReorderedItems (item v (item w vs)) (item w (item v vs))
      followed :
          (us vs ws : Items) → ReorderedItems us vs → ReorderedItems vs ws → ReorderedItems us ws

    pub data ReorderedFields : Fields → Fields → Type 0 where
      same_fields : (fs : Fields) → ReorderedFields fs fs
      next_field :
          (k : String) (v w : Json) (fs gs : Fields)
          → Reordered v w
          → ReorderedFields fs gs
          → ReorderedFields (field k v fs) (field k w gs)

  mutual
    unfolding normalize_json sort_items

    normal_same : (v w : Json) → Reordered v w → normal v ≡ normal w
    normal_same v w (same _) = refl
    normal_same _ _ (in_array vs ws h) = ap array (items_same vs ws h)
    normal_same _ _ (in_object fs gs h) = ap object (fields_same fs gs h)

    items_same :
        (vs ws : Items)
        → ReorderedItems vs ws
        → sorted (normalize_items to_string vs) ≡ sorted (normalize_items to_string ws)
    items_same _ _ (same_items vs) = refl
    items_same _ _ (next_item v w vs ws h k) =
        rw (normal_same v w h) (ap (insert (normal w)) (items_same vs ws k))
    items_same _ _ (swap v w vs apart) =
        insert_comm (normal v) (normal w) (sorted (normalize_items to_string vs)) apart
    items_same _ _ (followed us vs ws h k) = items_same us vs h ∙ items_same vs ws k

    fields_same :
        (fs gs : Fields)
        → ReorderedFields fs gs
        → normalize_fields to_string fs ≡ normalize_fields to_string gs
    fields_same _ _ (same_fields fs) = refl
    fields_same _ _ (next_field k v w fs gs h l) =
        rw (normal_same v w h) (ap (field k (normal w)) (fields_same fs gs l))

  -- Parameters that are the same but for the order of array items, at any depth, have the same
  -- lookup key, for every printer, where items change places only if their normal forms are
  -- printed differently.
  pub make_lookup_key-Reordered :
      (method : String) (v w : Json)
      → Reordered v w
      → make_lookup_key to_string method v ≡ make_lookup_key to_string method w
  unfolding make_lookup_key
  make_lookup_key-Reordered method v w h =
      ap (λ u. method +++ ":" +++ to_string u) (normal_same v w h)
