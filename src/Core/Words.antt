-- ===== src/Core/Words.antt =====
-- crates/snip36-core/src/proof.rs: what `cairo_serde_to_base64` packs.
use snip36_prover_web.Common.{
  ℕ, zero, suc, ◌+◌, ◌*◌, ◌%◌, ◌^◌, ◌<◌, ◌≡◌, refl, ap, sym, ◌∙◌, String, List, [], ◌∷◌, ◌++◌, map,
  length, take, drop, take-append-drop, length-drop, ok, All, All-of_append, arith, traverse,
  append-nil, append_assoc, length-append, >>=-eq-ok,
}
use snip36_prover_web.Common.Bits.{be_from, be_value}
use snip36_prover_web.Proofs.Types.{Felt}
use snip36_prover_web.Signing.Crates.{prime}
use snip36_prover_web.Core.ChainId.{AreBytes}
use snip36_prover_web.Core.Encoding.{
  Encoders, to_be_bytes, low_word, pack, pack_all, encode_proof_base64, cairo_serde_to_base64,
}

-- The 32-bit words of a list of bytes, most significant byte first.
abbrev pub words : List ℕ → List ℕ
words (a ∷ b ∷ c ∷ d ∷ rest) = be_value (a ∷ b ∷ c ∷ d ∷ []) ∷ words rest
words _ = []

-- `Felt::to_bytes_be` gives the 32 bytes of a felt, which is below the prime.
pub record HasBytes (to_bytes_be : Felt → List ℕ) : Type 0 where
  pub length_lem : (f : Felt) → length (to_bytes_be f) ≡ 32
  pub bytes : (f : Felt) → AreBytes (to_bytes_be f)
  pub value : (f : Felt) → f < prime → be_value (to_bytes_be f) ≡ f

pub be_from-append : (xs ys : List ℕ) (a : ℕ) → be_from a (xs ++ ys) ≡ be_from (be_from a xs) ys
be_from-append [] ys a = refl
be_from-append (x ∷ xs) ys a = be_from-append xs ys (a * 256 + x)

four_bytes :
    (ys : List ℕ) (a : ℕ) → length ys ≡ 4 → AreBytes ys → be_from a ys % 2 ^ 32 ≡ be_from 0 ys
four_bytes (p ∷ q ∷ r ∷ s ∷ []) a len (hp, (hq, (hr, (hs, t)))) = omega (arith, hp, hq, hr, hs)
four_bytes [] a len h = absurd (omega (arith, len))
four_bytes (p ∷ []) a len h = absurd (omega (arith, len))
four_bytes (p ∷ q ∷ []) a len h = absurd (omega (arith, len))
four_bytes (p ∷ q ∷ r ∷ []) a len h = absurd (omega (arith, len))
four_bytes (p ∷ q ∷ r ∷ s ∷ t ∷ ys) a len h = absurd (omega (arith, len))

take_all : (n : ℕ) (xs : List ℕ) → length xs ≡ n → take n xs ≡ xs
take_all zero [] h = refl
take_all zero (x ∷ xs) h = absurd (omega (arith, h))
take_all (suc n) [] h = refl
take_all (suc n) (x ∷ xs) h = ap (λ t. x ∷ t) (take_all n xs (omega (arith, h)))

low_word_lem : (xs : List ℕ) → length xs ≡ 32 → AreBytes xs → low_word xs ≡ be_value xs % 2 ^ 32
unfolding low_word
low_word_lem xs len h =
    let four : length (drop 28 xs) ≡ 4 = length-drop 28 xs ∙ omega (arith, len) in
    let split : be_value xs ≡ be_from (be_value (take 28 xs)) (drop 28 xs) =
      ap be_value (sym (take-append-drop 28 xs)) ∙ be_from-append (take 28 xs) (drop 28 xs) 0 in
    let last : AreBytes (drop 28 xs) =
      (All-of_append (λ b. b < 256) (take 28 xs) (drop 28 xs) (rw (take-append-drop 28 xs) h)).1 in
    rw (take_all 4 (drop 28 xs) four)
      (rw split (sym (four_bytes (drop 28 xs) (be_value (take 28 xs)) four last)))

words-to_be_bytes :
    (v : ℕ) (rest : List ℕ) → v < 2 ^ 32 → words (to_be_bytes v ++ rest) ≡ v ∷ words rest
unfolding to_be_bytes
words-to_be_bytes v rest h =
    let value : be_value (to_be_bytes v) ≡ v = omega (arith, h) in ap (λ t. t ∷ words rest) value

abbrev pub AreFelts : List Felt → Type 0
AreFelts = All (λ f. f < prime)

module _ (c : Encoders) (h : HasBytes c.to_bytes_be) where
  abbrev packed : List Felt → List ℕ
  packed [] = []
  packed (f ∷ fs) = pack c f ++ packed fs

  pack_lem : (f : Felt) → f < prime → pack c f ≡ to_be_bytes (f % 2 ^ 32)
  unfolding pack
  pack_lem f lt = ap to_be_bytes (
      low_word_lem (c.to_bytes_be f) (h.length_lem f) (h.bytes f)
      ∙ ap (λ t. t % 2 ^ 32) (h.value f lt))

  pack_all_lem :
      (texts : List String) (fs : List Felt) (acc : List ℕ)
      → traverse c.from_hex texts ≡ ok fs
      → pack_all c texts acc ≡ ok (acc ++ packed fs)
  unfolding pack_all
  pack_all_lem [] [] acc e = ap ok (sym (append-nil acc))
  pack_all_lem [] (f ∷ fs) acc e = cc
  pack_all_lem (s ∷ texts) fs acc e =
      let (f, parsed, others) = >>=-eq-ok (c.from_hex s) _ e in
      let (gs, rest, whole) = >>=-eq-ok (traverse c.from_hex texts) _ others in
      let last : f ∷ gs ≡ fs = cc whole in
      rw parsed (
        pack_all_lem texts gs (acc ++ pack c f) rest
        ∙ ap ok (append_assoc acc (pack c f) (packed gs))
        ∙ ap (λ t. ok (acc ++ packed t)) last)

  words-packed : (fs : List Felt) → AreFelts fs → words (packed fs) ≡ map (λ f. f % 2 ^ 32) fs
  words-packed [] k = refl
  words-packed (f ∷ fs) (lt, k) =
      ap (λ t. words (t ++ packed fs)) (pack_lem f lt)
      ∙ words-to_be_bytes (f % 2 ^ 32) (packed fs) (omega arith)
      ∙ ap (λ t. f % 2 ^ 32 ∷ t) (words-packed fs k)

  length-packed : (fs : List Felt) → AreFelts fs → length (packed fs) ≡ 4 * length fs
  unfolding to_be_bytes
  length-packed [] k = refl
  length-packed (f ∷ fs) (lt, k) =
      let four : length (pack c f) ≡ 4 = ap length (pack_lem f lt) in
      let whole = length-append (pack c f) (packed fs) in
      omega (arith, four, whole, length-packed fs k)

  -- With felts of 32 bytes, where every text of a proof parses to a felt, packing succeeds: the
  -- encoded bytes are four for each felt, and read as big-endian words they are the felts modulo
  -- 2^32, in their order.
  pub cairo_serde_to_base64_lem :
      (texts : List String) (fs : List Felt)
      → traverse c.from_hex texts ≡ ok fs
      → AreFelts fs
      → (bytes : List ℕ) × (cairo_serde_to_base64 c texts ≡ ok (c.encode bytes))
        × (length bytes ≡ 4 * length fs)
        × (words bytes ≡ map (λ f. f % 2 ^ 32) fs)
  unfolding cairo_serde_to_base64 encode_proof_base64
  cairo_serde_to_base64_lem texts fs e k =
      (packed fs, rw (pack_all_lem texts fs [] e) refl, length-packed fs k, words-packed fs k)
