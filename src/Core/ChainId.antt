-- ===== src/Core/ChainId.antt =====
-- crates/snip36-core/src/config.rs: `chain_id_felt` tells chain ids apart.
use native.Mathlib.Nat.{mod-eq_of_lt}
use snip36_prover_web.Common.{
  ℕ, zero, suc, ◌+◌, ◌*◌, ◌-◌, ◌%◌, ◌^◌, ◌≤◌, ◌<◌, ◌≡◌, ◌≢◌, ◌↔◌, refl, ap, sym, ◌∙◌, List, [], ◌∷◌,
  ◌++◌, length, take, replicate, length-append, false, ltb, ok, arith, All, All-append,
}
use snip36_prover_web.Common.Text.{as_bytes}
use snip36_prover_web.Common.Bits.{be_from, be_value}
use snip36_prover_web.Proofs.Types.{Felt}
use snip36_prover_web.Signing.Crates.{prime}
use snip36_prover_web.Core.Config.{Config, right_aligned, chain_id_felt}

abbrev pub AreBytes : List ℕ → Type 0
AreBytes = All (λ b. b < 256)

-- A text without a leading NUL.
abbrev pub HasNoPad : List ℕ → Type 0
HasNoPad [] = Unit
HasNoPad (b ∷ bs) = b ≢ 0

below :
    (xs : List ℕ) (a b : ℕ)
    → AreBytes xs
    → a < b
    → be_from a xs < be_from b (replicate (length xs) 0)
below [] a b h lt = lt
below (x ∷ xs) a b (p, h) lt = below xs (a * 256 + x) (b * 256 + 0) h (omega arith)

same_digits :
    (xs ys : List ℕ) (a b : ℕ)
    → AreBytes xs
    → AreBytes ys
    → length xs ≡ length ys
    → be_from a xs ≡ be_from b ys
    → (a ≡ b) × (xs ≡ ys)
same_digits [] [] a b h k len e = (e, refl)
same_digits [] (y ∷ ys) a b h k len e = absurd (omega (arith, len))
same_digits (x ∷ xs) [] a b h k len e = absurd (omega (arith, len))
same_digits (x ∷ xs) (y ∷ ys) a b (p, h) (q, k) len e =
    let (n, rest) = same_digits xs ys (a * 256 + x) (b * 256 + y) h k (omega (arith, len)) e in
    let first : x ≡ y = omega (arith, n) in (omega (arith, n), cc (rest, first))

strip : List ℕ → List ℕ
strip [] = []
strip (zero ∷ bs) = strip bs
strip (suc b ∷ bs) = suc b ∷ bs

strip-padded : (n : ℕ) (bs : List ℕ) → HasNoPad bs → strip (replicate n 0 ++ bs) ≡ bs
unfolding strip
strip-padded zero [] h = refl
strip-padded zero (zero ∷ bs) h = absurd (h refl)
strip-padded zero (suc b ∷ bs) h = refl
strip-padded (suc n) bs h = strip-padded n bs h

take-replicate {ℓ} : {A : Type ℓ} (m n : ℕ) (x : A) → m ≤ n → take m (replicate n x) ≡ replicate m x
take-replicate zero n x h = refl
take-replicate (suc m) zero x h = absurd (omega (arith, h))
take-replicate (suc m) (suc n) x h = ap (λ t. x ∷ t) (take-replicate m n x (omega (arith, h)))

AreBytes-zeros : (n : ℕ) → AreBytes (replicate n 0)
AreBytes-zeros zero = tt
AreBytes-zeros (suc n) = (omega arith, AreBytes-zeros n)

length-replicate {ℓ} : {A : Type ℓ} (n : ℕ) (x : A) → length (replicate n x) ≡ n
length-replicate zero x = refl
length-replicate (suc n) x = ap suc (length-replicate n x)

-- The shape of the buffer of an id of at most 31 bytes.
record Buffer (bytes : List ℕ) : Type 0 where
  padding : ℕ
  padding_lem : suc padding + length bytes ≡ 32
  shape : right_aligned bytes ≡ replicate (suc padding) 0 ++ bytes

right_aligned-Buffer : (bytes : List ℕ) → length bytes ≤ 31 → Buffer bytes
unfolding right_aligned
right_aligned-Buffer bytes h = record {
  padding = 31 - length bytes;
  padding_lem = omega (arith, h);
  shape =
      let n : 32 - length bytes ≡ suc (31 - length bytes) = omega (arith, h) in
      rw n
        (ap (λ t. t ++ bytes) (take-replicate (suc (31 - length bytes)) 32 0 (omega (arith, h))));
}

module _ (bytes : List ℕ) (short : length bytes ≤ 31) where
  open right_aligned-Buffer bytes short use {padding, padding_lem, shape}

  length-right_aligned : length (right_aligned bytes) ≡ 32
  length-right_aligned =
      ap length shape
      ∙ length-append (replicate (suc padding) 0) bytes
      ∙ ap (λ t. t + length bytes) (length-replicate (suc padding) 0)
      ∙ padding_lem

  right_aligned-AreBytes : AreBytes bytes → AreBytes (right_aligned bytes)
  right_aligned-AreBytes h =
      rw shape (
        All-append (λ b. b < 256) (replicate (suc padding) 0) bytes (AreBytes-zeros (suc padding))
          h)

  strip-right_aligned : HasNoPad bytes → strip (right_aligned bytes) ≡ bytes
  strip-right_aligned h = rw shape (strip-padded (suc padding) bytes h)

  -- The first byte of the buffer is zero, so that its value is a felt.
  right_aligned-below : AreBytes bytes → be_value (right_aligned bytes) < prime
  right_aligned-below h =
      let rest = replicate padding 0 ++ bytes in
      let n : length rest ≡ 31 =
        length-append (replicate padding 0) bytes
        ∙ ap (λ t. t + length bytes) (length-replicate padding 0)
        ∙ omega (arith, padding_lem) in
      let lt : be_from 0 rest < be_from 1 (replicate (length rest) 0) =
        below rest 0 1
          (All-append (λ b. b < 256) (replicate padding 0) bytes (AreBytes-zeros padding) h)
          (omega arith) in
      let small : be_from 0 rest < 256 ^ 31 = rw n at lt in rw shape (omega (arith, small))

-- `Felt::from_bytes_be` reads 32 bytes, most significant first, modulo the prime.
abbrev pub ReadsBytes : (List ℕ → Felt) → Type 0
ReadsBytes from_bytes_be =
    (buffer : List ℕ) → length buffer ≡ 32 → from_bytes_be buffer ≡ be_value buffer % prime

-- With a felt crate that reads 32 bytes modulo the prime, two configured chain ids of at most 31
-- bytes without a leading NUL both have a felt, and the felts are equal exactly when the ids have
-- the same bytes.
pub chain_id_felt-apart :
    (from_bytes_be : List ℕ → Felt) (c d : Config)
    → ReadsBytes from_bytes_be
    → length (as_bytes c.chain_id) ≤ 31
    → length (as_bytes d.chain_id) ≤ 31
    → AreBytes (as_bytes c.chain_id)
    → AreBytes (as_bytes d.chain_id)
    → HasNoPad (as_bytes c.chain_id)
    → HasNoPad (as_bytes d.chain_id)
    → (r : Felt) × (s : Felt) × (chain_id_felt from_bytes_be c ≡ ok r)
      × (chain_id_felt from_bytes_be d ≡ ok s)
      × ((r ≡ s) ↔ (as_bytes c.chain_id ≡ as_bytes d.chain_id))
unfolding chain_id_felt
chain_id_felt-apart from_bytes_be c d reads short_c short_d byte_c byte_d pad_c pad_d =
    let cs = as_bytes c.chain_id in
    let ds = as_bytes d.chain_id in
    let fits_c : ltb 31 (length cs) ≡ false = ground (arith, short_c) in
    let fits_d : ltb 31 (length ds) ≡ false = ground (arith, short_d) in
    (
      from_bytes_be (right_aligned cs),
      from_bytes_be (right_aligned ds),
      rw fits_c refl,
      rw fits_d refl,
      (
        λ same.
            let value : be_value (right_aligned cs) ≡ be_value (right_aligned ds) =
              sym (mod-eq_of_lt (right_aligned-below cs short_c byte_c))
              ∙ sym (reads (right_aligned cs) (length-right_aligned cs short_c))
              ∙ same
              ∙ reads (right_aligned ds) (length-right_aligned ds short_d)
              ∙ mod-eq_of_lt (right_aligned-below ds short_d byte_d) in
            let buffers =
              same_digits (right_aligned cs) (right_aligned ds) 0 0
                (right_aligned-AreBytes cs short_c byte_c)
                (right_aligned-AreBytes ds short_d byte_d)
                (length-right_aligned cs short_c ∙ sym (length-right_aligned ds short_d)) value in
            sym (strip-right_aligned cs short_c pad_c)
            ∙ ap strip buffers.1
            ∙ strip-right_aligned ds short_d pad_d,
        λ same. ap (λ t. from_bytes_be (right_aligned t)) same,
      ),
    )
