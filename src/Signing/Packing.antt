-- ===== src/Signing/Packing.antt =====
-- crates/snip36-pure/src/signing.rs: the layout of the packed fields.
use snip36_prover_web.Common.{ℕ, String, ◌≡◌, ◌∙◌, sym, ◌+◌, ◌*◌, ◌%◌, ◌^◌, ◌<◌, ◌≤◌, arith}
use native.Mathlib.Nat.{mod-eq_of_lt}
use snip36_prover_web.Common.Bits.{bit_or, bit_or_apart}
use snip36_prover_web.Signing.Types.{ResourceBound, ResourceBounds}
use snip36_prover_web.Signing.Crates.{Crates, IsField, prime}
use snip36_prover_web.Signing.TxHash.{resource_name_felt, shift_left, concat_resource, da_mode}

-- `max_amount` is a `u64`, `max_price_per_unit` a `u128`.
abbrev pub FitsBound : ResourceBound → Type 0
FitsBound b = (b.max_amount < 2 ^ 64) × (b.max_price_per_unit < 2 ^ 128)

abbrev pub FitsBounds : ResourceBounds → Type 0
FitsBounds b = FitsBound b.l1_gas × FitsBound b.l2_gas × FitsBound b.l1_data_gas

shift_or :
    (width k n b : ℕ)
    → n * 2 ^ k < 2 ^ width
    → b < 2 ^ k
    → k ≤ width
    → bit_or width (shift_left width n k) b ≡ n * 2 ^ k + b
shift_or width k n b h below le =
    let small : n * 2 ^ k % 2 ^ width ≡ n * 2 ^ k = mod-eq_of_lt h in
    rw small (bit_or_apart width k n b h below le)

packed :
    (n a p : ℕ)
    → n < 2 ^ 56
    → a < 2 ^ 64
    → p < 2 ^ 128
    → ((n * 2 ^ 64 + a) % prime * ((2 ^ 64 % prime) ^ 2 % prime) % prime + p % prime) % prime
      ≡ n * 2 ^ 192 + a * 2 ^ 128 + p
packed n a p hn ha hp = omega arith

-- Felts being the integers modulo the prime, an amount of 64 bits and a price of 128 bits are
-- packed below a name of 56 bits without any wrap-around: name * 2^192 + amount * 2^128 + price.
pub concat_resource_lem :
    (c : Crates)
    → IsField c
    → (name : String) (amount price : ℕ) → resource_name_felt name < 2 ^ 56
    → amount < 2 ^ 64
    → price < 2 ^ 128
    → concat_resource c amount price name
      ≡ resource_name_felt name * 2 ^ 192 + amount * 2 ^ 128 + price
unfolding concat_resource
concat_resource_lem c f name amount price n a p =
    let high =
      shift_or 128 64 (resource_name_felt name) amount (omega (arith, n)) a (omega arith) in
    rw
      (
        concat_resource,
        high,
        f.from_lem (resource_name_felt name * 2 ^ 64 + amount),
        f.from_lem (2 ^ 64),
        f.from_lem price,
        f.mul_lem,
        f.add_lem,
        f.pow_lem,
      )
      (packed (resource_name_felt name) amount price n a p)

-- Two packings under one name are equal only for equal fields.
concat_resource-injective :
    (c : Crates)
    → IsField c
    → (name : String) (a b p q : ℕ) → resource_name_felt name < 2 ^ 56
    → a < 2 ^ 64
    → b < 2 ^ 64
    → p < 2 ^ 128
    → q < 2 ^ 128
    → concat_resource c a p name ≡ concat_resource c b q name
    → (a ≡ b) × (p ≡ q)
concat_resource-injective c f name a b p q n ha hb hp hq h =
    let same =
      sym (concat_resource_lem c f name a p n ha hp)
      ∙ h
      ∙ concat_resource_lem c f name b q n hb hq in
    (omega (arith, same), omega (arith, same))

-- The same of a whole bound, for the three names that the source packs.
pub bound-injective :
    (c : Crates)
    → IsField c
    → (name : String) → resource_name_felt name < 2 ^ 56
    → (b d : ResourceBound) → FitsBound b
    → FitsBound d
    → concat_resource c b.max_amount b.max_price_per_unit name
      ≡ concat_resource c d.max_amount d.max_price_per_unit name
    → b ≡ d
bound-injective c f name n b d (ha, hp) (hb, hq) h =
    let (e, g) =
      concat_resource-injective c f name b.max_amount d.max_amount b.max_price_per_unit
        d.max_price_per_unit n ha hb hp hq h in
    λ i. record { max_amount = e i; max_price_per_unit = g i }

unpack :
    (n m k l : ℕ) → k < 2 ^ 32 → l < 2 ^ 32 → n * 2 ^ 32 + k ≡ m * 2 ^ 32 + l → (n ≡ m) × (k ≡ l)
unpack n m k l hk hl h = (omega arith, omega arith)

word_below : (n k : ℕ) → n < 2 ^ 32 → k < 2 ^ 32 → n * 2 ^ 32 + k < prime
word_below n k hn hk = omega arith

-- The two availability modes are `u32`s.
pub da_mode-injective :
    (c : Crates)
    → IsField c
    → (n m k l : ℕ) → n < 2 ^ 32
    → m < 2 ^ 32
    → k < 2 ^ 32
    → l < 2 ^ 32
    → da_mode c n k ≡ da_mode c m l
    → (n ≡ m) × (k ≡ l)
unfolding da_mode
da_mode-injective c f n m k l hn hm hk hl h =
    let left = shift_or 64 32 n k (omega (arith, hn)) hk (omega arith) in
    let right = shift_or 64 32 m l (omega (arith, hm)) hl (omega arith) in
    let same : (n * 2 ^ 32 + k) % prime ≡ (m * 2 ^ 32 + l) % prime =
      sym (f.from_lem (n * 2 ^ 32 + k))
      ∙ rw (da_mode, left, right) at h
      ∙ f.from_lem (m * 2 ^ 32 + l) in
    unpack n m k l hk hl
      (sym (mod-eq_of_lt (word_below n k hn hk)) ∙ same ∙ mod-eq_of_lt (word_below m l hm hl))
