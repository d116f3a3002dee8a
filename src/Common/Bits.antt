-- ===== src/Common/Bits.antt =====
-- `|` on machine words of `width` bits, and bytes read as a big-endian number.
use Prim.Native.Nat.{ℕ, zero, suc, ◌+◌, ◌*◌, ◌/◌, ◌%◌, ◌^◌, ◌<◌, ◌≤◌, min}
use mathlib.Core.Path.{◌≡◌, ◌∙◌}
use mathlib.Core.List.{List, [], ◌∷◌}
use native.Mathlib.Omega.{arith}

pow_suc : (k : ℕ) → 2 ^ suc k ≡ 2 * 2 ^ k
pow_suc k = omega arith

mul_double : (n k : ℕ) → n * 2 ^ suc k ≡ 2 * (n * 2 ^ k)
mul_double n k = rw (pow_suc k) (omega arith)

unfoldable pub bit_or : ℕ → ℕ → ℕ → ℕ
bit_or zero a b = 0
bit_or (suc width) a b = min 1 (a % 2 + b % 2) + 2 * bit_or width (a / 2) (b / 2)

bit_or-zero : (width a : ℕ) → a < 2 ^ width → bit_or width a 0 ≡ a
unfolding bit_or
bit_or-zero zero a h = omega arith
bit_or-zero (suc width) a h =
    let rest = bit_or-zero width (a / 2) (omega (arith, pow_suc width, h)) in rw rest (omega arith)

-- Bits that do not overlap are added.
pub bit_or_apart :
    (width k n b : ℕ)
    → n * 2 ^ k < 2 ^ width
    → b < 2 ^ k
    → k ≤ width
    → bit_or width (n * 2 ^ k) b ≡ n * 2 ^ k + b
unfolding bit_or
bit_or_apart width zero n b h below le =
    let none_left : b ≡ 0 = omega arith in rw none_left (bit_or-zero width (n * 1) h ∙ omega arith)
bit_or_apart zero (suc k) n b h below le = omega arith
bit_or_apart (suc width) (suc k) n b h below le =
    let double = mul_double n k in
    let half : 2 * (n * 2 ^ k) / 2 ≡ n * 2 ^ k = omega arith in
    let rest =
      bit_or_apart width k n (b / 2) (omega (arith, double, pow_suc width, h))
        (omega (arith, pow_suc k, below)) (omega (arith, le)) in
    rw (double, half, rest) (omega arith)

abbrev pub be_from : ℕ → List ℕ → ℕ
be_from acc [] = acc
be_from acc (b ∷ bs) = be_from (acc * 256 + b) bs

-- `from_be_bytes`
abbrev pub be_value : List ℕ → ℕ
be_value bs = be_from 0 bs
