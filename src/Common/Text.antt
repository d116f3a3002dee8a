-- ===== src/Common/Text.antt =====
-- Numbers as text: `to_string()` and the format `{:#x}`; a text as the bytes of its UTF-8.
use Prim.Native.Nat.{ℕ, zero, suc, ◌+◌, ◌/◌, ◌%◌}
use Prim.Native.Char.{code}
use Prim.Native.String.{String, slice, ◌++◌ as str_append}
use mathlib.Core.List.{List, [], ◌∷◌, ◌++◌}
use package.snip36_prover_web.Common.Tests.{ltb, if◌then◌else◌}

infixr 65 ◌+++◌
abbrev pub ◌+++◌ : String → String → String
a +++ b = str_append a b

abbrev digit : ℕ → String
digit n = slice "0123456789abcdef" n (suc n)

-- The digits of `n`, put before `done`; `n` has at most `fuel` digits.
unfoldable pub digits : ℕ → ℕ → ℕ → String → String
digits base zero n done = done
digits base (suc fuel) zero done = done
digits base (suc fuel) (suc n) done =
    digits base fuel (suc n / base) (digit (suc n % base) +++ done)

unfoldable pub decimal : ℕ → String
unfolding digits
decimal zero = "0"
decimal (suc n) = digits 10 (suc n) (suc n) ""

unfoldable pub hex : ℕ → String
unfolding digits
hex zero = "0x0"
hex (suc n) = "0x" +++ digits 16 (suc n) (suc n) ""

abbrev utf8 : ℕ → List ℕ
utf8 c =
    if ltb c 128
    then c ∷ []
    else if ltb c 2048
    then (192 + c / 64) ∷ (128 + c % 64) ∷ []
    else if ltb c 65536
    then (224 + c / 4096) ∷ (128 + c / 64 % 64) ∷ (128 + c % 64) ∷ []
    else (240 + c / 262144) ∷ (128 + c / 4096 % 64) ∷ (128 + c / 64 % 64) ∷ (128 + c % 64) ∷ []

-- `as_bytes()`
unfoldable pub as_bytes : String → List ℕ
as_bytes String.[] = []
as_bytes (String.◌∷◌ c s) = utf8 (code c) ++ as_bytes s
