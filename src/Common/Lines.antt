-- ===== src/Common/Lines.antt =====
-- `lines()` and `replace(..)` of a text.
use Prim.Native.Nat.{ℕ, zero, suc, ◌+◌}
use Prim.Native.Char.{code}
use Prim.Native.String.{String, slice, len}
use mathlib.Core.Path.{◌≡◌, refl}
use mathlib.Core.Bool.{Bool, true, false, ◌&&◌, ◌||◌}
use mathlib.Core.Option.{none, some}
use mathlib.Core.List.{List, [], ◌∷◌}
use package.text.Mathlib.Text.{find?}
use package.snip36_prover_web.Common.Tests.{leb, nat_beq, ◌==◌, string_eq, if◌then◌else◌}
use package.snip36_prover_web.Common.Text.{◌+++◌}

-- A line that a newline ends, without a carriage return before it.
unfoldable pub without_cr : String → String
without_cr String.[] = ""
without_cr (String.◌∷◌ c s) = elim (nat_beq (code c) 13) [
  | true ↦ elim (s == "") [ true ↦ "" | false ↦ String.◌∷◌ c (without_cr s) ]
  | false ↦ String.◌∷◌ c (without_cr s)
]

-- The lines of the second text; the first is what the current line has so far.
unfoldable pub lines_from : String → String → List String
unfolding without_cr
lines_from line String.[] = if line == "" then [] else line ∷ []
lines_from line (String.◌∷◌ c s) = elim (nat_beq (code c) 10) [
  | true ↦ without_cr line ∷ lines_from "" s
  | false ↦ lines_from (line +++ String.◌∷◌ c String.[]) s
]

unfoldable pub lines : String → List String
unfolding lines_from
lines text = lines_from "" text

-- A text has fewer occurrences than it has bytes, so that its length is enough fuel.
unfoldable pub replace_from : ℕ → String → String → String → String
replace_from zero old new text = text
replace_from (suc fuel) old new text = elim (find? text old) [
  | none ↦ text
  | some i ↦
      slice text 0 i +++ new +++ replace_from fuel old new (slice text (i + len old) (len text))
]

unfoldable pub replace : String → String → String → String
unfolding replace_from
replace old new text = replace_from (len text) old new text

-- `char::is_whitespace`
abbrev is_whitespace : ℕ → Bool
is_whitespace n =
    leb 9 n && leb n 13
    || nat_beq n 32
    || nat_beq n 133
    || nat_beq n 160
    || nat_beq n 5760
    || leb 8192 n && leb n 8202
    || nat_beq n 8232
    || nat_beq n 8233
    || nat_beq n 8239
    || nat_beq n 8287
    || nat_beq n 12288

unfoldable pub trim_start : String → String
trim_start String.[] = ""
trim_start (String.◌∷◌ c s) = elim (is_whitespace (code c)) [
  | true ↦ trim_start s
  | false ↦ String.◌∷◌ c s
]

unfoldable pub trim_end : String → String
trim_end String.[] = ""
trim_end (String.◌∷◌ c s) =
    let rest = trim_end s in if is_whitespace (code c) && rest == "" then "" else String.◌∷◌ c rest

unfoldable pub trim : String → String
unfolding trim_start trim_end
trim text = trim_end (trim_start text)

trim_test : trim " a b\n" ≡ "a b"
unfolding trim
trim_test = refl

lines_test : lines "a\r\n\nb" ≡ "a" ∷ "" ∷ "b" ∷ []
unfolding lines
lines_test = refl

replace_test : replace "_" "[_ ]" "a_b_c" ≡ "a[_ ]b[_ ]c"
unfolding replace
replace_test = refl
