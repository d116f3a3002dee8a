-- ===== src/Routes/Rules.antt =====
-- Runs that no other handler interrupts, step by step.
use snip36_prover_web.Common.{
  String, some, List, [], ◌∷◌, Result, ok, err, ◌≡◌, refl, subst, ◌==◌, string_eq, Bool-cases, inl,
  inr,
}
use snip36_prover_web.Server.State.{AppState}
use snip36_prover_web.Server.Coinflip.{ErrorResponse, Detail}
use snip36_prover_web.Routes.Program.{Program, ◌>>=◌, try, or_stop, Ran, run}
use snip36_prover_web.Routes.Prove.{send_lines}

-- Where a program succeeds, so did the step before it.
pub try-rule :
    {A B : Type 0} (P : Ran B → Type 0) (r : Result ErrorResponse A) (next : A → Program B)
    (s : AppState) (b : B)
    → (run (try r >>= next) s).value ≡ some (ok b)
    → ((a : A) → (run (next a) s).value ≡ some (ok b) → P (run (next a) s))
    → P (run (try r >>= next) s)
unfolding try
try-rule P (ok a) next s b h k = k a h
try-rule P (err e) next s b h k = absurd (cc h)

pub try_ok :
    {A B : Type 0} (P : AppState → Type 0) (r : Result ErrorResponse A) (a : A)
    (next : A → Program B) (s : AppState)
    → r ≡ ok a
    → P (run (next a) s).state
    → P (run (try r >>= next) s).state
unfolding try
try_ok P (ok b) a next s e h =
    let same : a ≡ b = cc e in subst (λ x. P (run (next x) s).state) same h
try_ok P (err b) a next s e h = absurd (cc e)

-- A match that goes on, and one that returns.
pub or_stop_ok :
    {A B E : Type 0} (P : AppState → Type 0) (r : Result E A) (a : A) (d : E → Detail)
    (next : A → Program B) (s : AppState)
    → r ≡ ok a
    → P (run (next a) s).state
    → P (run (or_stop r d >>= next) s).state
unfolding or_stop
or_stop_ok P (ok b) a d next s e h =
    let same : a ≡ b = cc e in subst (λ x. P (run (next x) s).state) same h
or_stop_ok P (err b) a d next s e h = absurd (cc e)

pub or_stop_err :
    {A B E : Type 0} (P : AppState → Type 0) (r : Result E A) (f : E) (d : E → Detail)
    (next : A → Program B) (s : AppState)
    → r ≡ err f
    → P s
    → P (run (or_stop r d >>= next) s).state
unfolding or_stop
or_stop_err P (ok b) f d next s e h = absurd (cc e)
or_stop_err P (err b) f d next s e h = h

pub send_lines-state :
    (lines : List String) (next : Unit {0} → Program (Unit {0})) (s : AppState)
    → (run (send_lines lines >>= next) s).state ≡ (run (next tt) s).state
send_lines-state [] next s = refl
send_lines-state (line ∷ lines) next s = elim (Bool-cases (line == "")) [
  | inl empty ↦ rw (empty, run) (send_lines-state lines next s)
  | inr full ↦ rw (full, run) (send_lines-state lines next s)
]
