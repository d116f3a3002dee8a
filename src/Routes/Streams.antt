-- ===== src/Routes/Streams.antt =====
-- The events that a task sends, whatever the state is at each of its accesses.
use snip36_prover_web.Common.{
  ℕ, zero, suc, String, Bool, true, false, Option, List, [], ◌∷◌, Result, ok, err, ◌==◌, string_eq,
  if◌then◌else◌, ltb, Bool-cases, inl, inr,
}
use snip36_prover_web.Common.Json.{Json}
use snip36_prover_web.Rpc.Client.{RpcError, json_rpc}
use snip36_prover_web.Server.State.{AppState, Session}
use snip36_prover_web.Server.Coinflip.{Detail}
use snip36_prover_web.Server.Task.{phase, log, error, result}
use snip36_prover_web.Routes.Program.{
  Program, done, fail, stop, access, emit, ◌>>=◌, or_stop, session_of, update_session,
}
use snip36_prover_web.Routes.Prove.{send_lines}
use snip36_prover_web.Routes.Landing.{attempted, submit_from}

-- Sends nothing more.
abbrev pub IsSilent : {A : Type 0} → Program A → Type 0
IsSilent (done a) = Unit
IsSilent (fail e) = ⊥
IsSilent stop = Unit
IsSilent (access write next) = ⊥
IsSilent (emit e rest) = ⊥

-- Returns at once.
abbrev pub IsStopped : {A : Type 0} → Program A → Type 0
IsStopped (done a) = ⊥
IsStopped (fail e) = ⊥
IsStopped stop = Unit
IsStopped (access write next) = ⊥
IsStopped (emit e rest) = ⊥

-- After an error the task returns, and after a result it is over; without either it may end with a
-- value where `D` holds, and does not return.
abbrev pub Streams : {A : Type 0} → Type 0 → Program A → Type 0
Streams D (done a) = D
Streams D (fail e) = ⊥
Streams D stop = ⊥
Streams D (access write next) = (s : AppState) → Streams D (next s)
Streams D (emit (phase t) rest) = Streams D rest
Streams D (emit (log t) rest) = Streams D rest
Streams D (emit (error d) rest) = IsStopped rest
Streams D (emit (result j) rest) = IsSilent rest × (D → ⊥)

-- Every run of the task sends exactly one error or result, as its last event.
abbrev pub EndsOnce : {A : Type 0} → Program A → Type 0
EndsOnce p = Streams ⊥ p

IsStopped-bind :
    {A B : Type 0} (p : Program A) (next : A → Program B) → IsStopped p → IsStopped (p >>= next)
IsStopped-bind (done a) next h = absurd h
IsStopped-bind (fail e) next h = absurd h
IsStopped-bind stop next h = tt
IsStopped-bind (access write f) next h = absurd h
IsStopped-bind (emit e rest) next h = absurd h

module _ (D : Type 0) where
  pub Streams-bind :
      {A B : Type 0} (p : Program A) (next : A → Program B)
      → Streams Unit p
      → ((a : A) → Streams D (next a))
      → Streams D (p >>= next)
  Streams-bind (done a) next h k = k a
  Streams-bind (fail e) next h k = absurd h
  Streams-bind stop next h k = absurd h
  Streams-bind (access write f) next h k = λ s. Streams-bind (f s) next (h s) k
  Streams-bind (emit (phase t) rest) next h k = Streams-bind rest next h k
  Streams-bind (emit (log t) rest) next h k = Streams-bind rest next h k
  Streams-bind (emit (error d) rest) next h k = IsStopped-bind rest next h
  Streams-bind (emit (result j) rest) next (h, never) k = absurd (never tt)

  module _ {A B : Type 0} where
    pub Streams-or_stop :
        {E : Type 0} (r : Result E A) (d : E → Detail) (next : A → Program B)
        → ((a : A) → Streams D (next a))
        → Streams D (or_stop r d >>= next)
    unfolding or_stop
    Streams-or_stop (ok a) d next h = h a
    Streams-or_stop (err e) d next h = tt

  pub Streams-if :
      {A : Type 0} (b : Bool) (p q : Program A)
      → Streams D p
      → Streams D q
      → Streams D (if b then p else q)
  Streams-if true p q h k = h
  Streams-if false p q h k = k

  module _ {B : Type 0} (id : String) where
    pub Streams-session_of :
        (next : Session → Program B)
        → ((a : Session) → Streams D (next a))
        → Streams D (session_of id >>= next)
    unfolding session_of
    Streams-session_of next h = λ s. h _

    pub Streams-update_session :
        (f : Session → Session) (next : Unit {0} → Program B)
        → Streams D (next tt)
        → Streams D (update_session id f >>= next)
    unfolding update_session
    Streams-update_session f next h = λ s. h

pub Streams-or_stop_last :
    {A E : Type 0} (r : Result E A) (d : E → Detail) → Streams Unit (or_stop r d)
unfolding or_stop
Streams-or_stop_last (ok a) d = tt
Streams-or_stop_last (err e) d = tt

pub Streams-send_lines : (lines : List String) → Streams Unit (send_lines lines)
Streams-send_lines [] = tt
Streams-send_lines (line ∷ lines) = elim (Bool-cases (line == "")) [
  | inl empty ↦ rw (empty, Streams) (Streams-send_lines lines)
  | inr full ↦ rw (full, Streams) (Streams-send_lines lines)
]

pub Streams-submit_from :
    (to_string : Json → String) (node : ℕ → Result RpcError String) (left attempt : ℕ)
    → Streams Unit (submit_from to_string node left attempt)
unfolding submit_from
Streams-submit_from to_string node zero attempt = tt
Streams-submit_from to_string node (suc left) attempt =
    round (node attempt) (submit_from to_string node left (suc attempt))
      (Streams-submit_from to_string node left (suc attempt))
  where
    round :
        (r : Result RpcError String) (rest : Program (Option String))
        → Streams Unit rest
        → Streams Unit (attempted to_string attempt r rest)
    round (ok hash) rest h = tt
    round (err (RpcError.http e)) rest h = tt
    round (err (RpcError.unexpected t e)) rest h = tt
    round (err (RpcError.tx_timeout t n)) rest h = tt
    round (err (RpcError.tx_rejected e)) rest h = tt
    round (err (RpcError.block_timeout a b)) rest h = tt
    round (err (json_rpc msg)) rest h = elim (Bool-cases (ltb attempt 20)) [
      | inl again ↦ rw (again, Streams) h
      | inr over ↦ rw (over, Streams) tt
    ]
