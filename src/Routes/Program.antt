-- ===== src/Routes/Program.antt =====
-- crates/snip36-server/src/routes: a handler as a program. Between two accesses to the shared
-- state, other handlers run.
use snip36_prover_web.Common.{String, Option, none, some, List, [], ◌∷◌, Result, ok, err}
use snip36_prover_web.Server.State.{AppState, Session, get_session, update_session_with}
use snip36_prover_web.Server.Coinflip.{ErrorResponse, Detail}
use snip36_prover_web.Server.Task.{Event, error}

-- A program ends with a value, with an error response, or, in a spawned task, with `return`. An
-- access reads the state and writes it under one lock; an event is sent to the client.
pub data Program (A : Type 0) : Type 0 where
  done : A → Program A
  fail : ErrorResponse → Program A
  stop : Program A
  access : (AppState → AppState) → (AppState → Program A) → Program A
  emit : Event → Program A → Program A

infixl 5 ◌>>=◌ ◌>>◌
abbrev pub ◌>>=◌ : {A B : Type 0} → Program A → (A → Program B) → Program B
done a >>= f = f a
fail e >>= f = fail e
stop >>= f = stop
access write next >>= f = access write (λ s. next s >>= f)
emit e rest >>= f = emit e (rest >>= f)

abbrev pub ◌>>◌ : {B : Type 0} → Program (Unit {0}) → Program B → Program B
m >> k = m >>= λ _. k

-- `?`
unfoldable pub try : {A : Type 0} → Result ErrorResponse A → Program A
try (ok a) = done a
try (err e) = fail e

abbrev pub send : Event → Program (Unit {0})
send e = emit e (done tt)

-- `send("error", ..).await; return;`
abbrev pub stop_with : {A : Type 0} → Detail → Program A
stop_with d = emit (error d) stop

-- A match that goes on with the value, or sends the error and returns.
unfoldable pub or_stop : {A E : Type 0} → Result E A → (E → Detail) → Program A
or_stop (ok a) d = done a
or_stop (err e) d = stop_with (d e)

unfoldable pub session_of : String → Program Session
unfolding get_session
session_of id = access (λ s. (get_session s id).0) (λ s. done (get_session s id).1)

unfoldable pub update_session : String → (Session → Session) → Program (Unit {0})
unfolding update_session_with
update_session id f = access (λ s. update_session_with s id f) (λ s. done tt)

-- A run that no other handler interrupts.
pub record Ran (A : Type 0) : Type 0 where
  pub state : AppState
  pub events : List Event
  pub value : Option (Result ErrorResponse A)

abbrev pub run : {A : Type 0} → Program A → AppState → Ran A
run (done a) s = record { state = s; events = []; value = some (ok a) }
run (fail e) s = record { state = s; events = []; value = some (err e) }
run stop s = record { state = s; events = []; value = none }
run (access write next) s = run (next s) (write s)
run (emit e rest) s =
    let r = run rest s in record { state = r.state; events = e ∷ r.events; value = r.value }
