-- ===== src/Server/Task.antt =====
-- crates/snip36-server/src/routes/coinflip.rs: the events that the task spawned by `play_coinflip`
-- streams, and the early returns of the task.
use snip36_prover_web.Common.{
  String, Bool, true, false, Option, none, some, List, [], ◌∷◌, ◌++◌, Result, ok, err,
}
use snip36_prover_web.Common.Json.{Json}
use snip36_prover_web.Server.Coinflip.{Detail}

pub data Event : Type 0 where
  phase : String → Event
  log : String → Event
  error : Detail → Event
  result : Json → Event

-- What a stretch of the task sends, and its value; none after `return` and
-- after a panic.
pub record Ran (A : Type 0) : Type 0 where
  pub events : List Event
  pub value : Option A

abbrev pub pure : {A : Type 0} → A → Ran A
pure a = record { events = []; value = some a }

abbrev pub send : Event → Ran (Unit {0})
send e = record { events = e ∷ []; value = some tt }

-- Several events, one after the other.
abbrev pub sends : List Event → Ran (Unit {0})
sends es = record { events = es; value = some tt }

-- `send("error", ..).await; return;`
abbrev pub fail : {A : Type 0} → Detail → Ran A
fail d = record { events = error d ∷ []; value = none }

abbrev pub after : {A B : Type 0} → List Event → Option A → (A → Ran B) → Ran B
after sent none next = record { events = sent; value = none }
after sent (some a) next = record { events = sent ++ (next a).events; value = (next a).value }

infixl 5 ◌>->◌ ◌>+>◌
abbrev pub ◌>->◌ : {A B : Type 0} → Ran A → (A → Ran B) → Ran B
r >-> next = after r.events r.value next

abbrev pub ◌>+>◌ : {A B : Type 0} → Ran A → Ran B → Ran B
r >+> next = r >-> λ a. next

-- A match that goes on with the value, or fails with a text.
abbrev pub or_fail : {A E : Type 0} → Result E A → (E → Detail) → Ran A
or_fail (ok a) d = pure a
or_fail (err e) d = fail (d e)

-- A value that the task panics without.
abbrev pub or_panic : {A : Type 0} → Option A → Ran A
or_panic none = record { events = []; value = none }
or_panic (some a) = pure a

-- What the client receives where the task sends `sent`, and two readers, which run beside it and
-- are not joined, send the lines that the prover's process writes to stdout and stderr.
pub data Streamed : List Event → List String → List String → List Event → Type 0 where
  closed : Streamed [] [] [] []
  task :
      (e : Event) (sent stream : List Event) (stdout stderr : List String)
      → Streamed sent stdout stderr stream
      → Streamed (e ∷ sent) stdout stderr (e ∷ stream)
  stdout_line :
      (line : String) (sent stream : List Event) (stdout stderr : List String)
      → Streamed sent stdout stderr stream
      → Streamed sent (line ∷ stdout) stderr (log line ∷ stream)
  stderr_line :
      (line : String) (sent stream : List Event) (stdout stderr : List String)
      → Streamed sent stdout stderr stream
      → Streamed sent stdout (line ∷ stderr) (log line ∷ stream)

-- An event after which the task sends nothing.
abbrev pub is_terminal : Event → Bool
is_terminal (phase p) = false
is_terminal (log t) = false
is_terminal (error d) = true
is_terminal (result j) = true
