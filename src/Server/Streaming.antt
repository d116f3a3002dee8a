-- ===== src/Server/Streaming.antt =====
-- crates/snip36-server/src/routes/coinflip.rs: what the client receives of a flip, with the lines
-- of the prover's process among the events of the task.
use snip36_prover_web.Common.{
  String, true, false, none, some, List, [], ◌∷◌, ◌++◌, ◌≡◌, refl, ap, subst, ◌∙◌, ◌⊎◌, inl, inr,
  Option-cases, All,
}
use snip36_prover_web.Signing.Crates.{Crates}
use snip36_prover_web.Server.Coinflip.{Reveal}
use snip36_prover_web.Server.Task.{
  Event, phase, log, error, result, is_terminal, Streamed, closed, task, stdout_line, stderr_line,
}
use snip36_prover_web.Server.Flip.{FlipWorld}
use snip36_prover_web.Server.Run.{short, run_flip}
use snip36_prover_web.Server.Terminal.{Quiet, run_flip-EndsOnce, run_flip-short}

-- One of the events is terminal: none before it is, and after it come only lines that are logged.
abbrev pub IsLog : Event → Type 0
IsLog (phase p) = ⊥
IsLog (log t) = Unit
IsLog (error d) = ⊥
IsLog (result j) = ⊥

abbrev pub HasOneEnd : List Event → Type 0
HasOneEnd es =
    (before : List Event) × (last : Event) × (after : List Event) × (es ≡ before ++ last ∷ after)
    × (is_terminal last ≡ true)
    × Quiet before
    × All IsLog after

Streamed-none :
    (stream : List Event) (stdout stderr : List String)
    → Streamed [] stdout stderr stream
    → All IsLog stream
Streamed-none _ _ _ closed = tt
Streamed-none _ _ _ (stdout_line line _ stream stdout stderr s) =
    (tt, Streamed-none stream stdout stderr s)
Streamed-none _ _ _ (stderr_line line _ stream stdout stderr s) =
    (tt, Streamed-none stream stdout stderr s)

HasOneEnd-quiet :
    (e : Event) (es : List Event) → is_terminal e ≡ false → HasOneEnd es → HasOneEnd (e ∷ es)
HasOneEnd-quiet e es h (before, last, after, split, t, q, l) =
    (e ∷ before, last, after, ap (◌∷◌ e) split, t, (h, q), l)

no_event : (before : List Event) (last : Event) → [] ≡ before ++ last ∷ [] → ⊥
no_event [] last e = absurd cc
no_event (b ∷ before) last e = absurd cc

event_injective :
    {d e : Event} {ds es : List Event}
    → ◌≡◌ {A = List Event} (d ∷ ds) (e ∷ es)
    → (d ≡ e) × (ds ≡ es)
event_injective h = (cc h, cc h)

-- The first event of the task is the last one, or comes before it.
Streamed-task :
    (last : Event) (t : is_terminal last ≡ true) (before : List Event) (e : Event)
    (sent stream : List Event) (stdout stderr : List String)
    → e ∷ sent ≡ before ++ last ∷ []
    → Quiet before
    → Streamed sent stdout stderr stream
    → ((rest : List Event) → sent ≡ rest ++ last ∷ [] → Quiet rest → HasOneEnd stream)
    → HasOneEnd (e ∷ stream)
Streamed-task last t [] e sent stream stdout stderr split q s more =
    let (same, over) = event_injective split in
    (
      [],
      e,
      stream,
      refl,
      ap is_terminal same ∙ t,
      tt,
      Streamed-none stream stdout stderr (subst (λ es. Streamed es stdout stderr stream) over s),
    )
Streamed-task last t (b ∷ before) e sent stream stdout stderr split (p, q) s more =
    let (same, rest) = event_injective split in
    HasOneEnd-quiet e stream (ap is_terminal same ∙ p) (more before rest q)

Streamed-HasOneEnd :
    (last : Event) (t : is_terminal last ≡ true) (before sent stream : List Event)
    (stdout stderr : List String)
    → sent ≡ before ++ last ∷ []
    → Quiet before
    → Streamed sent stdout stderr stream
    → HasOneEnd stream
Streamed-HasOneEnd last t before _ _ _ _ split q closed = absurd (no_event before last split)
Streamed-HasOneEnd last t before _ _ _ _ split q (task e sent stream stdout stderr s) =
    Streamed-task last t before e sent stream stdout stderr split q s
      (λ rest again quiet. Streamed-HasOneEnd last t rest sent stream stdout stderr again quiet s)
Streamed-HasOneEnd last t before sent _ _ _ split q (stdout_line line _ stream stdout stderr s) =
    HasOneEnd-quiet (log line) stream refl
      (Streamed-HasOneEnd last t before sent stream stdout stderr split q s)
Streamed-HasOneEnd last t before sent _ _ _ split q (stderr_line line _ stream stdout stderr s) =
    HasOneEnd-quiet (log line) stream refl
      (Streamed-HasOneEnd last t before sent stream stdout stderr split q s)

module _ (c : Crates) (w : FlipWorld) (r : Reveal) where
  -- However the lines of the prover's process are mixed with the events of a flip's task, where
  -- the player's text can be cut at 18 bytes the client receives exactly one error or result, and
  -- after it only lines that are logged; where the cut falls inside a character, the task panics
  -- and the client receives logged lines only.
  pub run_flip-HasOneEnd :
      (stdout stderr : List String) (stream : List Event)
      → Streamed (run_flip c w r).events stdout stderr stream
      → ((shown : String) × (short r.player ≡ some shown) × HasOneEnd stream)
        ⊎ ((short r.player ≡ none) × All IsLog stream)
  run_flip-HasOneEnd stdout stderr stream s = elim (Option-cases (short r.player)) [
    | inl cut ↦ inr (
      cut,
      Streamed-none stream stdout stderr
          (subst (λ es. Streamed es stdout stderr stream) (run_flip-short c w r cut) s),
    )
    | inr (shown, cut) ↦
        let (before, last, split, t, q) = run_flip-EndsOnce c w r shown cut in
        inl (shown, cut, Streamed-HasOneEnd last t before _ stream stdout stderr split q s)
  ]
