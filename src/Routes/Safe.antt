-- ===== src/Routes/Safe.antt =====
-- A handler that keeps the sessions consistent, whatever the others do between its moves.
use snip36_prover_web.Common.{String, Result, ok, err, ◌≡◌, refl}
use snip36_prover_web.Server.State.{AppState, Session, get_session, update_session_with}
use snip36_prover_web.Server.Coinflip.{ErrorResponse, Detail}
use snip36_prover_web.Routes.Program.{
  Program, done, fail, stop, access, emit, ◌>>=◌, try, or_stop, session_of, update_session,
}
use snip36_prover_web.Routes.Sessions.{
  session_at, session_at-updated, IsConsistent, Keeps, Consistent, Grows, Grows-refl, Grows-trans,
  update_session_with-Consistent, get_session-Consistent,
}

-- From `s` on, every access finds a consistent state that has grown from the last one.
abbrev pub Safe : {A : Type 0} → AppState → Program A → Type 0
Safe s (done a) = Unit
Safe s (fail e) = Unit
Safe s stop = Unit
Safe s (emit e rest) = Safe s rest
Safe s (access write next) =
    (t : AppState)
    → Grows s t
    → Consistent t
    → Consistent (write t) × Grows t (write t) × Safe (write t) (next t)

pub Safe-Grows : {A : Type 0} (p : Program A) (s t : AppState) → Grows s t → Safe s p → Safe t p
Safe-Grows (done a) s t g h = tt
Safe-Grows (fail e) s t g h = tt
Safe-Grows stop s t g h = tt
Safe-Grows (emit e rest) s t g h = Safe-Grows rest s t g h
Safe-Grows (access write next) s t g h = λ u k c. h u (Grows-trans s t u g k) c

pub Safe-bind :
    {A B : Type 0} (p : Program A) (next : A → Program B) (s : AppState)
    → Safe s p
    → ((t : AppState) (a : A) → Grows s t → Safe t (next a))
    → Safe s (p >>= next)
Safe-bind (done a) next s h k = k s a (Grows-refl s)
Safe-bind (fail e) next s h k = tt
Safe-bind stop next s h k = tt
Safe-bind (emit e rest) next s h k = Safe-bind rest next s h k
Safe-bind (access write f) next s h k = λ t g c.
    let (d, u, rest) = h t g c in
    (
      d,
      u,
      Safe-bind (f t) next (write t) rest
          λ v a i. k v a (Grows-trans s (write t) v (Grows-trans s t (write t) g u) i),
    )

module _ {A B : Type 0} (s : AppState) where
  pub Safe-try :
      (r : Result ErrorResponse A) (next : A → Program B)
      → ((a : A) → r ≡ ok a → Safe s (next a))
      → Safe s (try r >>= next)
  unfolding try
  Safe-try (ok a) next h = h a refl
  Safe-try (err e) next h = tt

  pub Safe-or_stop :
      {E : Type 0} (r : Result E A) (d : E → Detail) (next : A → Program B)
      → ((a : A) → r ≡ ok a → Safe s (next a))
      → Safe s (or_stop r d >>= next)
  unfolding or_stop
  Safe-or_stop (ok a) d next h = h a refl
  Safe-or_stop (err e) d next h = tt

pub Safe-or_stop_last :
    {A E : Type 0} (s : AppState) (r : Result E A) (d : E → Detail) → Safe s (or_stop r d)
unfolding or_stop
Safe-or_stop_last s (ok a) d = tt
Safe-or_stop_last s (err e) d = tt

module _ (s : AppState) (id : String) where
  pub Safe-session_of :
      {B : Type 0} (next : Session → Program B)
      → ((t u : AppState) → Grows s t → Grows t u → Consistent t → Safe u (next (session_at t id)))
      → Safe s (session_of id >>= next)
  unfolding session_of session_at get_session
  Safe-session_of next h =
      λ t g c. let (d, u) = get_session-Consistent t id c in (d, u, h t (get_session t id).0 g u c)

  pub Safe-update_session :
      {B : Type 0} (f : Session → Session) (next : Unit {0} → Program B)
      → ((t : AppState)
          → Grows s t
          → Consistent t
          → IsConsistent (f (session_at t id)) × Keeps (session_at t id) (f (session_at t id)))
      → ((t u : AppState) → Grows s u → session_at u id ≡ f (session_at t id) → Safe u (next tt))
      → Safe s (update_session id f >>= next)
  unfolding update_session
  Safe-update_session f next h k = λ t g c.
      let (e, i) = h t g c in
      let (d, u) = update_session_with-Consistent t id f c e i in
      let v = update_session_with t id f in
      (d, u, k t v (Grows-trans s t v g u) (session_at-updated t id f))

  pub Safe-update_last :
      (f : Session → Session)
      → ((t : AppState)
          → Grows s t
          → Consistent t
          → IsConsistent (f (session_at t id)) × Keeps (session_at t id) (f (session_at t id)))
      → Safe s (update_session id f)
  unfolding update_session
  Safe-update_last f h = λ t g c.
      let (e, i) = h t g c in let (d, u) = update_session_with-Consistent t id f c e i in (d, u, tt)
