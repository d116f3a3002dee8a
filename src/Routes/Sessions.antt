-- ===== src/Routes/Sessions.antt =====
-- crates/snip36-server/src/state.rs: what the session of an id is, and which sessions make sense.
use snip36_prover_web.Common.{
  String, Bool, true, false, Option, none, some, ◌≡◌, refl, sym, ap, ◌∙◌, ◌==◌, string_eq,
  if◌then◌else◌, Bool-cases, inl, inr, subst,
}
use snip36_prover_web.Common.Assoc.{lookup, lookup-insert}
use snip36_prover_web.Server.State.{
  AppState, Session, session_or_default, get_session, update_session_with,
}

unfoldable pub session_at : AppState → String → Session
unfolding lookup
session_at s id = session_or_default (lookup id s.sessions)

abbrev pub is_some : {A : Type 0} → Option A → Bool
is_some none = false
is_some (some a) = true

abbrev pub Has : {A : Type 0} → Option A → Type 0
Has o = is_some o ≡ true

-- A session that the handlers may leave.
pub record IsConsistent (a : Session) : Type 0 where
  pub account : a.account_deployed ≡ true → Has a.account_address
  pub class_of_contract : Has a.contract_address → Has a.class_hash
  pub invoked : Has a.last_invoke_tx → Has a.contract_address × Has a.account_address
  pub included : Has a.invoke_block → Has a.last_invoke_tx
  pub proving : Has a.prove_block → Has a.last_invoke_tx
  pub proved : Has a.proof_file → Has a.prove_block
  pub deployed : Has a.deploy_block → Has a.contract_address
  pub referenced : Has a.last_reference_block → Has a.contract_address

-- What a session has had, it keeps.
pub record Keeps (a b : Session) : Type 0 where
  pub account : Has a.account_address → Has b.account_address
  pub contract : Has a.contract_address → Has b.contract_address
  pub tx : Has a.last_invoke_tx → Has b.last_invoke_tx
  pub block : Has a.prove_block → Has b.prove_block

abbrev pub Consistent : AppState → Type 0
Consistent s = (id : String) → IsConsistent (session_at s id)

abbrev pub Grows : AppState → AppState → Type 0
Grows s t = (id : String) → Keeps (session_at s id) (session_at t id)

pub Keeps-refl : (a : Session) → Keeps a a
Keeps-refl a = record { account = λ h. h; contract = λ h. h; tx = λ h. h; block = λ h. h }

pub Grows-refl : (s : AppState) → Grows s s
Grows-refl s id = Keeps-refl (session_at s id)

pub Grows-trans : (s t u : AppState) → Grows s t → Grows t u → Grows s u
Grows-trans s t u h k id =
    let a = h id in
    let b = k id in
    record {
      account = λ x. b.account (a.account x);
      contract = λ x. b.contract (a.contract x);
      tx = λ x. b.tx (a.tx x);
      block = λ x. b.block (a.block x);
    }

pub session_at-update_session_with :
    (s : AppState) (id other : String) (f : Session → Session)
    → session_at (update_session_with s id f) other
      ≡ (if id == other then f (session_at s id) else session_at s other)
unfolding session_at update_session_with
session_at-update_session_with s id other f =
    ap session_or_default (lookup-insert id other (f (session_at s id)) s.sessions)
    ∙ chosen (id == other)
  where
    chosen :
        (b : Bool)
        → session_or_default (if b then some (f (session_at s id)) else lookup other s.sessions)
          ≡ (if b then f (session_at s id) else session_at s other)
    chosen true = refl
    chosen false = refl

pub session_at-updated :
    (s : AppState) (id : String) (f : Session → Session)
    → session_at (update_session_with s id f) id ≡ f (session_at s id)
session_at-updated s id f =
    session_at-update_session_with s id id f ∙ rw ((string_eq.beq_iff id id).1 refl) refl

-- An update keeps the state consistent, and what sessions have, where it does so for its session.
pub update_session_with-Consistent :
    (s : AppState) (id : String) (f : Session → Session)
    → Consistent s
    → IsConsistent (f (session_at s id))
    → Keeps (session_at s id) (f (session_at s id))
    → Consistent (update_session_with s id f) × Grows s (update_session_with s id f)
update_session_with-Consistent s id f h c k = (
  (λ other.
      subst IsConsistent (sym (session_at-update_session_with s id other f))
        (elim (Bool-cases (id == other)) [
          | inl same ↦ rw same c
          | inr different ↦ rw different (h other)
        ])),
  (λ other.
      subst (Keeps (session_at s other)) (sym (session_at-update_session_with s id other f))
        (elim (Bool-cases (id == other)) [
          | inl same ↦ rw same (
              subst (λ o. Keeps (session_at s o) (f (session_at s id)))
                ((string_eq.beq_iff id other).0 same) k)
          | inr different ↦ rw different (Keeps-refl (session_at s other))
        ])),
)

-- Reading a session is an update that changes nothing.
pub get_session-Consistent :
    (s : AppState) (id : String)
    → Consistent s
    → Consistent (get_session s id).0 × Grows s (get_session s id).0
unfolding get_session update_session_with session_at
get_session-Consistent s id h =
    update_session_with-Consistent s id (λ a. a) h (h id) (Keeps-refl (session_at s id))

-- A write that leaves the sessions alone.
pub same_sessions :
    (s t : AppState) → s.sessions ≡ t.sessions → Consistent s → Consistent t × Grows s t × Unit {0}
unfolding session_at
same_sessions s t e h = (
  (λ id. subst (λ m. IsConsistent (session_or_default (lookup id m))) e (h id)),
  (λ id.
      subst (λ m. Keeps (session_at s id) (session_or_default (lookup id m))) e
        (Keeps-refl (session_at s id))),
  tt,
)
