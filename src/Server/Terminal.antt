-- ===== src/Server/Terminal.antt =====
-- crates/snip36-server/src/routes/coinflip.rs: the events that the task itself sends end with an
-- error or a result, unless it panics.
use snip36_prover_web.Common.{
  ℕ, zero, suc, String, Bool, true, false, Option, none, some, List, [], ◌∷◌, ◌++◌, Result, ok, err,
  traverse, ◌≡◌, refl, sym, append_assoc, inl, inr, All, All-append, Bool-cases, if◌then◌else◌, ltb,
  ◌&&◌,
}
use snip36_prover_web.Common.Json.{Json, Items, no_items, item, get}
use snip36_prover_web.Signing.Crates.{Crates}
use snip36_prover_web.Server.Coinflip.{Detail, text, Reveal}
use snip36_prover_web.Server.Task.{
  Event, phase, log, error, result, Ran, pure, send, sends, fail, after, ◌>->◌, or_fail,
  is_terminal,
}
use snip36_prover_web.Server.Flip.{
  FlipWorld, is_received, is_not_ready, attempted, submit_from, submit,
}
use snip36_prover_web.Server.Run.{
  construct, prove, submit_proof, verify, run_flip, Constructed, parse_settlement, settled_by,
  gateway_or_fail, submit_signed, params_of, calldata_strs, result_json, payload_of, first_message,
  as_array_of, short,
}
use snip36_prover_web.Rpc.Client.{texts}
use snip36_prover_web.Common.Text.{◌+++◌, decimal}
use snip36_prover_web.Proofs.Types.{Felt}
use snip36_prover_web.Signing.Payload.{felt_from_hex, sign, sign_and_build_payload}

-- None of the events is terminal.
abbrev pub Quiet : List Event → Type 0
Quiet = All (λ e. is_terminal e ≡ false)

-- The events end with an error exactly where there is no value.
abbrev pub Ends : {A : Type 0} → List Event → Option A → Type 0
Ends es (some a) = Quiet es
Ends es none = (before : List Event) × (d : Detail) × (es ≡ before ++ error d ∷ []) × Quiet before

abbrev pub IsClean : {A : Type 0} → Ran A → Type 0
IsClean r = Ends r.events r.value

Clean-pure : {A : Type 0} (a : A) → IsClean (pure a)
Clean-pure a = tt

Clean-log : (t : String) → IsClean (send (log t))
Clean-log t = (refl, tt)

Clean-phase : (t : String) → IsClean (send (phase t))
Clean-phase t = (refl, tt)

Clean-fail : (A : Type 0) (d : Detail) → IsClean (fail {A = A} d)
Clean-fail A d = ([], d, refl, tt)

Ends-append :
    {B : Type 0} (es fs : List Event) (v : Option B) → Quiet es → Ends fs v → Ends (es ++ fs) v
Ends-append es fs (some b) h q = All-append (λ e. is_terminal e ≡ false) es fs h q
Ends-append es fs none h (before, d, e, q) = (
  es ++ before,
  d,
  rw e (sym (append_assoc es before (error d ∷ []))),
  All-append (λ e. is_terminal e ≡ false) es before h q,
)

Clean-after :
    {A B : Type 0} (es : List Event) (v : Option A) (next : A → Ran B)
    → Ends es v
    → ((a : A) → IsClean (next a))
    → Ends (after es v next).events (after es v next).value
Clean-after es none next h k = h
Clean-after es (some a) next h k = Ends-append es (next a).events (next a).value h (k a)

Clean-bind :
    {A B : Type 0} (r : Ran A) (next : A → Ran B)
    → IsClean r
    → ((a : A) → IsClean (next a))
    → IsClean (r >-> next)
Clean-bind r next h k = Clean-after r.events r.value next h k

Clean-or_fail : {A E : Type 0} (r : Result E A) (d : E → Detail) → IsClean (or_fail r d)
Clean-or_fail (ok a) d = tt
Clean-or_fail (err e) d = ([], d e, refl, tt)

Clean-if :
    {A : Type 0} (b : Bool) (r s : Ran A) → IsClean r → IsClean s → IsClean (if b then r else s)
Clean-if true r s h k = h
Clean-if false r s h k = k

Clean-attempted :
    (attempt : ℕ) (a : Result String (Result String Json)) (rest : Ran Bool)
    → IsClean rest
    → IsClean (attempted attempt a rest)
Clean-attempted attempt (err e) rest h = ([], _, refl, tt)
Clean-attempted attempt (ok (err e)) rest h = ([], _, refl, tt)
Clean-attempted attempt (ok (ok body)) rest h = elim (Bool-cases (is_received body)) [
  | inl taken ↦ rw taken (refl, tt)
  | inr refused ↦ elim (Bool-cases (is_not_ready body && ltb attempt 20)) [
    | inl again ↦ rw (refused, again) (Ends-append (_ ∷ []) rest.events rest.value (refl, tt) h)
    | inr over ↦ rw (refused, over) ([], _, refl, tt)
  ]
]

Clean-submit_from :
    (gateway : ℕ → Result String (Result String Json)) (left attempt : ℕ)
    → IsClean (submit_from gateway left attempt)
unfolding submit_from
Clean-submit_from gateway zero attempt = tt
Clean-submit_from gateway (suc left) attempt =
    Clean-attempted attempt (gateway attempt) _ (Clean-submit_from gateway left (suc attempt))

Clean-submit : (gateway : ℕ → Result String (Result String Json)) → IsClean (submit gateway)
unfolding submit
Clean-submit gateway =
    Clean-bind (submit_from gateway 20 1) _ (Clean-submit_from gateway 20 1) (λ accepted.
      Clean-if accepted (pure tt) (fail (text "Not accepted after all retries")) tt
        (Clean-fail (Unit {0}) _))

Clean-settled_by : (fields : List String) → IsClean (settled_by fields)
Clean-settled_by [] = tt
Clean-settled_by (a ∷ []) = tt
Clean-settled_by (a ∷ b ∷ []) = tt
Clean-settled_by (a ∷ b ∷ c ∷ []) = tt
Clean-settled_by (a ∷ b ∷ c ∷ d ∷ []) = tt
Clean-settled_by (a ∷ b ∷ c ∷ d ∷ e ∷ rest) = (refl, tt)

Clean-payload_of : (o : Option Items) → IsClean (payload_of o)
Clean-payload_of none = tt
Clean-payload_of (some fields) = Clean-settled_by (texts fields)

Clean-first_message : (o : Option Items) → IsClean (first_message o)
Clean-first_message none = tt
Clean-first_message (some no_items) = tt
Clean-first_message (some (item first rest)) = Clean-payload_of (as_array_of (get "payload" first))

Clean-parse_settlement : (o : Option Json) → IsClean (parse_settlement o)
unfolding parse_settlement
Clean-parse_settlement none = tt
Clean-parse_settlement (some messages) =
    Clean-first_message (as_array_of (get "l2_to_l1_messages" messages))

or_fail_then :
    {A B E : Type 0} (m : Result E A) (d : E → Detail) (next : A → Ran B)
    → ((a : A) → IsClean (next a))
    → IsClean (or_fail m d >-> next)
or_fail_then (ok a) d next h = h a
or_fail_then (err e) d next h = ([], d e, refl, tt)

module _ (c : Crates) (w : FlipWorld) (r : Reveal) where
  Clean-verify : (tx_hash : String) → IsClean (verify c w r tx_hash)
  unfolding verify
  Clean-verify tx_hash =
      Ends-append (_ ∷ _ ∷ []) _ _ (refl, (refl, tt))
        (or_fail_then (w.wait_for_tx tx_hash) _ _ (λ receipt. (refl, tt)))

  Clean-prove : IsClean (prove c w r)
  unfolding prove
  Clean-prove = Ends-append (_ ∷ _ ∷ []) _ _ (refl, (refl, tt)) (or_fail_then w.prover _ _ finished)
    where
      finished :
          (success : Bool)
          → IsClean (
              (if success then pure tt else fail (text "Proof generation failed")) >-> λ u.
              sends (log ("Proof generated (" +++ decimal w.proof_size +++ " bytes)") ∷ []) >-> λ u.
              parse_settlement w.messages)
      finished true = Ends-append (_ ∷ []) _ _ (refl, tt) (Clean-parse_settlement w.messages)
      finished false = ([], _, refl, tt)

  Clean-construct : (shown : String) → short r.player ≡ some shown → IsClean (construct c w r)
  unfolding construct
  Clean-construct shown cut = rw cut (
      Ends-append (_ ∷ _ ∷ []) _ _ (refl, (refl, tt))
        (or_fail_then (traverse (felt_from_hex c) (calldata_strs c w r)) _ _ λ calldata.
          or_fail_then (felt_from_hex c w.account_address) _ _ λ sender.
            or_fail_then (felt_from_hex c w.private_key) _ _ λ private_key.
              or_fail_then w.chain_id _ _ λ chain_id. or_fail_then w.nonce _ _ λ nonce.
                or_fail_then (sign c private_key _) _ _
                  λ sig. or_fail_then (w.write_transaction _) _ _ λ u. (refl, tt)))

  Clean-gateway : (url : Option String) → IsClean (gateway_or_fail url)
  Clean-gateway none = ([], _, refl, tt)
  Clean-gateway (some url) = tt

  Clean-submit_signed : (signed : Felt × Json) → IsClean (submit_signed c w r signed)
  unfolding submit_signed
  Clean-submit_signed (gw_tx_hash, payload) =
      Clean-bind (gateway_or_fail w.gateway_url) _ (Clean-gateway w.gateway_url) λ u.
        Ends-append (log _ ∷ []) _ _ (refl, tt)
          (Clean-bind (submit (w.gateway payload)) (λ u. pure (c.felt_hex gw_tx_hash))
            (Clean-submit (w.gateway payload)) λ u. tt)

  Clean-submit_proof : (t : Constructed) → IsClean (submit_proof c w r t)
  unfolding submit_proof
  Clean-submit_proof t =
      Ends-append (phase "submitting" ∷ []) _ _ (refl, tt)
        (or_fail_then w.proof _ _ λ proof_b64. or_fail_then w.proof_facts _ _ λ facts_text.
          or_fail_then (w.parse_proof_facts_json facts_text) _ _ λ facts_hex.
            or_fail_then (traverse (felt_from_hex c) facts_hex) _ _ λ facts.
              or_fail_then (sign_and_build_payload c (params_of c w r t proof_b64 facts)) _
                (submit_signed c w r) Clean-submit_signed)

-- The events before the last are not terminal, and the last is.
abbrev pub EndsOnce : List Event → Type 0
EndsOnce es =
    (before : List Event) × (last : Event) × (es ≡ before ++ last ∷ [])
    × (is_terminal last ≡ true)
    × Quiet before

EndsOnce-append : (es fs : List Event) → Quiet es → EndsOnce fs → EndsOnce (es ++ fs)
EndsOnce-append es fs h (before, last, e, t, q) = (
  es ++ before,
  last,
  rw e (sym (append_assoc es before (last ∷ []))),
  t,
  All-append (λ e. is_terminal e ≡ false) es before h q,
)

EndsOnce-after :
    {A B : Type 0} (es : List Event) (v : Option A) (next : A → Ran B)
    → Ends es v
    → ((a : A) → EndsOnce (next a).events)
    → EndsOnce (after es v next).events
EndsOnce-after es none next (before, d, e, q) k = (before, error d, e, refl, q)
EndsOnce-after es (some a) next h k = EndsOnce-append es (next a).events h (k a)

EndsOnce-bind :
    {A B : Type 0} (r : Ran A) (next : A → Ran B)
    → IsClean r
    → ((a : A) → EndsOnce (next a).events)
    → EndsOnce (r >-> next).events
EndsOnce-bind r next h k = EndsOnce-after r.events r.value next h k

module _ (c : Crates) (w : FlipWorld) (r : Reveal) where
  pub run_flip-EndsOnce :
      (shown : String) → short r.player ≡ some shown → EndsOnce (run_flip c w r).events
  unfolding run_flip
  run_flip-EndsOnce shown cut =
      EndsOnce-bind (construct c w r) _ (Clean-construct c w r shown cut) λ t.
        EndsOnce-bind (prove c w r) _ (Clean-prove c w r) λ s.
          EndsOnce-bind (submit_proof c w r t) _ (Clean-submit_proof c w r t) λ h.
            EndsOnce-bind (verify c w r h) _ (Clean-verify c w r h)
              λ u. ([], result (result_json c w r s h), refl, refl, tt)

  pub run_flip-short : short r.player ≡ none → (run_flip c w r).events ≡ []
  unfolding run_flip construct
  run_flip-short cut = rw cut refl
