-- ===== src/Signing/Signed.antt =====
-- crates/snip36-pure/src/signing.rs: the signed builders against the unsigned ones.
use snip36_prover_web.Common.{
  String, Result, ok, err, ◌≡◌, refl, ◌>>=◌, ◌∙◌, map_err, traverse, ap, if◌then◌else◌, ◌==◌,
  string_eq,
}
use snip36_prover_web.Common.Json.{Json, Fields, no_fields, field, array, no_items, object}
use snip36_prover_web.Signing.Types.{
  PayloadInput, UnsignedPayloadInput, TransactionInput, UnsignedTransactionInput, BuiltOutput,
}
use snip36_prover_web.Signing.Crates.{Crates, Signature}
use snip36_prover_web.Signing.Payload.{
  build_transaction_from_json, build_unsigned_transaction_from_json, build_payload_from_json,
  build_unsigned_payload_from_json, sign_and_build_payload, invoke_fields, felt_from_hex, sign,
  SignError, sign_error_text,
}
use snip36_prover_web.Proofs.Types.{Felt}

-- The input of the unsigned builder: everything but the key.
abbrev pub without_key : PayloadInput → UnsignedPayloadInput
without_key i = record {
  sender_address = i.sender_address;
  calldata = i.calldata;
  proof_base64 = i.proof_base64;
  proof_facts = i.proof_facts;
  nonce = i.nonce;
  chain_id = i.chain_id;
  resource_bounds = i.resource_bounds;
}

abbrev pub transaction_without_key : TransactionInput → UnsignedTransactionInput
transaction_without_key i = record {
  sender_address = i.sender_address;
  calldata = i.calldata;
  nonce = i.nonce;
  chain_id = i.chain_id;
  resource_bounds = i.resource_bounds;
}

-- A wallet's answer put into the body that it was asked to sign.
abbrev pub set_signature : Json → Fields → Fields
set_signature s no_fields = no_fields
set_signature s (field k v rest) =
    field k (if k == "signature" then s else v) (set_signature s rest)

abbrev blank : Json → Json
blank (object fs) = object (set_signature (array no_items) fs)
blank v = v

abbrev pub unsign : BuiltOutput → BuiltOutput
unsign o = record { tx_hash = o.tx_hash; body = blank o.body }

-- A chain of four reads and the same chain with one more read in second place.
module _ {E K A B C D O : Type 0} (u : O → O) where
  skip_key :
      (ra : Result E A) (rk : Result E K) (rb : Result E B) (rc : Result E C) (rd : Result E D)
      (F : A → K → B → C → D → Result E O) (G : A → B → C → D → Result E O)
      → ((a : A) (k : K) (b : B) (c : C) (d : D) (o : O)
          → F a k b c d ≡ ok o
          → G a b c d ≡ ok (u o))
      → (o : O) → (ra >>= λ a. rk >>= λ k. rb >>= λ b. rc >>= λ c. rd >>= λ d. F a k b c d) ≡ ok o
      → (ra >>= λ a. rb >>= λ b. rc >>= λ c. rd >>= λ d. G a b c d) ≡ ok (u o)
  skip_key (err e) rk rb rc rd F G step o h = cc
  skip_key (ok a) (err e) rb rc rd F G step o h = cc
  skip_key (ok a) (ok k) (err e) rc rd F G step o h = cc
  skip_key (ok a) (ok k) (ok b) (err e) rd F G step o h = cc
  skip_key (ok a) (ok k) (ok b) (ok c) (err e) F G step o h = cc
  skip_key (ok a) (ok k) (ok b) (ok c) (ok d) F G step o h = step a k b c d o h

ready : Unit {0}
ready = tt

-- The same for a chain of three.
module _ {E K A B D O : Type 0} (u : O → O) where
  skip_key_short :
      (ra : Result E A) (rk : Result E K) (rb : Result E B) (rd : Result E D)
      (F : A → K → B → D → Result E O) (G : A → B → D → Result E O)
      → ((a : A) (k : K) (b : B) (d : D) (o : O) → F a k b d ≡ ok o → G a b d ≡ ok (u o))
      → (o : O) → (ra >>= λ a. rk >>= λ k. rb >>= λ b. rd >>= λ d. F a k b d) ≡ ok o
      → (ra >>= λ a. rb >>= λ b. rd >>= λ d. G a b d) ≡ ok (u o)
  skip_key_short ra rk rb rd F G step =
      skip_key u ra rk rb (ok ready) rd (λ a k b c d. F a k b d) (λ a b c d. G a b d)
        (λ a k b c d. step a k b d)

ok-injective : {A : Type 0} {a b : A} → ◌≡◌ {A = Result String A} (ok a) (ok b) → a ≡ b
ok-injective h = cc

-- A signed payload or transaction without its signature is the unsigned one.
unsign_step :
    (r : Result SignError Signature) (f : Signature → BuiltOutput) (g o : BuiltOutput)
    → ((s : Signature) → g ≡ unsign (f s))
    → (map_err sign_error_text r >>= λ s. ok (f s)) ≡ ok o
    → ◌≡◌ {A = Result String BuiltOutput} (ok g) (ok (unsign o))
unsign_step (err e) f g o same h = cc
unsign_step (ok s) f g o same h = ap ok (same s ∙ ap unsign (ok-injective h))

unsign_pair_step :
    (r : Result SignError Signature) (hash : Felt) (text : Felt → String) (f : Signature → Json)
    (g o : BuiltOutput)
    → ((s : Signature) → g ≡ unsign (record { tx_hash = text hash; body = f s }))
    → (map_err sign_error_text (r >>= λ s. ok (hash, f s)) >>= λ (h, p).
        ok (record { tx_hash = text h; body = p }))
      ≡ ok o
    → ◌≡◌ {A = Result String BuiltOutput} (ok g) (ok (unsign o))
unsign_pair_step (err e) hash text f g o same h = cc
unsign_pair_step (ok s) hash text f g o same h = ap ok (same s ∙ ap unsign (ok-injective h))

-- Where the signed transaction is built, the unsigned transaction of the same input is built too:
-- with the same transaction hash, and with the same body except for an empty signature.
pub build_transaction-unsigned :
    (c : Crates) (i : TransactionInput) (out : BuiltOutput)
    → build_transaction_from_json c i ≡ ok out
    → build_unsigned_transaction_from_json c (transaction_without_key i) ≡ ok (unsign out)
unfolding build_transaction_from_json build_unsigned_transaction_from_json invoke_fields
build_transaction-unsigned c i out h =
    skip_key_short unsign (felt_from_hex c i.sender_address) (felt_from_hex c i.private_key)
      (traverse (felt_from_hex c) i.calldata) (felt_from_hex c i.nonce) _ _
      (λ a k b d o. unsign_step (sign c k _) _ _ o (λ s. refl)) out h

-- Where the signed payload is built, the unsigned payload of the same input is built too: with the
-- same transaction hash, and with the same body except for an empty signature.
pub build_payload-unsigned :
    (c : Crates) (i : PayloadInput) (out : BuiltOutput)
    → build_payload_from_json c i ≡ ok out
    → build_unsigned_payload_from_json c (without_key i) ≡ ok (unsign out)
unfolding build_payload_from_json build_unsigned_payload_from_json sign_and_build_payload
    invoke_fields
build_payload-unsigned c i out h =
    skip_key unsign (felt_from_hex c i.sender_address) (felt_from_hex c i.private_key)
      (traverse (felt_from_hex c) i.calldata) (traverse (felt_from_hex c) i.proof_facts)
      (felt_from_hex c i.nonce) _ _
      (λ a k b f d o. unsign_pair_step (sign c k _) _ c.felt_hex _ _ o (λ s. refl)) out h
