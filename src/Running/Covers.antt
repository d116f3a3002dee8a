-- ===== src/Running/Covers.antt =====
-- classes_provider.rs: the classes that a successful fetch provides.
use snip36_prover_web.Common.{
  String, some, none, List, [], ◌∷◌, Result, ok, ◌≡◌, ◌≢◌, refl, sym, ap, ◌∙◌, All, nat_eq, nat_beq,
  nat_beq_iff, Bool-cases, inl, inr, Result-cases, >>=-eq-ok, arith,
}
use snip36_prover_web.Common.Assoc.{lookup, insert, lookup-insert, IsKeyed, IsKeyed-insert}
use snip36_prover_web.Proofs.Types.{Felt}
use snip36_prover_web.Running.Errors.{ClassesProviderError}
use snip36_prover_web.Running.Classes.{
  ClassManager, CasmContractClass, ClassesInput, fetch_class, collect_classes, fetched, joined,
  get_classes,
}

module _ {H G L E : Type 0} (to_casm_hints : H → Result String G) (m : ClassManager H L E) where
  abbrev pub Casm : Type 0
  Casm = CasmContractClass G L E

  abbrev pub fetch : Felt → Result ClassesProviderError (Felt × Casm)
  fetch = fetch_class to_casm_hints m

  -- The class is fetched, and both maps have it.
  pub record Provides (classes : ClassesInput Casm) (h : Felt) : Type 0 where
    pub compiled_class_hash : Felt
    pub casm : Casm
    pub is_fetched : fetch h ≡ ok (compiled_class_hash, casm)
    pub is_mapped : lookup h classes.class_hash_to_compiled_class_hash ≡ some compiled_class_hash
    pub is_compiled : lookup compiled_class_hash classes.compiled_classes ≢ none

  abbrev with_class : Felt → Felt × Casm → ClassesInput Casm → ClassesInput Casm
  with_class h (c, casm) maps = record {
    compiled_classes = insert c casm maps.compiled_classes;
    class_hash_to_compiled_class_hash = insert h c maps.class_hash_to_compiled_class_hash;
  }

  with_class-Provides :
      (h : Felt) (p : Felt × Casm) (maps : ClassesInput Casm)
      → fetch h ≡ ok p
      → Provides (with_class h p maps) h
  with_class-Provides h (c, casm) maps e = record {
    compiled_class_hash = c;
    casm = casm;
    is_fetched = e;
    is_mapped = lookup-insert h h c _ ∙ rw ((nat_beq_iff h h).1 refl) refl;
    is_compiled = λ n. let q = lookup-insert c c casm maps.compiled_classes in ground (arith, n, q);
  }

  -- A class that the maps provide is still provided after another is added.
  Provides-with_class :
      (h x : Felt) (p : Felt × Casm) (maps : ClassesInput Casm)
      → fetch x ≡ ok p
      → Provides maps h
      → Provides (with_class x p maps) h
  Provides-with_class h x (c, casm) maps e k = record {
    compiled_class_hash = k.compiled_class_hash;
    casm = k.casm;
    is_fetched = k.is_fetched;
    is_mapped = elim (Bool-cases (nat_beq x h)) [
      | inl same ↦
          let q : x ≡ h = (nat_beq_iff x h).0 same in
          let r : c ≡ k.compiled_class_hash = cc (k.is_fetched, e, q) in
          lookup-insert x h c _ ∙ rw same (ap some r)
      | inr other ↦ lookup-insert x h c _ ∙ rw other k.is_mapped
    ];
    is_compiled = λ n.
        let q = lookup-insert c k.compiled_class_hash casm maps.compiled_classes in
        let before = k.is_compiled in ground (arith, n, q, before);
  }

  module _ (classes : ClassesInput Casm) where
    collects :
        (hs : List Felt) (maps : ClassesInput Casm) (h : Felt)
        → collect_classes (fetched to_casm_hints m hs) maps ≡ ok classes
        → Provides maps h
        → Provides classes h
    unfolding collect_classes
    collects [] maps h e k = let q : maps ≡ classes = cc e in rw (sym q) k
    collects (x ∷ xs) maps h e k = elim (Result-cases (fetch x)) [
      | inl (p, f) ↦
          collects xs (with_class x p maps) h (rw f at e) (Provides-with_class h x p maps f k)
      | inr (error, f) ↦ absurd (cc (rw f at e))
    ]

    collect_classes-Provides :
        (hs : List Felt) (maps : ClassesInput Casm)
        → collect_classes (fetched to_casm_hints m hs) maps ≡ ok classes
        → All (Provides classes) hs
    unfolding collect_classes
    collect_classes-Provides [] maps e = tt
    collect_classes-Provides (x ∷ xs) maps e = elim (Result-cases (fetch x)) [
      | inl (p, f) ↦ (
        collects xs (with_class x p maps) x (rw f at e) (with_class-Provides x p maps f),
        collect_classes-Provides xs (with_class x p maps) (rw f at e),
      )
      | inr (error, f) ↦ absurd (cc (rw f at e))
    ]

    IsKeyed-collects :
        (hs : List Felt) (maps : ClassesInput Casm)
        → IsKeyed maps.class_hash_to_compiled_class_hash
        → collect_classes (fetched to_casm_hints m hs) maps ≡ ok classes
        → IsKeyed classes.class_hash_to_compiled_class_hash
    unfolding collect_classes
    IsKeyed-collects [] maps h e = let q : maps ≡ classes = cc e in rw (sym q) h
    IsKeyed-collects (x ∷ xs) maps h e = elim (Result-cases (fetch x)) [
      | inl (p, f) ↦
          IsKeyed-collects xs (with_class x p maps) (IsKeyed-insert x p.0 _ h) (rw f at e)
      | inr (error, f) ↦ absurd (cc (rw f at e))
    ]

    abbrev no_classes : ClassesInput Casm
    no_classes = record { compiled_classes = []; class_hash_to_compiled_class_hash = [] }

    -- Where the classes are collected, every executed class is a Cairo 1 class that was fetched.
    pub get_classes-Provides :
        (hs : List Felt)
        → get_classes to_casm_hints m hs ≡ ok classes
        → All (Provides classes) hs × IsKeyed classes.class_hash_to_compiled_class_hash
    unfolding get_classes
    get_classes-Provides hs e =
        let (u, running, collected) = >>=-eq-ok (joined m.join_error) _ e in
        (
          collect_classes-Provides hs no_classes collected,
          IsKeyed-collects hs no_classes tt collected,
        )
