-- ===== src/Config/Origins.antt =====
-- portable-core/starknet_transaction_prover/src/server/cors.rs: what a normalized list of origins is.
use text.Mathlib.TextPositions.{len-append}
use Prim.Native.String.{len}
use snip36_prover_web.Common.{
  String, List, [], ◌∷◌, ◌++◌, Bool, true, false, not, ◌||◌, any, is_empty, ◌==◌, string_eq, eq_iff,
  if◌then◌else◌, Result, ok, ◌≡◌, ◌≢◌, refl, sym, ap, ◌≤◌, ◌∙◌, subst, inl, inr, arith, >>=-eq-ok,
  reject_if, ◌>>◌, map_err, Bool-cases, eq_ne,
}
use snip36_prover_web.Common.Text.{◌+++◌}
use snip36_prover_web.Config.Cors.{
  ConfigError, Url, invalid, is_some, host_text, port_suffix, contains, origin_of,
  normalize_cors_allow_origin, normalize_each, normalize_cors_allow_origins, cors_mode,
}

-- No origin is listed twice.
abbrev pub IsNodup : List String → Type 0
IsNodup [] = Unit
IsNodup (o ∷ rest) = (contains rest o ≡ false) × IsNodup rest

contains-append :
    (xs : List String) (a n : String) → contains (xs ++ a ∷ []) n ≡ (contains xs n || (a == n))
unfolding contains
contains-append [] a n = ground arith
contains-append (x ∷ xs) a n = ground (arith, contains-append xs a n)

IsNodup-append :
    (xs : List String) (a : String) → IsNodup xs → contains xs a ≡ false → IsNodup (xs ++ a ∷ [])
unfolding contains
IsNodup-append [] a h k = (refl, tt)
IsNodup-append (x ∷ xs) a (fresh, h) k = (
  ground (arith, contains-append xs a x, eq_iff x a, eq_iff a x, fresh, k),
  IsNodup-append xs a h (ground arith),
)

not_star : (s t : String) → (4 ≤ len s) → (s +++ t) ≢ "*"
not_star s t h e = omega (arith, len-append s t, ap len e, h)

ok-injective : {a b : String} → ◌≡◌ {A = Result ConfigError String} (ok a) (ok b) → a ≡ b
ok-injective h = cc

-- What passes all four tests passes the first.
guarded :
    (a b c d : Bool) (ea eb ec ed : ConfigError) (r n : String)
    → (reject_if a ea >> (reject_if b eb >> (reject_if c ec >> (reject_if d ed >> ok r)))) ≡ ok n
    → (a ≡ false) × (r ≡ n)
guarded true b c d ea eb ec ed r n h = cc
guarded false true c d ea eb ec ed r n h = cc
guarded false false true d ea eb ec ed r n h = cc
guarded false false false true ea eb ec ed r n h = cc
guarded false false false false ea eb ec ed r n h = (refl, ok-injective h)

scheme_long : (s : String) → not (s == "http" || s == "https") ≡ false → 4 ≤ len s
scheme_long s h = elim (Bool-cases (s == "http")) [
  | inl e ↦ rw ((eq_iff s "http").0 e) (omega arith)
  | inr e ↦ rw ((eq_iff s "https").0 (ground arith)) (omega arith)
]

normalized-not_star : (parsed : Url) (o n : String) → origin_of o parsed ≡ ok n → n ≢ "*"
unfolding origin_of
normalized-not_star parsed o n h star =
    let (scheme, same) =
      guarded (not (parsed.scheme == "http" || parsed.scheme == "https"))
        (not (is_some parsed.host)) (not (parsed.username == "") || is_some parsed.password)
        (not (parsed.path == "/") || is_some parsed.query || is_some parsed.fragment)
        (invalid o "only http:// and https:// are supported.") (invalid o "host is required.")
        (invalid o "userinfo is not supported.")
        (invalid o "must be '*' or '<scheme>://<host>[:port]' without a path, query, or fragment.")
        (parsed.scheme
          +++ "://"
          +++ host_text parsed.host
          +++ port_suffix parsed.scheme parsed.port)
        n h in
    not_star parsed.scheme
      ("://" +++ host_text parsed.host +++ port_suffix parsed.scheme parsed.port)
      (scheme_long parsed.scheme scheme) (same ∙ star)

origin-not_star :
    (parse_url : String → Result String Url) (o n : String)
    → normalize_cors_allow_origin parse_url o ≡ ok n
    → n ≢ "*"
unfolding normalize_cors_allow_origin
origin-not_star parse_url o n h =
    let (parsed, e, k) = >>=-eq-ok (map_err (invalid o) (parse_url o)) (origin_of o) h in
    normalized-not_star parsed o n k

ok-list-injective :
    {a b : List String} → ◌≡◌ {A = Result ConfigError (List String)} (ok a) (ok b) → a ≡ b
ok-list-injective h = cc

allowlist_lem :
    (first : String) (acc : List String) → first ≢ "*" → cors_mode (first ∷ acc) ≡ "allowlist"
unfolding cors_mode
allowlist_lem first [] h = rw (eq_ne first "*" h) refl
allowlist_lem first (a ∷ acc) h = refl

module _ (parse_url : String → Result String Url) where
  -- The list as it is extended by one origin.
  abbrev step : List String → String → List String
  step acc n = if contains acc n then acc else acc ++ n ∷ []

  -- A list whose first origin is not the wildcard keeps it.
  each_mode :
      (first : String) (acc os ns : List String)
      → first ≢ "*"
      → normalize_each parse_url (first ∷ acc) os ≡ ok ns
      → cors_mode ns ≡ "allowlist"
  unfolding normalize_each
  each_mode first acc [] ns h k = rw⁻¹ (ok-list-injective k) (allowlist_lem first acc h)
  each_mode first acc (o ∷ os) ns h k =
      let (n, e, k1) =
        >>=-eq-ok (normalize_cors_allow_origin parse_url o)
          (λ n. normalize_each parse_url (step (first ∷ acc) n) os) k in
      elim (Bool-cases (contains (first ∷ acc) n)) [
        | inl there ↦ each_mode first acc os ns h (rw there at k1)
        | inr new ↦ each_mode first (acc ++ n ∷ []) os ns h (rw new at k1)
      ]

  each-IsNodup :
      (acc os ns : List String) → IsNodup acc → normalize_each parse_url acc os ≡ ok ns → IsNodup ns
  unfolding normalize_each
  each-IsNodup acc [] ns h k = subst IsNodup (ok-list-injective k) h
  each-IsNodup acc (o ∷ os) ns h k =
      let (n, e, k1) =
        >>=-eq-ok (normalize_cors_allow_origin parse_url o)
          (λ n. normalize_each parse_url (step acc n) os) k in
      elim (Bool-cases (contains acc n)) [
        | inl there ↦ each-IsNodup acc os ns h (rw there at k1)
        | inr new ↦ each-IsNodup (acc ++ n ∷ []) os ns (IsNodup-append acc n h new) (rw new at k1)
      ]

  -- The mode of the requested origins, read off before they are normalized.
  abbrev pub requested_mode : List String → String
  requested_mode origins =
      if any (λ origin. origin == "*") origins
      then "wildcard"
      else if is_empty origins
      then "disabled"
      else "allowlist"

  mode_cases :
      (os ns : List String)
      → normalize_each parse_url [] os ≡ ok ns
      → cors_mode ns ≡ (if is_empty os then "disabled" else "allowlist")
  unfolding normalize_each cors_mode contains
  mode_cases [] ns k = rw⁻¹ (ok-list-injective k) refl
  mode_cases (o ∷ os) ns k =
      let (n, e, k1) =
        >>=-eq-ok (normalize_cors_allow_origin parse_url o)
          (λ n. normalize_each parse_url (n ∷ []) os) k in
      each_mode n [] os ns (origin-not_star parse_url o n e) k1

  -- Origins that are normalized put the service in the mode that was asked for: wildcard if * was
  -- among them, disabled if there were none, and an allowlist otherwise. No origin is listed
  -- twice.
  pub normalize_cors_allow_origins_lem :
      (os ns : List String)
      → normalize_cors_allow_origins parse_url os ≡ ok ns
      → (cors_mode ns ≡ requested_mode os) × IsNodup ns
  unfolding normalize_cors_allow_origins contains cors_mode
  normalize_cors_allow_origins_lem os ns k = elim (Bool-cases (any (λ o. o == "*") os)) [
    | inl star ↦
        let same = ok-list-injective (rw star at k) in rw (star, sym same) (refl, (refl, tt))
    | inr plain ↦
        let loop = rw plain at k in rw plain (mode_cases os ns loop, each-IsNodup [] os ns tt loop)
  ]
