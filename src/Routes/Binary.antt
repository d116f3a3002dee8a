-- ===== src/Routes/Binary.antt =====
-- crates/snip36-server/src/routes/prove_block.rs: `find_snip36_bin`.
use snip36_prover_web.Common.{String, Bool, Option, none, some, List, [], ◌∷◌, if◌then◌else◌}

-- The process's environment, and the file system's paths.
pub record Surroundings : Type 0 where
  pub var : String → Option String
  pub current_exe : Option String
  pub parent : String → Option String
  pub join : String → String → String
  pub exists : String → Bool

module _ (p : Surroundings) where
  -- The candidate, where it exists.
  abbrev existing : Option String → Option String
  existing none = none
  existing (some path) = if p.exists path then some path else none

  abbrev sibling : Option String → Option String
  sibling none = none
  sibling (some exe) = in_dir (p.parent exe)
    where
      in_dir : Option String → Option String
      in_dir none = none
      in_dir (some dir) = some (p.join dir "snip36")

  abbrev in_target : Option String → String → Option String
  in_target none profile = none
  in_target (some manifest_dir) profile =
      some (p.join (p.join (p.join manifest_dir "../../target") profile) "snip36")

  -- The first candidate that there is, or the default.
  abbrev first_or : List (Option String) → String → String
  first_or [] default = default
  first_or (none ∷ rest) default = first_or rest default
  first_or (some path ∷ rest) default = path

  unfoldable pub find_snip36_bin : String
  find_snip36_bin =
      first_or
        (p.var "SNIP36_CLI_BIN"
          ∷ existing (sibling p.current_exe)
          ∷ existing (in_target (p.var "CARGO_MANIFEST_DIR") "release")
          ∷ existing (in_target (p.var "CARGO_MANIFEST_DIR") "debug")
          ∷ [])
        "snip36"
