-- ===== src/Routes/World.antt =====
-- What the handlers call: sncast, the regex crate, and the node, which the client of
-- crates/snip36-core/src/rpc.rs asks.
use snip36_prover_web.Common.{
  ℕ, suc, String, Bool, true, false, Option, none, some, List, [], ◌∷◌, Result, err,
}
use snip36_prover_web.Common.Text.{◌+++◌}
use snip36_prover_web.Common.Lines.{lines, replace}
use snip36_prover_web.Common.Json.{Json}
use snip36_prover_web.Core.Config.{Config}
use snip36_prover_web.Rpc.Client.{RpcError, Transport, tx_timeout}
use snip36_prover_web.Rpc.Polling.{wait_for_tx}

-- A finished process: its exit status as it is displayed, and whether it is a success.
pub record ProcessOutput : Type 0 where
  pub stdout : String
  pub stderr : String
  pub status : String
  pub success : Bool

-- `format!("{stdout}\n{stderr}")`
abbrev pub combined : ProcessOutput → String
combined o = o.stdout +++ "\n" +++ o.stderr

-- A compiled `regex_lite::Regex`: `is_match`, and the text of `find`.
pub record Regex : Type 0 where
  pub is_match : String → Bool
  pub find : String → Option String

-- The node and the clock while one handler runs: round `i` of a loop meets `net i` at time `now i`.
pub record Network : Type 0 where
  pub start : ℕ
  pub now : ℕ → ℕ
  pub net : ℕ → Transport

pub record World : Type 0 where
  pub config : Config
  -- `sncast_account()`, `contracts_dir()`, and the random salt in hexadecimal
  pub sncast_account : String
  pub contracts_dir : String
  pub salt : String
  -- the runs of sncast, in a directory where one is given
  pub sncast : Option String → List String → Result String ProcessOutput
  -- `Regex::new(..).ok()`
  pub regex : String → Option Regex
  pub network : Network

-- The client's wait for a transaction, of one round more than it has seconds, which is enough.
abbrev pub tx_within : Network → String → ℕ → Result RpcError Json
tx_within n tx_hash timeout_secs =
    settled (wait_for_tx n.start n.now n.net (suc timeout_secs) tx_hash timeout_secs)
  where
    settled : Option (Result RpcError Json) → Result RpcError Json
    settled none = err (tx_timeout tx_hash timeout_secs)
    settled (some r) = r

module _ (regex : String → Option Regex) where
  -- The loop over the lines.
  unfoldable pub first_hex : Regex → Regex → List String → Option String
  first_hex re hex_re [] = none
  first_hex re hex_re (line ∷ rest) =
      let later = first_hex re hex_re rest in
      elim (re.is_match line) [ true ↦ or_else (hex_re.find line) later | false ↦ later ]
    where
      or_else : Option String → Option String → Option String
      or_else none other = other
      or_else (some a) other = some a

  abbrev with_patterns : Option Regex → Option Regex → String → Option String
  with_patterns none hex_re text = none
  with_patterns (some re) none text = none
  with_patterns (some re) (some hex_re) text = first_hex re hex_re (lines text)

  -- `parse_hex` of fund.rs
  unfoldable pub parse_hex : String → String → Option String
  unfolding first_hex lines replace
  parse_hex key text =
      with_patterns (regex ("(?i)" +++ replace "_" "[_ ]" key)) (regex "0x[0-9a-fA-F]+") text

  -- `extract_long_hex` of deploy.rs
  unfoldable pub extract_long_hex : String → Option String
  extract_long_hex text = find_in (regex "0x[0-9a-fA-F]{50,}")
    where
      find_in : Option Regex → Option String
      find_in none = none
      find_in (some re) = re.find text
