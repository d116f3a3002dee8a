-- ===== src/Routes/Read.antt =====
-- crates/snip36-server/src/routes/read.rs.
use snip36_prover_web.Common.{ℕ, String, Option, none, some, List, [], ◌∷◌, map_err}
use snip36_prover_web.Common.Text.{hex}
use snip36_prover_web.Rpc.Client.{starknet_call, get_nonce, parse_hex_u64}
use snip36_prover_web.Server.Coinflip.{rpc_response}
use snip36_prover_web.Routes.Program.{Program, done, ◌>>=◌, try}
use snip36_prover_web.Routes.World.{World}

-- crates/snip36-core/src/types.rs
abbrev pub get_counter_selector : String
get_counter_selector = "0x3370263ab53343580e77063a719a5865004caff7f367ec136a6cdd34b6786ca"

pub record NonceResponse : Type 0 where
  pub nonce : ℕ
  pub nonce_hex : String

pub record HealthResponse : Type 0 where
  pub status : String
  pub rpc_url : String

-- The first felt of a call's result, or 0 where it is missing or not a `u64`.
unfoldable pub counter_of : List String → ℕ
unfolding parse_hex_u64
counter_of [] = 0
counter_of (s ∷ rest) = or_zero (parse_hex_u64 s)
  where
    or_zero : Option ℕ → ℕ
    or_zero none = 0
    or_zero (some n) = n

module _ (w : World) where
  unfoldable pub read_counter : String → Program ℕ
  unfolding starknet_call counter_of
  read_counter contract_address = do
    result ← try (
        map_err (rpc_response 500 "")
          (starknet_call (w.network.net 0) contract_address get_counter_selector []))
    done (counter_of result)

  unfoldable pub get_nonce_route : String → Program NonceResponse
  unfolding get_nonce hex
  get_nonce_route address = do
    nonce ← try (map_err (rpc_response 400 "") (get_nonce (w.network.net 0) address))
    done (record { nonce = nonce; nonce_hex = hex nonce })

  abbrev pub health : Program HealthResponse
  health = done (record { status = "ok"; rpc_url = w.config.rpc_url })
