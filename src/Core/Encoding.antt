-- ===== src/Core/Encoding.antt =====
-- crates/snip36-core/src/proof.rs: the base64 form of a proof.
use snip36_prover_web.Common.{
  ℕ, ◌/◌, ◌%◌, ◌^◌, String, List, [], ◌∷◌, ◌++◌, take, drop, Result, ok, ◌>>=◌, map_err,
}
use snip36_prover_web.Common.Text.{◌+++◌}
use snip36_prover_web.Common.Bits.{be_value}
use snip36_prover_web.Proofs.Types.{Felt}

pub data ProofError : Type 0 where
  base64_decode : String → ProofError
  invalid_felt : String → ProofError
  invalid_json : String → ProofError

-- `u32::to_be_bytes`
unfoldable pub to_be_bytes : ℕ → List ℕ
to_be_bytes v = v / 2 ^ 24 % 256 ∷ v / 2 ^ 16 % 256 ∷ v / 2 ^ 8 % 256 ∷ v % 256 ∷ []

-- The last four of a felt's 32 bytes.
unfoldable pub low_word : List ℕ → ℕ
low_word bytes = be_value (take 4 (drop 28 bytes))

-- The felt crate, and the base64 crate.
pub record Encoders : Type 0 where
  pub from_hex : String → Result String Felt
  pub to_bytes_be : Felt → List ℕ
  pub encode : List ℕ → String

module _ (c : Encoders) where
  unfoldable pub encode_proof_base64 : List ℕ → String
  encode_proof_base64 bytes = c.encode bytes

  -- One round of the loop.
  unfoldable pub pack : Felt → List ℕ
  unfolding low_word to_be_bytes
  pack felt = to_be_bytes (low_word (c.to_bytes_be felt))

  unfoldable pub pack_all : List String → List ℕ → Result ProofError (List ℕ)
  unfolding pack
  pack_all [] packed = ok packed
  pack_all (felt_hex ∷ rest) packed = do
    felt ← map_err (λ e. ProofError.invalid_felt (felt_hex +++ ": " +++ e)) (c.from_hex felt_hex)
    pack_all rest (packed ++ pack felt)

  unfoldable pub cairo_serde_to_base64 : List String → Result ProofError String
  unfolding pack_all encode_proof_base64
  cairo_serde_to_base64 felts = do packed ← pack_all felts []; ok (encode_proof_base64 packed)
