-- ===== src/Signing/Types.antt =====
-- crates/snip36-pure/src/types.rs.
use snip36_prover_web.Common.{ℕ, String, Option, List, [], ◌∷◌}
use snip36_prover_web.Common.Text.{hex}
use snip36_prover_web.Common.Json.{Json, str, obj}
use snip36_prover_web.Proofs.Types.{Felt}

pub record ResourceBound : Type 0 where
  pub max_amount : ℕ
  pub max_price_per_unit : ℕ

pub record ResourceBounds : Type 0 where
  pub l1_gas : ResourceBound
  pub l2_gas : ResourceBound
  pub l1_data_gas : ResourceBound

abbrev bound : ℕ → ℕ → ResourceBound
bound amount price = record { max_amount = amount; max_price_per_unit = price }

abbrev sepolia_gas_price_ceil : ℕ
sepolia_gas_price_ceil = 1000000000000000

-- `ResourceBounds::default()`
unfoldable pub default_bounds : ResourceBounds
default_bounds = record {
  l1_gas = bound 65536 sepolia_gas_price_ceil;
  l2_gas = bound 117440512 8000000000;
  l1_data_gas = bound 432 sepolia_gas_price_ceil;
}

-- `ResourceBounds::zero_fee()`
unfoldable pub zero_fee : ResourceBounds
zero_fee = record { l1_gas = bound 0 0; l2_gas = bound 117440512 0; l1_data_gas = bound 432 0 }

-- `ResourceBounds::playground()` of crates/snip36-core/src/types.rs
unfoldable pub playground : ResourceBounds
playground = record {
  l1_gas = bound 0 sepolia_gas_price_ceil;
  l2_gas = bound 33554432 12000000000;
  l1_data_gas = bound 432 sepolia_gas_price_ceil;
}

abbrev bound_json : ResourceBound → Json
bound_json b = obj (
    ("max_amount", str (hex b.max_amount))
    ∷ ("max_price_per_unit", str (hex b.max_price_per_unit))
    ∷ [])

unfoldable pub to_rpc_json : ResourceBounds → Json
to_rpc_json b = obj (
    ("l1_gas", bound_json b.l1_gas)
    ∷ ("l2_gas", bound_json b.l2_gas)
    ∷ ("l1_data_gas", bound_json b.l1_data_gas)
    ∷ [])

pub record PayloadInput : Type 0 where
  pub sender_address : String
  pub private_key : String
  pub calldata : List String
  pub proof_base64 : String
  pub proof_facts : List String
  pub nonce : String
  pub chain_id : String
  pub resource_bounds : Option ResourceBounds

pub record UnsignedPayloadInput : Type 0 where
  pub sender_address : String
  pub calldata : List String
  pub proof_base64 : String
  pub proof_facts : List String
  pub nonce : String
  pub chain_id : String
  pub resource_bounds : Option ResourceBounds

pub record TransactionInput : Type 0 where
  pub sender_address : String
  pub private_key : String
  pub calldata : List String
  pub nonce : String
  pub chain_id : String
  pub resource_bounds : Option ResourceBounds

pub record UnsignedTransactionInput : Type 0 where
  pub sender_address : String
  pub calldata : List String
  pub nonce : String
  pub chain_id : String
  pub resource_bounds : Option ResourceBounds

-- The four output types have the same two fields.
pub record BuiltOutput : Type 0 where
  pub tx_hash : String
  pub body : Json

pub record SubmitParams : Type 0 where
  pub sender_address : Felt
  pub private_key : Felt
  pub calldata : List Felt
  pub proof_base64 : String
  pub proof_facts : List Felt
  pub nonce : Felt
  pub chain_id : Felt
  pub resource_bounds : ResourceBounds
