-- ===== src/Signing/TxHash.antt =====
-- crates/snip36-pure/src/signing.rs: from the resource bounds to the hash of the transaction.
use snip36_prover_web.Common.{
  ℕ, String, List, [], ◌∷◌, ◌++◌, ◌≡◌, refl, ◌-◌, ◌*◌, ◌%◌, ◌^◌, min, length, take, replicate,
  is_empty, if◌then◌else◌,
}
use snip36_prover_web.Common.Text.{as_bytes}
use snip36_prover_web.Common.Bits.{bit_or, be_value}
use snip36_prover_web.Proofs.Types.{Felt}
use snip36_prover_web.Signing.Types.{ResourceBounds}
use snip36_prover_web.Signing.Crates.{Crates}

unfoldable pub resource_name_felt : String → ℕ
unfolding as_bytes
resource_name_felt name =
    let bytes = as_bytes name in
    let len = min (length bytes) 7 in be_value (replicate (8 - len) 0 ++ take len bytes)

-- `<<` on a word of `width` bits
abbrev pub shift_left : ℕ → ℕ → ℕ → ℕ
shift_left width a k = a * 2 ^ k % 2 ^ width

module _ (c : Crates) where
  unfoldable pub invoke_prefix : Felt
  unfolding as_bytes
  invoke_prefix = c.from_bytes_be_slice (as_bytes "invoke")

  unfoldable pub chain_id_felt : String → Felt
  unfolding as_bytes
  chain_id_felt chain_id = c.from_bytes_be_slice (as_bytes chain_id)

  unfoldable pub concat_resource : ℕ → ℕ → String → Felt
  unfolding resource_name_felt bit_or
  concat_resource max_amount max_price resource_name =
      let name = resource_name_felt resource_name in
      let high = bit_or 128 (shift_left 128 name 64) max_amount in
      let low = max_price in
      let high_felt = c.felt_from high in
      let shift = c.pow_felt (c.felt_from (2 ^ 64)) 2 in
      c.felt_add (c.felt_mul high_felt shift) (c.felt_from low)

  unfoldable pub compute_tip_resource_bounds_hash : Felt → ResourceBounds → Felt
  unfolding concat_resource
  compute_tip_resource_bounds_hash tip bounds =
      let l1 = concat_resource bounds.l1_gas.max_amount bounds.l1_gas.max_price_per_unit "L1_GAS" in
      let l2 = concat_resource bounds.l2_gas.max_amount bounds.l2_gas.max_price_per_unit "L2_GAS" in
      let l1_data =
        concat_resource bounds.l1_data_gas.max_amount bounds.l1_data_gas.max_price_per_unit
          "L1_DATA" in
      c.poseidon_hash_many (tip ∷ l1 ∷ l2 ∷ l1_data ∷ [])

  -- `((nonce_da_mode as u64) << 32) | fee_da_mode as u64`
  unfoldable pub da_mode : ℕ → ℕ → Felt
  unfolding bit_or
  da_mode nonce_da_mode fee_da_mode =
      c.felt_from (bit_or 64 (shift_left 64 nonce_da_mode 32) fee_da_mode)

  -- The vector that is hashed last.
  unfoldable pub elements :
      Felt
      → List Felt
      → Felt
      → Felt
      → Felt
      → ResourceBounds
      → List Felt
      → List Felt
      → ℕ
      → ℕ
      → List Felt
      → List Felt
  unfolding invoke_prefix compute_tip_resource_bounds_hash da_mode
  elements sender_address calldata chain_id nonce tip resource_bounds paymaster_data
        account_deployment_data nonce_da_mode fee_da_mode proof_facts =
      (invoke_prefix
        ∷ 3
        ∷ sender_address
        ∷ compute_tip_resource_bounds_hash tip resource_bounds
        ∷ c.poseidon_hash_many paymaster_data
        ∷ chain_id
        ∷ nonce
        ∷ da_mode nonce_da_mode fee_da_mode
        ∷ c.poseidon_hash_many account_deployment_data
        ∷ c.poseidon_hash_many calldata
        ∷ [])
      ++ (if is_empty proof_facts then [] else c.poseidon_hash_many proof_facts ∷ [])

  unfoldable pub compute_invoke_v3_tx_hash :
      Felt
      → List Felt
      → Felt
      → Felt
      → Felt
      → ResourceBounds
      → List Felt
      → List Felt
      → ℕ
      → ℕ
      → List Felt
      → Felt
  unfolding elements
  compute_invoke_v3_tx_hash sender_address calldata chain_id nonce tip resource_bounds
        paymaster_data account_deployment_data nonce_da_mode fee_da_mode proof_facts =
      c.poseidon_hash_many (
        elements sender_address calldata chain_id nonce tip resource_bounds paymaster_data
          account_deployment_data nonce_da_mode fee_da_mode proof_facts)

-- The example of the source's tests.
resource_name_test : resource_name_felt "L1_GAS" ≡ 83774935613779
unfolding resource_name_felt as_bytes
resource_name_test = refl
