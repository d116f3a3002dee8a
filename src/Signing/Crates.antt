-- ===== src/Signing/Crates.antt =====
-- What snip36-pure calls of starknet_types_core and starknet_crypto. A felt is a natural number
-- below the field's prime.
use snip36_prover_web.Common.{ℕ, String, List, Result, ◌≡◌, ◌+◌, ◌*◌, ◌%◌, ◌^◌}
use snip36_prover_web.Proofs.Types.{Felt}

pub record Signature : Type 0 where
  pub r : Felt
  pub s : Felt

pub record Crates : Type 0 where
  -- `Felt::from(u128)`, `*`, `+`, `pow_felt`
  pub felt_from : ℕ → Felt
  pub felt_mul : Felt → Felt → Felt
  pub felt_add : Felt → Felt → Felt
  pub pow_felt : Felt → Felt → Felt
  -- `Felt::from_bytes_be_slice`, `Felt::from_hex`, `{:#x}` of a felt
  pub from_bytes_be_slice : List ℕ → Felt
  pub from_hex : String → Result String Felt
  pub felt_hex : Felt → String
  pub poseidon_hash_many : List Felt → Felt
  -- `rfc6979_generate_k(message, key, None)`, `starknet_crypto::sign(key, message, k)`
  pub generate_k : Felt → Felt → Felt
  pub ecdsa_sign : Felt → Felt → Felt → Result String Signature

-- The Stark field's prime.
abbrev pub prime : ℕ
prime = 2 ^ 251 + 17 * 2 ^ 192 + 1

-- `Felt` is the field of integers modulo the prime.
pub record IsField (c : Crates) : Type 0 where
  pub from_lem : (n : ℕ) → c.felt_from n ≡ n % prime
  pub mul_lem : (a b : Felt) → c.felt_mul a b ≡ a * b % prime
  pub add_lem : (a b : Felt) → c.felt_add a b ≡ (a + b) % prime
  pub pow_lem : (a b : Felt) → c.pow_felt a b ≡ a ^ b % prime
