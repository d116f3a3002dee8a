-- ===== src/Examples/Signing.antt =====
-- Felts as residues, with a hash that adds up its inputs and a signature that shows them.
use snip36_prover_web.Common.{
  ◌+◌, ◌*◌, ◌%◌, ◌^◌, ◌<◌, String, ◌≡◌, refl, ◌⊎◌, none, List, [], ◌∷◌, Result, ok, err, ok_or,
  arith,
}
use snip36_prover_web.Common.Text.{hex, as_bytes}
use snip36_prover_web.Common.Bits.{bit_or, be_value}
use snip36_prover_web.Common.Json.{Json}
use snip36_prover_web.Proofs.Types.{Felt}
use snip36_prover_web.Rpc.Client.{parse_hex_u64, hex_digits}
use snip36_prover_web.Signing.Types.{zero_fee, PayloadInput, TransactionInput, BuiltOutput}
use snip36_prover_web.Signing.Crates.{Crates, IsField, prime}
use snip36_prover_web.Signing.TxHash.{
  concat_resource, resource_name_felt, elements, compute_invoke_v3_tx_hash,
  compute_tip_resource_bounds_hash, da_mode, invoke_prefix,
}
use snip36_prover_web.Signing.Packing.{concat_resource_lem}
use snip36_prover_web.Signing.Binding.{
  InvokeFields, FitsMachine, hash_of, Collision, tx_hash-binding,
}
use snip36_prover_web.Signing.Payload.{
  build_payload_from_json, build_unsigned_payload_from_json, build_transaction_from_json,
  build_unsigned_transaction_from_json, felt_from_hex, sign, sign_and_build_payload,
}
use snip36_prover_web.Signing.Signed.{
  without_key, transaction_without_key, unsign, build_payload-unsigned, build_transaction-unsigned,
}

abbrev total : List Felt → Felt
total [] = 0
total (x ∷ xs) = x + total xs

abbrev pub residues : Crates
residues = record {
  felt_from = λ n. n % prime;
  felt_mul = λ a b. a * b % prime;
  felt_add = λ a b. (a + b) % prime;
  pow_felt = λ a b. a ^ b % prime;
  from_bytes_be_slice = λ bs. be_value bs % prime;
  from_hex = λ s. ok_or (parse_hex_u64 s) "not a number";
  felt_hex = hex;
  poseidon_hash_many = total;
  generate_k = λ m k. m;
  ecdsa_sign = λ k m n. ok (record { r = m; s = k });
}

residues-IsField : IsField residues
residues-IsField = record {
  from_lem = λ n. refl;
  mul_lem = λ a b. refl;
  add_lem = λ a b. refl;
  pow_lem = λ a b. refl;
}

l1_gas_below : resource_name_felt "L1_GAS" < 2 ^ 56
unfolding resource_name_felt as_bytes
l1_gas_below = omega arith

concat_resource_example :
    concat_resource residues 65536 1000000000000000 "L1_GAS"
    ≡ resource_name_felt "L1_GAS" * 2 ^ 192 + 65536 * 2 ^ 128 + 1000000000000000
concat_resource_example =
    concat_resource_lem residues residues-IsField "L1_GAS" 65536 1000000000000000 l1_gas_below
      (omega arith) (omega arith)

-- Two transactions whose chain and nonce are exchanged: this hash takes them for one another.
abbrev transaction : Felt → Felt → InvokeFields
transaction chain nonce = record {
  sender_address = 291;
  calldata = 1 ∷ 2 ∷ [];
  chain_id = chain;
  nonce = nonce;
  tip = 0;
  resource_bounds = zero_fee;
  paymaster_data = [];
  account_deployment_data = [];
  nonce_da_mode = 0;
  fee_da_mode = 0;
  proof_facts = 77 ∷ [];
}

transaction-FitsMachine : (chain nonce : Felt) → FitsMachine (transaction chain nonce)
unfolding zero_fee
transaction-FitsMachine chain nonce = omega arith

exchanged : hash_of residues (transaction 5 9) ≡ hash_of residues (transaction 9 5)
unfolding hash_of compute_invoke_v3_tx_hash elements compute_tip_resource_bounds_hash
    concat_resource resource_name_felt bit_or da_mode invoke_prefix as_bytes zero_fee
exchanged = refl

tx_hash-binding_example :
    (transaction 5 9 ≡ transaction 9 5) ⊎ Collision residues.poseidon_hash_many
tx_hash-binding_example =
    tx_hash-binding residues residues-IsField (transaction 5 9) (transaction 9 5)
      (transaction-FitsMachine 5 9) (transaction-FitsMachine 9 5) exchanged

abbrev payload_input : PayloadInput
payload_input = record {
  sender_address = "0x7";
  private_key = "0x3";
  calldata = "0x1" ∷ [];
  proof_base64 = "AAAA";
  proof_facts = "0x4" ∷ [];
  nonce = "0x0";
  chain_id = "SN_SEPOLIA";
  resource_bounds = none;
}

abbrev transaction_input : TransactionInput
transaction_input = record {
  sender_address = "0x7";
  private_key = "0x3";
  calldata = "0x1" ∷ [];
  nonce = "0x0";
  chain_id = "SN_SEPOLIA";
  resource_bounds = none;
}

abbrev or_blank : Result String BuiltOutput → BuiltOutput
or_blank (ok o) = o
or_blank (err e) = record { tx_hash = ""; body = Json.null }

payload_built :
    build_payload_from_json residues payload_input
    ≡ ok (or_blank (build_payload_from_json residues payload_input))
unfolding build_payload_from_json felt_from_hex parse_hex_u64 hex_digits as_bytes
    sign_and_build_payload sign
payload_built = refl

build_payload-unsigned_example :
    build_unsigned_payload_from_json residues (without_key payload_input)
    ≡ ok (unsign (or_blank (build_payload_from_json residues payload_input)))
build_payload-unsigned_example =
    build_payload-unsigned residues payload_input
      (or_blank (build_payload_from_json residues payload_input)) payload_built

transaction_built :
    build_transaction_from_json residues transaction_input
    ≡ ok (or_blank (build_transaction_from_json residues transaction_input))
unfolding build_transaction_from_json felt_from_hex parse_hex_u64 hex_digits as_bytes sign
transaction_built = refl

build_transaction-unsigned_example :
    build_unsigned_transaction_from_json residues (transaction_without_key transaction_input)
    ≡ ok (unsign (or_blank (build_transaction_from_json residues transaction_input)))
build_transaction-unsigned_example =
    build_transaction-unsigned residues transaction_input
      (or_blank (build_transaction_from_json residues transaction_input)) transaction_built
