-- ===== src/Signing/Payload.antt =====
-- crates/snip36-pure/src/signing.rs: signing, and the payloads that are built from JSON input. The
-- private key is read after the sender address, as the source's struct literal is evaluated.
use snip36_prover_web.Common.{
  String, Option, none, some, List, [], ◌∷◌, ◌++◌, map, Result, ok, ◌>>=◌, map_err, traverse,
}
use snip36_prover_web.Common.Text.{◌+++◌}
use snip36_prover_web.Common.Json.{Json, str, strs, array, no_items, obj}
use snip36_prover_web.Proofs.Types.{Felt}
use snip36_prover_web.Signing.Types.{
  ResourceBounds, default_bounds, zero_fee, to_rpc_json, PayloadInput, UnsignedPayloadInput,
  TransactionInput, UnsignedTransactionInput, BuiltOutput, SubmitParams,
}
use snip36_prover_web.Signing.Crates.{Crates, Signature}
use snip36_prover_web.Signing.TxHash.{chain_id_felt, compute_invoke_v3_tx_hash}

pub data SignError : Type 0 where
  ecdsa : String → SignError

-- `SignError`'s `to_string`
abbrev pub sign_error_text : SignError → String
sign_error_text (ecdsa e) = "ECDSA signing failed: " +++ e

abbrev or_bounds : Option ResourceBounds → ResourceBounds → ResourceBounds
or_bounds none d = d
or_bounds (some b) d = b

-- The `json!` literal that every builder writes, up to the signature.
unfoldable pub invoke_fields :
    String → List String → String → ResourceBounds → List String → List (String × Json)
unfolding to_rpc_json
invoke_fields sender_address calldata_hex nonce resource_bounds signature =
    ("type", str "INVOKE")
    ∷ ("version", str "0x3")
    ∷ ("sender_address", str sender_address)
    ∷ ("calldata", strs calldata_hex)
    ∷ ("nonce", str nonce)
    ∷ ("resource_bounds", to_rpc_json resource_bounds)
    ∷ ("tip", str "0x0")
    ∷ ("paymaster_data", array no_items)
    ∷ ("account_deployment_data", array no_items)
    ∷ ("nonce_data_availability_mode", str "L1")
    ∷ ("fee_data_availability_mode", str "L1")
    ∷ ("signature", strs signature)
    ∷ []

-- The two fields that a payload has beyond a transaction.
abbrev pub proof_fields : String → List String → List (String × Json)
proof_fields proof_base64 proof_facts_hex =
    ("proof", str proof_base64) ∷ ("proof_facts", strs proof_facts_hex) ∷ []

module _ (c : Crates) where
  unfoldable pub felt_from_hex : String → Result String Felt
  felt_from_hex hex_str =
      map_err (λ e. "invalid felt hex '" +++ hex_str +++ "': " +++ e) (c.from_hex hex_str)

  unfoldable pub sign : Felt → Felt → Result SignError Signature
  sign private_key message_hash =
      map_err ecdsa (c.ecdsa_sign private_key message_hash (c.generate_k message_hash private_key))

  abbrev pub signature_hex : Signature → List String
  signature_hex sig = c.felt_hex sig.r ∷ c.felt_hex sig.s ∷ []

  unfoldable pub sign_and_build_payload : SubmitParams → Result SignError (Felt × Json)
  unfolding compute_invoke_v3_tx_hash sign invoke_fields
  sign_and_build_payload params =
      let tx_hash =
        compute_invoke_v3_tx_hash c params.sender_address params.calldata params.chain_id
          params.nonce 0 params.resource_bounds [] [] 0 0 params.proof_facts in
      sign params.private_key tx_hash >>= λ sig. ok (
        tx_hash,
        obj (
            invoke_fields (c.felt_hex params.sender_address) (map c.felt_hex params.calldata)
              (c.felt_hex params.nonce) params.resource_bounds (signature_hex sig)
            ++ proof_fields params.proof_base64 (map c.felt_hex params.proof_facts)),
      )

  unfoldable pub build_transaction_from_json : TransactionInput → Result String BuiltOutput
  unfolding felt_from_hex chain_id_felt compute_invoke_v3_tx_hash sign invoke_fields zero_fee
  build_transaction_from_json input = felt_from_hex input.sender_address >>= λ sender_address.
      felt_from_hex input.private_key >>= λ private_key.
      traverse felt_from_hex input.calldata >>= λ calldata. felt_from_hex input.nonce >>= λ nonce.
      let bounds = or_bounds input.resource_bounds zero_fee in
      let tx_hash =
        compute_invoke_v3_tx_hash c sender_address calldata (chain_id_felt c input.chain_id) nonce 0
          bounds [] [] 0 0 [] in
      map_err sign_error_text (sign private_key tx_hash) >>= λ sig. ok (record {
        tx_hash = c.felt_hex tx_hash;
        body = obj (
            invoke_fields input.sender_address (map c.felt_hex calldata) (c.felt_hex nonce) bounds
              (signature_hex sig));
      })

  unfoldable pub build_unsigned_transaction_from_json :
      UnsignedTransactionInput → Result String BuiltOutput
  unfolding felt_from_hex chain_id_felt compute_invoke_v3_tx_hash invoke_fields zero_fee
  build_unsigned_transaction_from_json input =
      felt_from_hex input.sender_address >>= λ sender_address.
      traverse felt_from_hex input.calldata >>= λ calldata. felt_from_hex input.nonce >>= λ nonce.
      let bounds = or_bounds input.resource_bounds zero_fee in
      let tx_hash =
        compute_invoke_v3_tx_hash c sender_address calldata (chain_id_felt c input.chain_id) nonce 0
          bounds [] [] 0 0 [] in
      ok (record {
        tx_hash = c.felt_hex tx_hash;
        body = obj (
            invoke_fields input.sender_address (map c.felt_hex calldata) (c.felt_hex nonce) bounds
              []);
      })

  unfoldable pub build_payload_from_json : PayloadInput → Result String BuiltOutput
  unfolding felt_from_hex chain_id_felt sign_and_build_payload default_bounds
  build_payload_from_json input = felt_from_hex input.sender_address >>= λ sender_address.
      felt_from_hex input.private_key >>= λ private_key.
      traverse felt_from_hex input.calldata >>= λ calldata.
      traverse felt_from_hex input.proof_facts >>= λ proof_facts.
      felt_from_hex input.nonce >>= λ nonce.
      map_err sign_error_text (
        sign_and_build_payload (record {
          sender_address = sender_address;
          private_key = private_key;
          calldata = calldata;
          proof_base64 = input.proof_base64;
          proof_facts = proof_facts;
          nonce = nonce;
          chain_id = chain_id_felt c input.chain_id;
          resource_bounds = or_bounds input.resource_bounds default_bounds;
        }))
      >>= λ (tx_hash, payload). ok (record { tx_hash = c.felt_hex tx_hash; body = payload })

  unfoldable pub build_unsigned_payload_from_json : UnsignedPayloadInput → Result String BuiltOutput
  unfolding felt_from_hex chain_id_felt compute_invoke_v3_tx_hash invoke_fields default_bounds
  build_unsigned_payload_from_json input = felt_from_hex input.sender_address >>= λ sender_address.
      traverse felt_from_hex input.calldata >>= λ calldata.
      traverse felt_from_hex input.proof_facts >>= λ proof_facts.
      felt_from_hex input.nonce >>= λ nonce.
      let bounds = or_bounds input.resource_bounds default_bounds in
      let tx_hash =
        compute_invoke_v3_tx_hash c sender_address calldata (chain_id_felt c input.chain_id) nonce 0
          bounds [] [] 0 0 proof_facts in
      ok (record {
        tx_hash = c.felt_hex tx_hash;
        body = obj (
            invoke_fields (c.felt_hex sender_address) (map c.felt_hex calldata) (c.felt_hex nonce)
              bounds []
            ++ proof_fields input.proof_base64 (map c.felt_hex proof_facts));
      })
