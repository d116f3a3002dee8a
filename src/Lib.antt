-- ===== src/Lib.antt =====
-- A verification library of snip36-prover-web: a service that executes a Starknet transaction
-- against a recorded block, proves its execution in the virtual Starknet OS, and submits the
-- transaction with its proof facts (SNIP-36).
--
-- The program's parts and how they interact. The transaction prover
-- (portable-core/starknet_transaction_prover) is configured from its command line, executes the
-- transaction, and asks an RPC node for the storage proofs of all that was read. From the proofs it
-- builds a database of facts, commits the state changes to it, and hands the resulting commitment
-- infos to the OS. The crates under crates/ build and sign the transactions (snip36-pure,
-- snip36-core), talk to a node (snip36-core) and serve a playground with a coin flip
-- (snip36-server).
--
-- Which file models which part:
--   Common, Common/*: lists, results, maps, texts, bits and JSON values, for all parts.
--   Proofs, Proofs/*: portable-core/starknet_transaction_prover/src/running/storage_proofs.rs, from
--     `count_total_keys` to `merge_storage_proofs`, `fetch_single_proof` and `fetch_proofs`.
--     Proofs/Node is the node as the RPC specification describes it.
--   Committer, Committer/*: running/committer_utils.rs of the same crate, each function under its
--     name. The database is passed on from step to step.
--   Provider, Provider/*: the rest of storage_proofs.rs: `prepare_query`, the commitment infos and
--     `get_storage_proofs`.
--   Config, Config/*: server/config.rs (`TransportMode::new`, `ServiceConfig::from_args`) and
--     server/cors.rs of the same crate.
--   Signing, Signing/*: crates/snip36-pure/src/signing.rs and types.rs. `elements` is the vector
--     that `compute_invoke_v3_tx_hash` hashes last.
--   Rpc, Rpc/*: crates/snip36-core/src/rpc.rs. A transport is a function from requests to
--     responses; the polling loops read one transport and one time in each round.
--   Core, Core/*: crates/snip36-core/src/config.rs (`Config::from_env`, `chain_id_felt`) and proof.rs
--     (`cairo_serde_to_base64`).
--   Artifact, Artifact/*: crates/snip36-artifact/src/lib.rs (`export_artifact`,
--     `bundle_from_response`) and crates/snip36-pure/src/lib.rs (`bundle_from_execution_payload`).
--   Proving, Proving/*: portable-core/starknet_transaction_prover/src/proving/virtual_snos_prover.rs,
--     and server/errors.rs and server/rpc_impl.rs of the same crate. The handler asks tokio's
--     semaphore, which is a parameter, for a permit and holds it until it answers.
--   Running, Running/*: running/virtual_block_executor.rs of the same crate (`execute`, the RPC
--     executor and its prefetched state), classes_provider.rs, serde_utils.rs, runner.rs (the hints
--     for the OS, `Runner`, `RpcRunnerFactory`) and rpc_records.rs. `Kinds` and `Blockifier` are the
--     types and the calls of the blockifier; a task that may fail to join is an argument.
--   Server, Server/*: crates/snip36-server/src/state.rs and the handlers of
--     src/routes/coinflip.rs. A handler takes the state before it and gives the state after it;
--     the task that `play_coinflip` spawns gives the events that it sends itself, and `Streamed` says
--     how the client receives them among the lines of the prover's process.
--   Routes, Routes/*: the other handlers of crates/snip36-server/src/routes (fund.rs, deploy.rs,
--     invoke.rs, submit.rs, read.rs, prove.rs, prove_block.rs) and the router of mod.rs. A handler
--     is a program (Routes/Program): a tree of accesses to the shared state and events to the
--     client. Routes/System runs the programs of all routes side by side, one access or event at a
--     time. The handlers of prove.rs and prove_block.rs include the task that they spawn; ProveBlock
--     has the first two phases of the task of prove_block.rs, Landing the last two.
--   Examples, Examples/*: concrete inputs for the theorems.
--
-- How the code is represented. Felts, addresses and machine integers are natural numbers; sums that
-- cannot overflow in the source are plain sums, and shifts and `|` keep the width of their word. A
-- failure is an error value with the source's text, or with the data that the text shows. Maps are
-- association lists. Calls of other crates, of the file system, of processes and of the clock are
-- arguments, with what the code relies on as hypotheses.
--
-- Fuel. `chunks` runs for as many rounds as there are items, each of which takes at least one. The
-- polling loops run for timeout + 1 rounds, since each round takes at least one second. The loops
-- over the attempts of a submission have 20 rounds, as in the source. Replacing a part of a text
-- has as many rounds as the text has bytes, and each replacement takes at least one byte.
--
-- What is not modelled: the blockifier and the OS (other crates), the proving backend, the process
-- spawning of the artifact export, the files and sockets of recorded sessions, logging, the entry
-- points, the TLS listener and the WebAssembly bindings. crates/snip36-core repeats the hash and
-- the signing of snip36-pure, which are modelled once.
pub mod Common
pub mod Proofs
pub mod Committer
pub mod Provider
pub mod Signing
pub mod Config
pub mod Core
pub mod Running
pub mod Routes
pub mod Rpc
pub mod Artifact
pub mod Server
pub mod Examples
pub mod Proving
