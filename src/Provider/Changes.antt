-- ===== src/Provider/Changes.antt =====
-- `get_storage_proofs` with state changes.
use snip36_prover_web.Common.{ℕ, ◌≡◌, true, not, nat_beq, length, ok, >>=-eq-ok, reject_if-eq-ok}
use snip36_prover_web.Proofs.Fetch.{GetStorageProof, fetch_proofs}
use snip36_prover_web.Proofs.Types.{RpcStorageProof, RpcStorageProofsQuery, StorageProofConfig}
use snip36_prover_web.Committer.Types.{StateMaps}
use snip36_prover_web.Committer.Facts.{create_facts_db_from_storage_proof}
use snip36_prover_web.Committer.Diff.{
  state_maps_to_committer_state_diff, validate_virtual_os_state_diff,
  validate_virtual_os_state_diff_iff, IsVirtual,
}
use snip36_prover_web.Provider.Prepare.{ExecutionReads, prepare_query}
use snip36_prover_web.Provider.Commitments.{
  Crates, StorageProofs, StateCommitmentInfos, create_commitment_infos_with_state_changes,
  get_storage_proofs, extended_reads,
}

module _ (crates : Crates) where
  open crates use {codec, storage_diff_from, get_contract_addresses}

  with_changes-IsVirtual :
      (proof : RpcStorageProof) (query : RpcStorageProofsQuery) (reads diff : StateMaps)
      {infos : StateCommitmentInfos}
      → create_commitment_infos_with_state_changes crates proof query reads diff ≡ ok infos
      → IsVirtual (state_maps_to_committer_state_diff storage_diff_from diff)
  unfolding create_commitment_infos_with_state_changes
  with_changes-IsVirtual proof query reads diff h =
      let facts_db = create_facts_db_from_storage_proof codec proof query reads in
      let d = state_maps_to_committer_state_diff storage_diff_from diff in
      let (db, p, validated) = >>=-eq-ok facts_db _ h in
      let (u, accepted, q) = >>=-eq-ok (validate_virtual_os_state_diff d) _ validated in
      (validate_virtual_os_state_diff_iff d).0 accepted

  -- Where state changes are included, the provider has a result only for an execution whose
  -- changes delete no storage entry, deploy no contract and declare no class.
  pub get_storage_proofs-IsVirtual :
      (get_storage_proof : GetStorageProof) (block : ℕ) (data_of : ExecutionReads)
      (diff : StateMaps) (config : StorageProofConfig) (out : StorageProofs)
      → config.include_state_changes ≡ true
      → get_storage_proofs crates get_storage_proof block data_of diff config ≡ ok out
      → IsVirtual (state_maps_to_committer_state_diff storage_diff_from diff)
  unfolding get_storage_proofs
  get_storage_proofs-IsVirtual get_storage_proof block data_of diff config out on h =
      let query = prepare_query get_contract_addresses data_of in
      let (proof, p, checked) = >>=-eq-ok (fetch_proofs get_storage_proof block query) _ h in
      let (same, asked) =
        reject_if-eq-ok
          (not (
            nat_beq (length proof.contracts_proof.contract_leaves_data)
              (length query.contract_addresses)))
          _ _ checked in
      let reads = extended_reads crates proof query data_of.initial_reads in
      let (infos, made, q) =
        >>=-eq-ok (create_commitment_infos_with_state_changes crates proof query reads diff) _
          (rw on at asked) in
      with_changes-IsVirtual proof query reads diff made
