-- ===== src/Running/BaseBlock.antt =====
-- virtual_block_executor.rs: `BaseBlockInfo::new`.
use snip36_prover_web.Common.{Bool, false, Result, ok, ◌>>=◌, map_err, if◌then◌else◌}
use snip36_prover_web.Common.Text.{◌+++◌}
use snip36_prover_web.Running.Errors.{VirtualBlockExecutorError, transaction_execution_error}
use snip36_prover_web.Running.Blockifier.{
  BlockHeader, BlockHeaderCommitments, VersionedConstants, Kinds, BaseBlockInfo, Blockifier,
}

module _ (k : Kinds) (b : Blockifier k) where
  abbrev commitments_of : BlockHeader → BlockHeaderCommitments
  commitments_of header = record {
    transaction_commitment = header.transaction_commitment;
    event_commitment = header.event_commitment;
    receipt_commitment = header.receipt_commitment;
    state_diff_commitment = header.state_diff_commitment;
    concatenated_counts =
        b.concat_counts header.transaction_count header.event_count header.state_diff_length
          header.l1_da_mode;
  }

  abbrev constants_for :
      Bool → k.BlockInfo → Result VirtualBlockExecutorError (VersionedConstants k.Constants)
  constants_for use_latest_versioned_constants block_info =
      if use_latest_versioned_constants
      then ok b.latest_constants
      else map_err (λ e. transaction_execution_error ("Failed to get versioned constants: " +++ e))
          (b.constants_of (b.starknet_version block_info))

  unfoldable pub base_block_info_new :
      BlockHeader → k.ChainInfo → Bool → Result VirtualBlockExecutorError (BaseBlockInfo k)
  base_block_info_new header chain_info use_latest_versioned_constants = do
    block_info ←
        map_err
          (λ e.
            transaction_execution_error ("Failed to convert block header to block info: " +++ e))
          (b.block_info_of header)
    versioned_constants ← constants_for use_latest_versioned_constants block_info
    ok (record {
      block_context = record {
        block_info = block_info;
        chain_info = chain_info;
        versioned_constants = record versioned_constants {
          enable_casm_hash_migration = false;
          min_sierra_version_for_sierra_gas = (0, 0, 1);
        };
        bouncer_config = b.default_bouncer_config;
      };
      base_block_hash = header.block_hash;
      base_block_header_commitments = commitments_of header;
      prev_base_block_hash = header.parent_hash;
    })
