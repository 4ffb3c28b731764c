-- ===== src/StateRoot/Row.antt =====
-- AssetStateRow of packages/indexer/src/utils/state-root-hash.ts: the columns that the root covers.
use nftlox.Prelude.{ℕ, String, Option}

pub record AssetStateRow : Type 0 where
  pub id : String
  pub owner : String
  pub previous_owner : Option String
  pub owner_action : String
  pub owner_operation_id : String
  pub owner_block_num : ℕ
