-- ===== src/Handlers/Allowance.antt =====
-- packages/indexer/src/processor/handlers/allowances/asset-approve.ts, asset-approve-all.ts and
-- asset-transfer-from.ts.
use nftlox.Prelude.{String, Bool, true, not, ◌&&◌, List, [], ◌∷◌, ◌==◌, is_text, if◌then◌else◌}
use nftlox.Rejection
use nftlox.Rejection.{rejection, burn_recipient_delegation_forbidden}
use nftlox.Result.{
  Result, ok, bind, Action, pure, lift, gets, or_reject, reject_if, throw_if, ◌>>=◌, ◌>>◌,
}
use nftlox.Json.{member}
use nftlox.Validation.{require_string, require_username, require_boolean}
use nftlox.World.{World, AssetRow, AllowanceRow, CollectionAllowanceRow}
use nftlox.Operation.{ParsedOperation}
use nftlox.Queries.Assets.{get_asset, update_asset_owner}
use nftlox.Queries.Allowances.{
  upsert_asset_allowance, delete_asset_allowance, get_asset_allowance, upsert_collection_allowance,
  has_collection_allowance, owns_in_collection, cleanup_collection_allowances_if_empty,
  get_collection_rules, forbids_transfer,
}
use nftlox.StatusChecks.{
  assert_actionable, assert_not_seed, assert_not_listed, assert_not_pending_sale,
  assert_ownership_changeable,
}
use nftlox.Provenance.{validate_seed_provenance}

abbrev pub allowance_of : ParsedOperation → String → AllowanceRow
allowance_of op spender = record {
  owner = op.signer;
  approved_spender = spender;
  block_num = op.block_num;
  tx_id = op.tx_id;
}

abbrev pub collection_allowance_of : ParsedOperation → String → String → CollectionAllowanceRow
collection_allowance_of op spender collection_id = record {
  owner = op.signer;
  spender = spender;
  collection_id = collection_id;
  block_num = op.block_num;
  tx_id = op.tx_id;
}

unfoldable pub approve_asset : ParsedOperation → String → String → Bool → Action World (List String)
approve_asset op spender id approved = do
  lift (reject_if (spender == op.signer) Rejection.self_target)
  found ← gets (get_asset id)
  asset ← lift (or_reject found Rejection.not_found)
  lift (assert_actionable asset)
  lift (assert_not_seed asset)
  lift (assert_not_listed asset)
  lift (assert_not_pending_sale asset)
  lift (reject_if (not (asset.owner == op.signer)) Rejection.not_owner)
  (if approved
      then upsert_asset_allowance id (record {
        owner = op.signer;
        approved_spender = spender;
        block_num = op.block_num;
        tx_id = op.tx_id;
      })
      else delete_asset_allowance id)
  pure (id ∷ [])

-- The spender, the asset or collection that the field names, and the flag.
unfoldable pub read_approve_payload : String → ParsedOperation → Result (String × String × Bool)
unfolding member require_username require_string require_boolean
read_approve_payload name op = bind (require_username (member op.payload "spender")) λ spender.
    bind (require_string (member op.payload name)) λ id.
      bind (require_boolean (member op.payload "approved")) λ approved. ok (spender, id, approved)

unfoldable pub handle_asset_approve : ParsedOperation → Action World (List String)
unfolding approve_asset read_approve_payload
handle_asset_approve op =
    lift (read_approve_payload "instanceId" op) >>= λ p. approve_asset op p.0 p.1 p.2

unfoldable pub approve_collection :
    ParsedOperation → String → String → Bool → Action World (List String)
approve_collection op spender collection_id approved = do
  lift (reject_if (spender == op.signer) Rejection.self_target)
  found ← gets (get_collection_rules collection_id)
  rules ← lift (or_reject found Rejection.collection_not_found)
  owns ← gets (owns_in_collection op.signer collection_id)
  lift (reject_if (approved && not owns) Rejection.no_assets)
  upsert_collection_allowance (collection_allowance_of op spender collection_id) approved
  pure []

unfoldable pub handle_asset_approve_all : ParsedOperation → Action World (List String)
unfolding approve_collection read_approve_payload
handle_asset_approve_all op =
    lift (read_approve_payload "collectionId" op) >>= λ p. approve_collection op p.0 p.1 p.2

-- The spender holds the asset's approval, or the owner's for the collection.
unfoldable pub may_transfer_from : String → String → String → String → World → Bool
unfolding get_asset_allowance has_collection_allowance
may_transfer_from spender owner id collection_id s =
    if is_text (get_asset_allowance id s) spender
    then true
    else has_collection_allowance owner spender collection_id s

-- The writes of a delegated transfer.
unfoldable pub move_asset :
    ParsedOperation → String → String → String → AssetRow → Bool → Action World (List String)
move_asset op from to id asset had_expired_listing = do
  update_asset_owner id to op.operation_id (record {
    old_owner = asset.owner;
    collection_id = asset.collection_id;
    owner_action = "asset_transfer_from";
    owner_block_num = op.block_num;
    was_listed = had_expired_listing;
  })
  delete_asset_allowance id
  cleanup_collection_allowances_if_empty from asset.collection_id
  pure (id ∷ [])

unfoldable pub transfer_from :
    ParsedOperation → String → String → String → Action World (List String)
transfer_from op from to id = do
  lift (
      throw_if (to == "null")
        (rejection burn_recipient_delegation_forbidden Rejection.delegated_burn))
  lift (reject_if (from == to) Rejection.self_target)
  found ← gets (get_asset id)
  asset ← lift (or_reject found Rejection.not_found)
  validate_seed_provenance op asset
  lift (assert_not_pending_sale asset)
  had_expired_listing ← lift (assert_ownership_changeable asset op.timestamp)
  lift (assert_not_seed asset)
  lift (reject_if (not (asset.owner == from)) Rejection.not_owner)
  rules ← gets (get_collection_rules asset.collection_id)
  lift (reject_if (forbids_transfer rules) Rejection.not_transferable)
  allowed ← gets (may_transfer_from op.signer from id asset.collection_id)
  lift (reject_if (not allowed) Rejection.not_approved)
  move_asset op from to id asset had_expired_listing

-- The sender, the recipient and the instance.
unfoldable pub read_transfer_from_payload : ParsedOperation → Result (String × String × String)
unfolding member require_username require_string
read_transfer_from_payload op = bind (require_username (member op.payload "from")) λ from.
    bind (require_username (member op.payload "to"))
      λ to. bind (require_string (member op.payload "instanceId")) λ id. ok (from, to, id)

unfoldable pub handle_asset_transfer_from : ParsedOperation → Action World (List String)
unfolding transfer_from read_transfer_from_payload
handle_asset_transfer_from op =
    lift (read_transfer_from_payload op) >>= λ p. transfer_from op p.0 p.1 p.2
