-- ===== src/Handlers/Transfer.antt =====
-- packages/indexer/src/processor/handlers/core/transfer.ts.
use nftlox.Prelude.{ℕ, String, not, List, [], ◌∷◌, ◌==◌, ltb, eqb, if◌then◌else◌}
use nftlox.Rejection
use nftlox.Rejection.{protocol_reject}
use nftlox.Result.{
  Result, ok, err, bind, Action, pure, lift, gets, for_each, or_reject, reject_if, ◌>>=◌, ◌>>◌,
}
use nftlox.Json.{Value, Items, Fields, no_items, item, array, member, has_own, item_count}
use nftlox.Validation.{require_string, check_username}
use nftlox.World.{World}
use nftlox.Operation.{ParsedOperation}
use nftlox.Queries.Assets.{get_asset, update_asset_owner}
use nftlox.Queries.Allowances.{
  delete_asset_allowance, cleanup_collection_allowances_if_empty, get_collection_rules,
  forbids_transfer,
}
use nftlox.StatusChecks.{assert_not_pending_sale, assert_ownership_changeable}
use nftlox.Provenance.{validate_seed_provenance}
use nftlox.Handlers.Burn.{process_burn}

abbrev pub max_transfer_batch_size : ℕ
max_transfer_batch_size = 50

abbrev pub burn_recipient : String
burn_recipient = "null"

require_strings : Items → Result (List String)
unfolding require_string
require_strings no_items = ok []
require_strings (item v vs) =
    bind (require_string v) (λ s. bind (require_strings vs) (λ ss. ok (s ∷ ss)))

batch_ids : Items → Result (List String)
unfolding require_strings item_count
batch_ids ids =
    if eqb (item_count ids) 0
    then err (protocol_reject Rejection.empty_batch)
    else if ltb max_transfer_batch_size (item_count ids)
    then err (protocol_reject Rejection.batch_too_large)
    else require_strings ids

ids_of_field : Value → Fields → Result (List String)
unfolding batch_ids require_string member
ids_of_field (array ids) payload = batch_ids ids
ids_of_field _ payload = bind (require_string (member payload "assetId")) (λ id. ok (id ∷ []))

-- `Array.isArray(data.assetIds)` picks the batch.
unfoldable pub resolve_asset_ids : Fields → Result (List String)
unfolding ids_of_field member
resolve_asset_ids payload = ids_of_field (member payload "assetIds") payload

unfoldable pub process_single_transfer : ParsedOperation → String → String → Action World (Unit {0})
process_single_transfer op to id = do
  found ← gets (get_asset id)
  asset ← lift (or_reject found Rejection.not_found)
  validate_seed_provenance op asset
  lift (assert_not_pending_sale asset)
  had_expired_listing ← lift (assert_ownership_changeable asset op.timestamp)
  lift (reject_if (not (asset.owner == op.signer)) Rejection.not_owner)
  rules ← gets (get_collection_rules asset.collection_id)
  lift (reject_if (forbids_transfer rules) Rejection.not_transferable)
  update_asset_owner id to op.operation_id (record {
    old_owner = asset.owner;
    collection_id = asset.collection_id;
    owner_action = "transfer";
    owner_block_num = op.block_num;
    was_listed = had_expired_listing;
  })
  delete_asset_allowance id
  cleanup_collection_allowances_if_empty op.signer asset.collection_id

-- The loop of a transfer to an account.
unfoldable pub transfer_to : ParsedOperation → String → List String → Action World (List String)
unfolding for_each
transfer_to op to_raw ids = do
  to ← lift (check_username to_raw)
  lift (reject_if (to == op.signer) Rejection.self_target)
  for_each ids (process_single_transfer op to)
  pure ids

unfoldable pub read_transfer_payload : ParsedOperation → Result (String × List String)
unfolding resolve_asset_ids require_string member has_own
read_transfer_payload op = bind (reject_if (has_own op.payload "from") Rejection.from_declared) λ _.
    bind (require_string (member op.payload "to"))
      λ to_raw. bind (resolve_asset_ids op.payload) λ ids. ok (to_raw, ids)

-- A transfer to "null" burns.
unfoldable pub transfer_assets : ParsedOperation → String → List String → Action World (List String)
transfer_assets op to_raw ids =
    if to_raw == burn_recipient
    then for_each ids (process_burn op) >> pure ids
    else transfer_to op to_raw ids

unfoldable pub handle_transfer : ParsedOperation → Action World (List String)
unfolding read_transfer_payload transfer_assets
handle_transfer op = lift (read_transfer_payload op) >>= λ p. transfer_assets op p.0 p.1
