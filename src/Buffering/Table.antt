-- ===== src/Buffering/Table.antt =====
-- The handlers as the router calls them.
use nftlox.Prelude.{ltb, String, ◌≡◌, ◌⊎◌, true, false, List, ◌==◌, if◌then◌else◌, arith, inl, inr}
use nftlox.StateRoot.Rollback.{here, Extends-trans}
use nftlox.Rejection.{Thrown}
use nftlox.Result.{lift, ◌>>=◌, ◌>>◌, pure, Action, for_each, reject_if, throw_if, or_reject}
use nftlox.World.{SaleRow, CollectionRow, World, AssetRow}
use nftlox.Operation.{
  ParsedOperation, ProtocolAction, transfer, list, unlist, buy_commitment, buy, asset_approve,
  asset_approve_all, asset_transfer_from, asset_lend, asset_return, create_collection, mint,
  bulk_distribute, set_data, extend_schema, archive_collection, node_register, node_heartbeat,
  node_state_checkpoint, data_operator_approve, set_data_from,
}
use nftlox.Queries.Assets.{update_asset_owner}
use nftlox.Queries.Allowances.{delete_asset_allowance, cleanup_collection_allowances_if_empty}
use nftlox.Buffering.Actions.{
  commit_asset-Keeps, list_asset-Keeps, unlist_asset-Keeps, lend_asset-Keeps, return_asset-Keeps,
  approve_asset-Keeps, approve_collection-Keeps,
}
use nftlox.Buffering.Records.{
  handle_node_register-Keeps, handle_node_heartbeat-Keeps, handle_node_state_checkpoint-Keeps,
  handle_archive_collection-Keeps, handle_data_operator_approve-Keeps,
}
use nftlox.Buffering.Owners.{process_single_transfer-Keeps, process_burn-Keeps, transfer_from-Keeps}
use nftlox.Buffering.Statements.{
  lift-Keeps, then-Keeps, Keeps, same-Extends, update_asset_owner-Keeps, for_each-Keeps,
}
use nftlox.Protocol.ListingId.{Platform}
use nftlox.Rejection
use nftlox.Rejection.{plain_error}
use nftlox.Validation.{check_username}
use nftlox.Payment.Transfers.{VerifyTransfersParams, VerifyTransfersResult, verify_transfers}
use nftlox.Handlers.Burn.{process_burn}
use nftlox.Handlers.Transfer.{
  read_transfer_payload, process_single_transfer, handle_transfer, transfer_to, transfer_assets,
  burn_recipient,
}
use nftlox.Handlers.Listing.{list_asset, handle_list, unlist_asset, handle_unlist}
use nftlox.Handlers.Commitment.{commit_asset, handle_buy_commitment}
use nftlox.Settlement.Steps.{check_username-cases}
use nftlox.Handlers.Buy.{
  BuyPayload, Price, read_buy_payload, handle_buy, buy_asset, settle_sale, finish_sale, legs_of,
  sale_of, sold_by, insert_sale, get_asset_with_rules, assert_buyable, listing_price_of,
}
use nftlox.Handlers.Dispatch.{OtherHandlers, handlers}
use nftlox.Router.Atomic.{Queues}
use nftlox.Payment.Split.{max_royalty_bps}
use nftlox.Handlers.Allowance.{
  read_approve_payload, read_transfer_from_payload, handle_asset_approve, handle_asset_approve_all,
  handle_asset_transfer_from, approve_asset, approve_collection, transfer_from,
}
use nftlox.Handlers.Lending.{
  read_lend_payload, lend_asset, return_asset, handle_asset_lend, handle_asset_return,
}

handle_buy_commitment-Keeps : (op : ParsedOperation) → Keeps (handle_buy_commitment op)
unfolding handle_buy_commitment
handle_buy_commitment-Keeps op = lift-Keeps _ (commit_asset op) (λ p. commit_asset-Keeps op p)

handle_list-Keeps : (platform : Platform) (op : ParsedOperation) → Keeps (handle_list platform op)
unfolding handle_list
handle_list-Keeps platform op =
    lift-Keeps _ (list_asset platform op) (λ p. list_asset-Keeps platform op p)

handle_unlist-Keeps : (op : ParsedOperation) → Keeps (handle_unlist op)
unfolding handle_unlist
handle_unlist-Keeps op = lift-Keeps _ (unlist_asset op) (λ id. unlist_asset-Keeps op id)

handle_asset_return-Keeps : (op : ParsedOperation) → Keeps (handle_asset_return op)
unfolding handle_asset_return
handle_asset_return-Keeps op = lift-Keeps _ (return_asset op) (λ id. return_asset-Keeps op id)

handle_asset_lend-Keeps : (op : ParsedOperation) → Keeps (handle_asset_lend op)
unfolding handle_asset_lend
handle_asset_lend-Keeps op =
    lift-Keeps (read_lend_payload op) (λ p. lend_asset op p.0 p.1)
      (λ p. lend_asset-Keeps op p.0 p.1)

handle_asset_approve-Keeps : (op : ParsedOperation) → Keeps (handle_asset_approve op)
unfolding handle_asset_approve
handle_asset_approve-Keeps op =
    lift-Keeps (read_approve_payload "instanceId" op) (λ p. approve_asset op p.0 p.1 p.2)
      (λ p. approve_asset-Keeps op p.0 p.1 p.2)

handle_asset_approve_all-Keeps : (op : ParsedOperation) → Keeps (handle_asset_approve_all op)
unfolding handle_asset_approve_all
handle_asset_approve_all-Keeps op =
    lift-Keeps (read_approve_payload "collectionId" op) (λ p. approve_collection op p.0 p.1 p.2)
      (λ p. approve_collection-Keeps op p.0 p.1 p.2)

handle_asset_transfer_from-Keeps : (op : ParsedOperation) → Keeps (handle_asset_transfer_from op)
unfolding handle_asset_transfer_from
handle_asset_transfer_from-Keeps op =
    lift-Keeps (read_transfer_from_payload op) (λ p. transfer_from op p.0 p.1 p.2)
      (λ p. transfer_from-Keeps op p.0 p.1 p.2)

loop-Keeps :
    (ids : List String) (f : String → Action World (Unit {0}))
    → ((id : String) → Keeps (f id))
    → Keeps (for_each ids f >> pure ids)
loop-Keeps ids f k =
    then-Keeps (for_each ids f) (λ _. pure ids) (for_each-Keeps ids f k) (λ _ s. here)

transfer_to-Keeps :
    (op : ParsedOperation) (to_raw : String) (ids : List String) → Keeps (transfer_to op to_raw ids)
unfolding transfer_to
transfer_to-Keeps op to_raw ids =
    lift-Keeps (check_username to_raw)
      (λ to.
        lift (reject_if (to == op.signer) Rejection.self_target)
        >> (for_each ids (process_single_transfer op to) >> pure ids))
      (λ to.
        lift-Keeps (reject_if (to == op.signer) Rejection.self_target)
          (λ _. for_each ids (process_single_transfer op to) >> pure ids)
          (λ _.
            loop-Keeps ids (process_single_transfer op to)
              (λ id. process_single_transfer-Keeps op to id)))

transfer_assets-Keeps :
    (op : ParsedOperation) (to_raw : String) (ids : List String)
    → Keeps (transfer_assets op to_raw ids)
unfolding transfer_assets
transfer_assets-Keeps op to_raw ids =
    elim (to_raw == burn_recipient)
      as (λ b.
        Keeps
          (if b then for_each ids (process_burn op) >> pure ids else transfer_to op to_raw ids)) [
            | true ↦ loop-Keeps ids (process_burn op) (λ id. process_burn-Keeps op id)
            | false ↦ transfer_to-Keeps op to_raw ids
          ]

handle_transfer-Keeps : (op : ParsedOperation) → Keeps (handle_transfer op)
unfolding handle_transfer
handle_transfer-Keeps op =
    lift-Keeps (read_transfer_payload op) (λ p. transfer_assets op p.0 p.1)
      (λ p. transfer_assets-Keeps op p.0 p.1)

verify_transfers-buffer :
    (q : VerifyTransfersParams) (s : World) → (verify_transfers q s).1.buffer ≡ s.buffer
unfolding verify_transfers
verify_transfers-buffer q s = ground arith

insert_sale-buffer : (a : SaleRow) (s : World) → (insert_sale a s).1.buffer ≡ s.buffer
unfolding insert_sale
insert_sale-buffer a s = ground arith

finish_sale-buffer :
    (op : ParsedOperation) (p : BuyPayload) (r : AssetRow) (price : Price)
    (v : VerifyTransfersResult) (s : World)
    → ((finish_sale op p r price v s).1.buffer ≡ s.buffer)
      ⊎ ((finish_sale op p r price v s).1.buffer
          ≡ (insert_sale (sale_of op p r price v v.buyer_from_transfer) s).1.buffer)
      ⊎ ((finish_sale op p r price v s).1.buffer
          ≡ (update_asset_owner p.asset_id v.buyer_from_transfer op.operation_id
              (sold_by op r)
              (insert_sale (sale_of op p r price v v.buyer_from_transfer) s).1).1.buffer)
unfolding finish_sale delete_asset_allowance cleanup_collection_allowances_if_empty
finish_sale-buffer op p r price v s = ground (arith, check_username-cases v.buyer_from_transfer)

finish_sale-Keeps :
    (op : ParsedOperation) (p : BuyPayload) (r : AssetRow) (price : Price)
    (v : VerifyTransfersResult)
    → Keeps (finish_sale op p r price v)
finish_sale-Keeps op p r price v s =
    let sale = sale_of op p r price v v.buyer_from_transfer in
    let noted = same-Extends s.buffer (insert_sale sale s).1.buffer (insert_sale-buffer sale s) in
    elim (finish_sale-buffer op p r price v s) [
      | inl e ↦ same-Extends _ _ e
      | inr (inl e) ↦ rw e noted
      | inr (inr e) ↦ rw e (
          Extends-trans noted (
            update_asset_owner-Keeps p.asset_id v.buyer_from_transfer op.operation_id (sold_by op r)
              (insert_sale sale s).1))
    ]

settle_sale-Keeps :
    (op : ParsedOperation) (p : BuyPayload) (r : AssetRow) (c : CollectionRow)
    → Keeps (settle_sale op p r c)
unfolding settle_sale
settle_sale-Keeps op p r c = lift-Keeps (assert_buyable op p r c) _ (λ _.
    lift-Keeps (listing_price_of r) _ (λ price.
      lift-Keeps (throw_if (ltb max_royalty_bps c.royalty_bps) plain_error)
        (λ _. verify_transfers (legs_of op p.asset_id r c price) >>= finish_sale op p r price)
        (λ _.
          then-Keeps (verify_transfers (legs_of op p.asset_id r c price)) (finish_sale op p r price)
            (λ s. same-Extends _ _ (verify_transfers-buffer (legs_of op p.asset_id r c price) s))
            (λ v. finish_sale-Keeps op p r price v))))

buy_asset-Keeps : (op : ParsedOperation) (p : BuyPayload) → Keeps (buy_asset op p)
unfolding buy_asset
buy_asset-Keeps op p s =
    lift-Keeps (or_reject (get_asset_with_rules p.asset_id s) Rejection.not_found)
      (λ row. settle_sale op p row.0 row.1) (λ row. settle_sale-Keeps op p row.0 row.1) s

handle_buy-Keeps : (op : ParsedOperation) → Keeps (handle_buy op)
unfolding handle_buy
handle_buy-Keeps op = lift-Keeps (read_buy_payload op) (buy_asset op) (buy_asset-Keeps op)

handlers-Keeps :
    (platform : Platform) (others : OtherHandlers) (action : ProtocolAction) (op : ParsedOperation)
    → Keeps (others action op)
    → Keeps (handlers platform others action op)
unfolding handlers
handlers-Keeps platform others create_collection op h = h
handlers-Keeps platform others mint op h = h
handlers-Keeps platform others bulk_distribute op h = h
handlers-Keeps platform others set_data op h = h
handlers-Keeps platform others extend_schema op h = h
handlers-Keeps platform others archive_collection op h = handle_archive_collection-Keeps op
handlers-Keeps platform others node_register op h = handle_node_register-Keeps platform op
handlers-Keeps platform others node_heartbeat op h = handle_node_heartbeat-Keeps platform op
handlers-Keeps platform others node_state_checkpoint op h = handle_node_state_checkpoint-Keeps op
handlers-Keeps platform others data_operator_approve op h = handle_data_operator_approve-Keeps op
handlers-Keeps platform others set_data_from op h = h
handlers-Keeps platform others transfer op h = handle_transfer-Keeps op
handlers-Keeps platform others unlist op h = handle_unlist-Keeps op
handlers-Keeps platform others buy_commitment op h = handle_buy_commitment-Keeps op
handlers-Keeps platform others buy op h = handle_buy-Keeps op
handlers-Keeps platform others asset_approve op h = handle_asset_approve-Keeps op
handlers-Keeps platform others asset_approve_all op h = handle_asset_approve_all-Keeps op
handlers-Keeps platform others asset_transfer_from op h = handle_asset_transfer_from-Keeps op
handlers-Keeps platform others asset_lend op h = handle_asset_lend-Keeps op
handlers-Keeps platform others asset_return op h = handle_asset_return-Keeps op
handlers-Keeps platform others list op h = handle_list-Keeps platform op

-- If the handlers that are not modelled write to the state-root buffer only by queueing, so does
-- every handler of the table.
pub handlers-Queues :
    (platform : Platform) (others : OtherHandlers)
    → Queues others
    → Queues (handlers platform others)
handlers-Queues platform others h op = handlers-Keeps platform others op.action op (h op)
