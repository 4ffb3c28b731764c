-- ===== src/Handlers/Dispatch.antt =====
-- The handler table of packages/indexer/src/processor/action-router.ts. `others` stands for the
-- handlers that this development does not model.
use nftlox.Prelude.{String, List}
use nftlox.Result.{Action}
use nftlox.World.{World}
use nftlox.Operation.{
  ParsedOperation, ProtocolAction, transfer, list, unlist, buy_commitment, buy, asset_approve,
  asset_approve_all, asset_transfer_from, asset_lend, asset_return, node_register, node_heartbeat,
  node_state_checkpoint, archive_collection, data_operator_approve,
}
use nftlox.Protocol.ListingId.{Platform}
use nftlox.Handlers.Transfer.{handle_transfer}
use nftlox.Handlers.Listing.{handle_list, handle_unlist}
use nftlox.Handlers.Commitment.{handle_buy_commitment}
use nftlox.Handlers.Buy.{handle_buy}
use nftlox.Handlers.Allowance.{
  handle_asset_approve, handle_asset_approve_all, handle_asset_transfer_from,
}
use nftlox.Handlers.Registry.{
  handle_node_register, handle_node_heartbeat, handle_node_state_checkpoint,
}
use nftlox.Handlers.Collections.{handle_archive_collection, handle_data_operator_approve}
use nftlox.Handlers.Lending.{handle_asset_lend, handle_asset_return}

abbrev pub OtherHandlers : Type 0
OtherHandlers = ProtocolAction → ParsedOperation → Action World (List String)

unfoldable pub handlers :
    Platform → OtherHandlers → ProtocolAction → ParsedOperation → Action World (List String)
unfolding handle_transfer handle_list handle_unlist handle_buy_commitment handle_buy
    handle_asset_approve handle_asset_approve_all handle_asset_transfer_from handle_asset_lend
    handle_asset_return handle_node_register handle_node_heartbeat handle_node_state_checkpoint
    handle_archive_collection handle_data_operator_approve
handlers platform others transfer = handle_transfer
handlers platform others list = handle_list platform
handlers platform others unlist = handle_unlist
handlers platform others buy_commitment = handle_buy_commitment
handlers platform others buy = handle_buy
handlers platform others asset_approve = handle_asset_approve
handlers platform others asset_approve_all = handle_asset_approve_all
handlers platform others asset_transfer_from = handle_asset_transfer_from
handlers platform others asset_lend = handle_asset_lend
handlers platform others asset_return = handle_asset_return
handlers platform others node_register = handle_node_register platform
handlers platform others node_heartbeat = handle_node_heartbeat platform
handlers platform others node_state_checkpoint = handle_node_state_checkpoint
handlers platform others archive_collection = handle_archive_collection
handlers platform others data_operator_approve = handle_data_operator_approve
handlers platform others action = others action
