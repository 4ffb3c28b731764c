-- ===== src/Router/Route.antt =====
-- routeOperationDetailed of packages/indexer/src/processor/action-router.ts, over any table of
-- handlers. A savepoint that is rolled back restores the database; the buffer of state-root deltas
-- and the claimed transfers are restored by the code.
use nftlox.Prelude.{
  ℕ, String, Bool, not, ◌&&◌, ◌||◌, Option, none, some, List, [], ◌∷◌, ◌++◌, ◌==◌, any_where,
  if◌then◌else◌,
}
use nftlox.Table.{insert_new, has_key}
use nftlox.StateRoot.Buffer.{checkpoint, rollback_to}
use nftlox.Rejection
use nftlox.Rejection.{
  RejectionCode, protocol_rejection, Reason, Thrown, plain_error, classify_execution_error,
}
use nftlox.Result.{Result, ok, err, Action, lift, gets, when, ◌>>=◌, ◌>>◌}
use nftlox.World.{World, InvalidRow, OrphanedBuyRow}
use nftlox.Operation.{
  ParsedOperation, ProtocolAction, TransferDetail, bulk_distribute, buy, auth_matches,
  requires_active_node_signer,
}
use nftlox.Queries.Nodes.{assert_active_settlement_node}
use nftlox.Router.Payment.{
  get_payment_requirement, requirement_needs_active_node_signer, run_pre_handler_payment_validation,
}

abbrev pub Handler : Type 0
Handler = ParsedOperation → Action World (List String)

pub data RouteOperationResult : Type 0 where
  applied : RouteOperationResult
  rejected : RejectionCode → Reason → RouteOperationResult
  fatal : Bool → RouteOperationResult

unfoldable pub is_operation_confirmed : String → World → Bool
is_operation_confirmed id s = has_key id s.db.confirmed_operations

abbrev pub is_same_invalid : InvalidRow → InvalidRow → Bool
is_same_invalid a b = a.tx_id == b.tx_id && a.operation_id == b.operation_id

-- ON CONFLICT DO NOTHING, with the unique index on (tx_id, operation_id)
unfoldable pub insert_invalid_operation : InvalidRow → World → World
insert_invalid_operation r s =
    if any_where (is_same_invalid r) s.db.invalid_operations
    then s
    else record s { db = record s.db { invalid_operations = r ∷ s.db.invalid_operations } }

abbrev pub is_same_orphan : OrphanedBuyRow → OrphanedBuyRow → Bool
is_same_orphan a b = a.tx_id == b.tx_id && a.operation_id == b.operation_id

unfoldable pub insert_orphaned_buy : OrphanedBuyRow → World → World
insert_orphaned_buy r s =
    if any_where (is_same_orphan r) s.db.orphaned_buys
    then s
    else record s { db = record s.db { orphaned_buys = r ∷ s.db.orphaned_buys } }

unfoldable pub confirmed_operation_asset_ids : ProtocolAction → List String → List String
confirmed_operation_asset_ids bulk_distribute ids = []
confirmed_operation_asset_ids _ ids = ids

unfoldable pub insert_confirmed_operation : ParsedOperation → List String → World → World
unfolding confirmed_operation_asset_ids
insert_confirmed_operation op ids s = record s {
  db = record s.db {
    confirmed_operations =
        insert_new op.operation_id
          (record {
            tx_id = op.tx_id;
            block_num = op.block_num;
            signer = op.signer;
            asset_ids = confirmed_operation_asset_ids op.action ids;
          })
          s.db.confirmed_operations;
  };
}

abbrev pub invalid_row : ParsedOperation → Reason → InvalidRow
invalid_row op reason = record {
  block_num = op.block_num;
  tx_id = op.tx_id;
  operation_id = op.operation_id;
  signer = op.signer;
  reason = reason;
}

-- A failed buy with transfers is flagged, under the sender of its first transfer.
unfoldable pub flag_orphan : ParsedOperation → Reason → Option (List TransferDetail) → World → World
unfolding insert_orphaned_buy
flag_orphan op reason none s = s
flag_orphan op reason (some []) s = s
flag_orphan op reason (some (t ∷ ts)) s =
    insert_orphaned_buy
      (record {
        block_num = op.block_num;
        tx_id = op.tx_id;
        operation_id = op.operation_id;
        buyer = t.from;
        reason = reason;
      })
      s

unfoldable pub record_rejection : ParsedOperation → Reason → World → World
unfolding insert_invalid_operation flag_orphan
record_rejection op reason s =
    let noted = insert_invalid_operation (invalid_row op reason) s in
    elim op.action [ buy ↦ flag_orphan op reason op.transfers noted | _ ↦ noted ]

-- The inner catch.
unfoldable pub handle_failure : ParsedOperation → Thrown → World → RouteOperationResult × World
unfolding classify_execution_error record_rejection
handle_failure op e s = elim (classify_execution_error e) [
  | Rejection.fatal transient ↦ (fatal transient, s)
  | Rejection.rejected code reason ↦ (rejected code reason, record_rejection op reason s)
]

-- What the router puts back when the handler throws, `before` the savepoint and after it. A
-- checkpoint beyond the log makes rollbackTo throw.
unfoldable pub roll_back : World → World → Result World
unfolding rollback_to checkpoint
roll_back before after = elim (rollback_to (checkpoint before.buffer) after.buffer) [
  | none ↦ err plain_error
  | some b ↦ ok (record before { buffer = b })
]

-- The gate on settlement nodes, and the fee.
unfoldable pub check_before_handler : ParsedOperation → Action World (List ℕ)
unfolding requires_active_node_signer get_payment_requirement requirement_needs_active_node_signer
    assert_active_settlement_node run_pre_handler_payment_validation
check_before_handler op = do
  let requirement = get_payment_requirement op.action
  when (requirement_needs_active_node_signer requirement || requires_active_node_signer op.action)
      (assert_active_settlement_node op.signer op.block_num)
  consumed ← gets (λ (s : World). s.consumed)
  lift (run_pre_handler_payment_validation op consumed requirement)

module _ (handlers : ProtocolAction → Handler) where
  -- The handler in its savepoint, and what follows it.
  unfoldable pub run_handler : ParsedOperation → List ℕ → World → RouteOperationResult × World
  unfolding handle_failure roll_back insert_confirmed_operation
  run_handler op matched before =
      let (result, after) = handlers op.action op before in
      elim result [
        | ok ids ↦ (
          applied,
          insert_confirmed_operation op ids (record after { consumed = after.consumed ++ matched }),
        )
        | err e ↦ elim (roll_back before after) [
          | ok restored ↦ handle_failure op e restored
          | err e' ↦ handle_failure op e' after
        ]
      ]

  unfoldable pub route_operation : ParsedOperation → World → RouteOperationResult × World
  unfolding is_operation_confirmed auth_matches insert_invalid_operation check_before_handler
      handle_failure run_handler
  route_operation op s =
      if is_operation_confirmed op.operation_id s
      then (applied, s)
      else if not (auth_matches op.action op.auth_level)
      then (
        rejected protocol_rejection Rejection.auth_mismatch,
        insert_invalid_operation (invalid_row op Rejection.auth_mismatch) s,
      )
      else (let (checked, s1) = check_before_handler op s in
          elim checked [ err e ↦ handle_failure op e s1 | ok matched ↦ run_handler op matched s1 ])
