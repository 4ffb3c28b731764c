-- ===== src/Tests/Routing.antt =====
-- The router over a handler that writes before it throws, and the table with refusing handlers.
use nftlox.Prelude.{some, ◌≡◌, refl, [], ◌∷◌, ◌++◌}
use nftlox.Rejection
use nftlox.Rejection.{protocol_rejection, protocol_reject, plain_error}
use nftlox.Result.{ok, err}
use nftlox.Table.{has_key}
use nftlox.StateRoot.Buffer
use nftlox.StateRoot.Buffer.{BufferedMutation, queue, rollback_to, checkpoint}
use nftlox.StateRoot.Rollback.{here, queued}
use nftlox.Operation.{ProtocolAction, transfer, create_collection, ParsedOperation}
use nftlox.Json.{property, str, no_properties}
use nftlox.Queries.Assets.{state_row}
use nftlox.Router.Route.{Handler, applied, route_operation}
use nftlox.Router.Atomic.{Untouched, route_operation-Untouched}
use nftlox.Router.Replay.{route_operation-replay}
use nftlox.Tests.Store.{world, operation, listed_row, reserved_row}

abbrev moved : BufferedMutation
moved = Buffer.update (state_row "free" listed_row) (state_row "free" reserved_row) 120

-- Deletes the assets, claims a transfer, queues a delta and throws.
abbrev spoiling : ProtocolAction → Handler
spoiling action op s = (
  err (protocol_reject Rejection.not_owner),
  record s {
    db = record s.db { assets = [] };
    buffer = queue moved s.buffer;
    consumed = s.consumed ++ 0 ∷ [];
  },
)

route_operation-Untouched_example :
    Untouched world (route_operation spoiling (operation transfer "bobby" "tx6") world).1
unfolding route_operation has_key queue
route_operation-Untouched_example =
    route_operation-Untouched spoiling (λ op s. queued moved here)
      (operation transfer "bobby" "tx6") world
      (route_operation spoiling (operation transfer "bobby" "tx6") world).1 protocol_rejection
      Rejection.not_owner refl

-- Deletes the assets and returns.
abbrev clearing : ProtocolAction → Handler
clearing action op s = (ok ("free" ∷ []), record s { db = record s.db { assets = [] } })

route_operation-replay_example :
    route_operation clearing
      (operation transfer "bobby" "tx6")
      (route_operation clearing (operation transfer "bobby" "tx6") world).1
    ≡ (applied, (route_operation clearing (operation transfer "bobby" "tx6") world).1)
unfolding route_operation has_key
route_operation-replay_example =
    route_operation-replay clearing (operation transfer "bobby" "tx6") world
      (route_operation clearing (operation transfer "bobby" "tx6") world).1 refl

-- A node creates a collection, and pays its fee.
abbrev creation : ParsedOperation
creation = record (operation create_collection "node1" "tx6") {
  payload = property "id" (str "gems") no_properties;
  transfers = some (
      record {
        from = "alice";
        to = "node1";
        amount = 100;
        currency = "HBD";
        memo = "NFTLox FEE-COL:gems";
      }
      ∷ []);
}
