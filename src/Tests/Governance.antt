-- ===== src/Tests/Governance.antt =====
-- Nodes, operators and collections of the small store.
use nftlox.Prelude.{refl, true, []}
use nftlox.Table.{get}
use nftlox.World.{World}
use nftlox.Operation.{
  ParsedOperation, node_register, node_heartbeat, data_operator_approve, archive_collection,
}
use nftlox.Queries.Allowances.{get_collection_rules}
use nftlox.Handlers.Registry.{register_node, heartbeat_node, note_heartbeat}
use nftlox.Handlers.Collections.{approve_operator}
use nftlox.Governance.Nodes.{
  Reregistered, register_node-Reregistered, Heartbeat, heartbeat_node-Heartbeat,
}
use nftlox.Governance.Collections.{Approves, approve_operator-Approves}
use nftlox.Tests.Store.{world, db, node, rules, operation}

abbrev registration : ParsedOperation
registration = operation node_register "node1" "tx8"

register_node-Reregistered_example :
    Reregistered registration "n.example" node world (register_node registration "n.example" world)
unfolding get
register_node-Reregistered_example =
    register_node-Reregistered registration "n.example" node world refl

abbrev beat : ParsedOperation
beat = record (operation node_heartbeat "node1" "tx9") { block_num = 90000 }

heartbeat_node-Heartbeat_example :
    Heartbeat beat world (heartbeat_node beat 89999 "sha256:00" "1.0" world).1
unfolding heartbeat_node get note_heartbeat
heartbeat_node-Heartbeat_example =
    heartbeat_node-Heartbeat beat 89999 "sha256:00" "1.0" world
      (heartbeat_node beat 89999 "sha256:00" "1.0" world).1 [] refl

abbrev approval : ParsedOperation
approval = operation data_operator_approve rules.creator "tx10"

approve_operator-Approves_example :
    Approves approval "col" "dora" true world (approve_operator approval "col" "dora" true world).1
unfolding approve_operator get_collection_rules get
approve_operator-Approves_example =
    approve_operator-Approves approval "col" "dora" true world
      (approve_operator approval "col" "dora" true world).1 [] refl

-- The store without its assets.
abbrev emptied : World
emptied = record world { db = record db { assets = []; collection_stats = [] } }

abbrev archival : ParsedOperation
archival = operation archive_collection rules.creator "tx11"
