-- ===== src/Handlers/Collections.antt =====
-- packages/indexer/src/processor/handlers/core/archive-collection.ts and
-- handlers/allowances/data-operator-approve.ts, with the statements of db/queries/collections.ts and
-- allowances.ts that they use.
use nftlox.Prelude.{
  ℕ, String, Bool, not, ◌&&◌, none, some, List, [], ◌∷◌, ◌==◌, ltb, any_where, keep_where,
  if◌then◌else◌,
}
use nftlox.Table.{get, remove, insert_new}
use nftlox.Rejection
use nftlox.Rejection.{failure}
use nftlox.Result
use nftlox.Result.{
  Result, ok, err, bind, Action, pure, lift, gets, or_reject, reject_if, ◌>>=◌, ◌>>◌,
}
use nftlox.Json.{member}
use nftlox.Validation.{require_string, require_username, require_boolean}
use nftlox.World.{World, AssetRow, DataOperatorRow}
use nftlox.Operation.{ParsedOperation}
use nftlox.Queries.Allowances.{get_collection_rules}

abbrev pub is_operator : String → String → DataOperatorRow → Bool
is_operator collection_id operator r = r.collection_id == collection_id && r.operator == operator

unfoldable pub has_data_operator_approval : String → String → World → Bool
unfolding any_where
has_data_operator_approval collection_id operator s =
    any_where (is_operator collection_id operator) s.db.data_operators

set_operators : List DataOperatorRow → World → World
set_operators rows s = record s { db = record s.db { data_operators = rows } }

unfoldable pub delete_data_operator : String → String → World → World
unfolding keep_where set_operators
delete_data_operator collection_id operator s =
    set_operators (keep_where (λ r. not (is_operator collection_id operator r)) s.db.data_operators)
      s

-- The row of a pair that exists is replaced.
unfoldable pub upsert_data_operator : DataOperatorRow → World → World
unfolding delete_data_operator set_operators
upsert_data_operator row s =
    let without = delete_data_operator row.collection_id row.operator s in
    set_operators (row ∷ without.db.data_operators) without

unfoldable pub approve_operator :
    ParsedOperation → String → String → Bool → Action World (List String)
approve_operator op collection_id operator approved = do
  lift (reject_if (operator == op.signer) Rejection.self_target)
  found ← gets (get_collection_rules collection_id)
  collection ← lift (or_reject found Rejection.collection_not_found)
  lift (reject_if (not (collection.creator == op.signer)) Rejection.not_creator)
  Result.modify (
      if approved
      then upsert_data_operator (record {
        collection_id = collection_id;
        operator = operator;
        block_num = op.block_num;
        tx_id = op.tx_id;
      })
      else delete_data_operator collection_id operator)
  pure []

unfoldable pub read_operator_payload : ParsedOperation → Result (String × String × Bool)
unfolding require_string require_username require_boolean
read_operator_payload op = bind (require_string (member op.payload "collectionId")) λ collection_id.
    bind (require_username (member op.payload "operator")) λ operator.
      bind (require_boolean (member op.payload "approved"))
        λ approved. ok (collection_id, operator, approved)

unfoldable pub handle_data_operator_approve : ParsedOperation → Action World (List String)
handle_data_operator_approve op =
    lift (read_operator_payload op) >>= λ p. approve_operator op p.0 p.1 p.2

-- `COALESCE(cs.total, 0)`
unfoldable pub asset_count : String → World → ℕ
asset_count id s = elim (get id s.db.collection_stats) [ none ↦ 0 | some c ↦ c.total ]

abbrev pub in_collection : String → String × AssetRow → Bool
in_collection id (k, r) = r.collection_id == id

-- DELETE FROM collections: the assets that refer to the row forbid it (SQLSTATE 23503,
-- foreign_key_violation); the tables that refer to it ON DELETE CASCADE follow.
unfoldable pub delete_collection : String → Action World (Unit {0})
unfolding any_where keep_where
delete_collection id s =
    if any_where (in_collection id) s.db.assets then (err (failure (some "23503")), s) else (
      ok tt,
      record s {
        db = record s.db {
          collections = remove id s.db.collections;
          collection_stats = remove id s.db.collection_stats;
          collection_allowances =
              keep_where (λ a. not (a.collection_id == id)) s.db.collection_allowances;
          data_operators = keep_where (λ o. not (o.collection_id == id)) s.db.data_operators;
        };
      },
    )

unfoldable pub archive_collection_row : ParsedOperation → String → String → World → World
archive_collection_row op id creator s = record s {
  db = record s.db {
    archived_collections =
        insert_new id (record { creator = creator; tx_id = op.tx_id }) s.db.archived_collections;
  };
}

unfoldable pub archive : ParsedOperation → String → Action World (List String)
archive op collection_id = do
  found ← gets (get_collection_rules collection_id)
  collection ← lift (or_reject found Rejection.collection_not_found)
  lift (reject_if (not (collection.creator == op.signer)) Rejection.not_creator)
  assets ← gets (asset_count collection_id)
  lift (reject_if (ltb 0 assets) Rejection.assets_remain)
  Result.modify (archive_collection_row op collection_id collection.creator)
  delete_collection collection_id
  pure []

unfoldable pub handle_archive_collection : ParsedOperation → Action World (List String)
unfolding require_string
handle_archive_collection op =
    lift (require_string (member op.payload "collectionId")) >>= λ id. archive op id
