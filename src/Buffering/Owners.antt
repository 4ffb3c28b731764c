-- ===== src/Buffering/Owners.antt =====
-- The handlers that change an owner or delete an asset.
use nftlox.Prelude.{String, ◌≡◌, ◌⊎◌, Bool, none, some, arith, inl, inr, Option-cases}
use nftlox.StateRoot.Rollback.{Extends, here}
use nftlox.Rejection.{Thrown}
use nftlox.Result.{ok, err, Result-cases}
use nftlox.World.{World, AssetRow, BurnedRow}
use nftlox.Operation.{ParsedOperation}
use nftlox.Queries.Assets.{get_asset, update_asset_owner}
use nftlox.Queries.Allowances.{delete_asset_allowance, cleanup_collection_allowances_if_empty}
use nftlox.Queries.Loans.{hard_delete_asset}
use nftlox.Provenance.{validate_seed_provenance}
use nftlox.StatusChecks.{assert_ownership_changeable}
use nftlox.Buffering.Actions.{seed_provenance-state}
use nftlox.Buffering.Statements.{
  Keeps, same-Extends, update_asset_owner-Keeps, hard_delete_asset-Keeps,
}
use nftlox.Handlers.Burn.{process_burn, assert_burnable_seed}
use nftlox.Handlers.Transfer.{process_single_transfer}
use nftlox.Handlers.Allowance.{transfer_from, move_asset}

-- The row that a stage may have written the new owner of, over the state `s`.
abbrev owner_write : String → String → ParsedOperation → String → AssetRow → Bool → World → World
owner_write action to op id r expired s =
    (update_asset_owner id to op.operation_id
      (record {
        old_owner = r.owner;
        collection_id = r.collection_id;
        owner_action = action;
        owner_block_num = op.block_num;
        was_listed = expired;
      })
      s).1

owner_write-Extends :
    (action to : String) (op : ParsedOperation) (id : String) (r : AssetRow) (expired : Bool)
    (s : World)
    → Extends s.buffer (owner_write action to op id r expired s).buffer
owner_write-Extends action to op id r expired s = update_asset_owner-Keeps id to op.operation_id _ s

single-missing :
    (op : ParsedOperation) (to id : String) (s : World)
    → get_asset id s ≡ none
    → (process_single_transfer op to id s).1.buffer ≡ s.buffer
unfolding process_single_transfer
single-missing op to id s e = ground (arith, e)

single-refused :
    (op : ParsedOperation) (to id : String) (s : World) (r : AssetRow) (x : Thrown)
    → get_asset id s ≡ some r
    → assert_ownership_changeable r op.timestamp ≡ err x
    → (process_single_transfer op to id s).1.buffer ≡ s.buffer
unfolding process_single_transfer
single-refused op to id s r x e k = ground (arith, e, k, seed_provenance-state op r s)

single-write :
    (op : ParsedOperation) (to id : String) (s : World) (r : AssetRow) (expired : Bool)
    → get_asset id s ≡ some r
    → assert_ownership_changeable r op.timestamp ≡ ok expired
    → ((process_single_transfer op to id s).1.buffer ≡ s.buffer)
      ⊎ ((process_single_transfer op to id s).1.buffer
          ≡ (owner_write "transfer" to op id r expired s).buffer)
unfolding process_single_transfer validate_seed_provenance delete_asset_allowance
    cleanup_collection_allowances_if_empty
single-write op to id s r expired e k = ground (arith, e, k, seed_provenance-state op r s)

pub process_single_transfer-Keeps :
    (op : ParsedOperation) (to id : String) → Keeps (process_single_transfer op to id)
process_single_transfer-Keeps op to id s = elim (Option-cases (get_asset id s)) [
  | inl e ↦ same-Extends _ _ (single-missing op to id s e)
  | inr (r, e) ↦ elim (Result-cases (assert_ownership_changeable r op.timestamp)) [
    | inr (x, k) ↦ same-Extends _ _ (single-refused op to id s r x e k)
    | inl (expired, k) ↦ elim (single-write op to id s r expired e k) [
      | inl l ↦ same-Extends _ _ l
      | inr l ↦ rw l (owner_write-Extends "transfer" to op id r expired s)
    ]
  ]
]

from-missing :
    (op : ParsedOperation) (from to id : String) (s : World)
    → get_asset id s ≡ none
    → (transfer_from op from to id s).1.buffer ≡ s.buffer
unfolding transfer_from
from-missing op from to id s e = ground (arith, e)

from-refused :
    (op : ParsedOperation) (from to id : String) (s : World) (r : AssetRow) (x : Thrown)
    → get_asset id s ≡ some r
    → assert_ownership_changeable r op.timestamp ≡ err x
    → (transfer_from op from to id s).1.buffer ≡ s.buffer
unfolding transfer_from
from-refused op from to id s r x e k = ground (arith, e, k, seed_provenance-state op r s)

from-write :
    (op : ParsedOperation) (from to id : String) (s : World) (r : AssetRow) (expired : Bool)
    → get_asset id s ≡ some r
    → assert_ownership_changeable r op.timestamp ≡ ok expired
    → ((transfer_from op from to id s).1 ≡ s)
      ⊎ ((transfer_from op from to id s).1 ≡ (move_asset op from to id r expired s).1)
unfolding transfer_from
from-write op from to id s r expired e k = ground (arith, e, k, seed_provenance-state op r s)

move_asset-buffer :
    (op : ParsedOperation) (from to id : String) (r : AssetRow) (expired : Bool) (s : World)
    → (move_asset op from to id r expired s).1.buffer
      ≡ (owner_write "asset_transfer_from" to op id r expired s).buffer
unfolding move_asset delete_asset_allowance cleanup_collection_allowances_if_empty
move_asset-buffer op from to id r expired s = ground arith

pub transfer_from-Keeps :
    (op : ParsedOperation) (from to id : String) → Keeps (transfer_from op from to id)
transfer_from-Keeps op from to id s = elim (Option-cases (get_asset id s)) [
  | inl e ↦ same-Extends _ _ (from-missing op from to id s e)
  | inr (r, e) ↦ elim (Result-cases (assert_ownership_changeable r op.timestamp)) [
    | inr (x, k) ↦ same-Extends _ _ (from-refused op from to id s r x e k)
    | inl (expired, k) ↦ elim (from-write op from to id s r expired e k) [
      | inl l ↦ rw l here
      | inr l ↦ rw l (
          rw (move_asset-buffer op from to id r expired s)
            (owner_write-Extends "asset_transfer_from" to op id r expired s))
    ]
  ]
]

burn-missing :
    (op : ParsedOperation) (id : String) (s : World)
    → get_asset id s ≡ none
    → (process_burn op id s).1.buffer ≡ s.buffer
unfolding process_burn
burn-missing op id s e = ground (arith, e)

abbrev burned_row : ParsedOperation → AssetRow → BurnedRow
burned_row op r = record {
  collection_id = r.collection_id;
  burned_by = op.signer;
  tx_id = op.tx_id;
  operation_id = op.operation_id;
}

burn-write :
    (op : ParsedOperation) (id : String) (s : World) (r : AssetRow)
    → get_asset id s ≡ some r
    → ((process_burn op id s).1.buffer ≡ s.buffer)
      ⊎ ((process_burn op id s).1.buffer
          ≡ (hard_delete_asset id (burned_row op r) op.block_num s).1.buffer)
unfolding process_burn assert_burnable_seed validate_seed_provenance
    cleanup_collection_allowances_if_empty
burn-write op id s r e = ground (arith, e, seed_provenance-state op r s)

pub process_burn-Keeps : (op : ParsedOperation) (id : String) → Keeps (process_burn op id)
process_burn-Keeps op id s = elim (Option-cases (get_asset id s)) [
  | inl e ↦ same-Extends _ _ (burn-missing op id s e)
  | inr (r, e) ↦ elim (burn-write op id s r e) [
    | inl l ↦ same-Extends _ _ l
    | inr l ↦ rw l (hard_delete_asset-Keeps id (burned_row op r) op.block_num s)
  ]
]
