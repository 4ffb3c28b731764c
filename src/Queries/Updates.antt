-- ===== src/Queries/Updates.antt =====
-- What a SELECT of one asset sees after the statements on the `assets` table.
use nftlox.Prelude.{String, ◌≡◌, true, false, some, ◌==◌, if◌then◌else◌, arith, eq_iff}
use mathlib.Core.Option
use nftlox.Table.{get-modify}
use nftlox.Result.{ok}
use nftlox.World.{World, AssetRow}
use nftlox.Queries.Constraints.{satisfies_checks, owner_block_regresses}
use nftlox.Queries.Assets.{
  get_asset, update_asset, update_asset_owner, owner_changed, OwnerChangeCtx,
  queue_state_root_delta, decrement_collection_listed,
}

pub get-update_asset :
    (id : String) (f : AssetRow → AssetRow) (s s' : World)
    → update_asset id f s ≡ (ok tt, s')
    → (j : String)
    → get_asset j s' ≡ (if id == j then Option.map f (get_asset j s) else get_asset j s)
unfolding update_asset get_asset
get-update_asset id f s s' h j = ground (arith, h, eq_iff id j, get-modify id j f s.db.assets)

-- A row that a successful update wrote passed the constraints.
pub update_asset-satisfies_checks :
    (id : String) (f : AssetRow → AssetRow) (s s' : World) (r : AssetRow)
    → update_asset id f s ≡ (ok tt, s')
    → get_asset id s ≡ some r
    → satisfies_checks (f r) ≡ true
unfolding update_asset get_asset
update_asset-satisfies_checks id f s s' r h e = ground (arith, h, e)

-- An update that passes the constraints does not throw.
pub update_asset-passes :
    (id : String) (f : AssetRow → AssetRow) (s : World) (r : AssetRow)
    → get_asset id s ≡ some r
    → owner_block_regresses r (f r) ≡ false
    → satisfies_checks (f r) ≡ true
    → (update_asset id f s).0 ≡ ok tt
unfolding update_asset get_asset
update_asset-passes id f s r e h k = ground (arith, h, e, k)

-- What follows an owner change does not touch the other rows, and the row gets its new owner.
pub get-update_asset_owner :
    (id new_owner operation_id : String) (ctx : OwnerChangeCtx) (s s' : World)
    → update_asset_owner id new_owner operation_id ctx s ≡ (ok tt, s')
    → (j : String)
    → get_asset j s' ≡ (
        if id == j
        then Option.map (owner_changed new_owner operation_id ctx) (get_asset j s)
        else get_asset j s)
unfolding update_asset_owner update_asset get_asset queue_state_root_delta
    decrement_collection_listed
get-update_asset_owner id new_owner operation_id ctx s s' h j =
    ground (
      arith,
      h,
      eq_iff id j,
      get-modify id j (owner_changed new_owner operation_id ctx) s.db.assets,
    )
