-- ===== src/Ownership/Transfers.antt =====
-- A transfer that succeeds was authorized, and moves one asset.
use nftlox.Prelude.{
  ℕ, ◌≤◌, ◌⊎◌, ◌&&◌, Option, any_where, Bool-cases, if◌then◌else◌, String, ◌≡◌, ◌≢◌, refl, Bool,
  true, false, none, some, List, ◌==◌, arith, inl, inr, Option-cases, eq_iff, eq_of_==,
}
use nftlox.Table.{get, get-remove}
use nftlox.Rejection.{Thrown}
use nftlox.Result.{ok, err, Result-cases}
use nftlox.World.{
  World, AssetRow, AssetStatus, AllowanceRow, CollectionAllowanceRow, CollectionRow, active, listed,
  pending_sale, lent,
}
use nftlox.Queries.Constraints.{is_pending_status, is_lent_status, is_listed_status}
use nftlox.Ownership.Rows.{owned_row}
use nftlox.Operation.{ParsedOperation}
use nftlox.Queries.Assets.{get_asset, update_asset_owner, OwnerChangeCtx}
use nftlox.Queries.Allowances.{
  delete_asset_allowance, cleanup_collection_allowances_if_empty, get_asset_allowance,
  has_collection_allowance, get_collection_rules, forbids_transfer,
}
use nftlox.Queries.Updates.{get-update_asset_owner}
use nftlox.StatusChecks.{
  assert_not_pending_sale, assert_ownership_changeable, assert_not_seed, is_seed_kind,
  is_listing_expired, assert_transferable, assert_actionable, assert_not_lent,
}
use nftlox.Buffering.Actions.{seed_provenance-state}
use nftlox.Handlers.Allowance.{transfer_from, move_asset, may_transfer_from}

abbrev pub moved_by : String → ParsedOperation → AssetRow → Bool → OwnerChangeCtx
moved_by action op r expired = record {
  old_owner = r.owner;
  collection_id = r.collection_id;
  owner_action = action;
  owner_block_num = op.block_num;
  was_listed = expired;
}

from-absent :
    (op : ParsedOperation) (from to id : String) (s s' : World) (ids : List String)
    → get_asset id s ≡ none
    → transfer_from op from to id s ≢ (ok ids, s')
unfolding transfer_from
from-absent op from to id s s' ids e = ground (arith, e)

from-unchangeable :
    (op : ParsedOperation) (from to id : String) (s s' : World) (ids : List String) (r : AssetRow)
    (x : Thrown)
    → get_asset id s ≡ some r
    → assert_ownership_changeable r op.timestamp ≡ err x
    → transfer_from op from to id s ≢ (ok ids, s')
unfolding transfer_from
from-unchangeable op from to id s s' ids r x e k =
    ground (arith, e, k, seed_provenance-state op r s)

from-guards :
    (op : ParsedOperation) (from to id : String) (s s' : World) (ids : List String) (r : AssetRow)
    → get_asset id s ≡ some r
    → transfer_from op from to id s ≡ (ok ids, s')
    → ((r.owner == from) ≡ true)
      × ((to == "null") ≡ false)
      × (may_transfer_from op.signer from id r.collection_id s ≡ true)
      × (is_pending_status r.status ≡ false)
      × (is_seed_kind r.asset_type ≡ false)
      × (forbids_transfer (get_collection_rules r.collection_id s) ≡ false)
unfolding transfer_from assert_not_pending_sale assert_not_seed
from-guards op from to id s s' ids r e h = (
  ground (arith, h, e, seed_provenance-state op r s),
  ground (arith, h, e, seed_provenance-state op r s),
  ground (arith, h, e, seed_provenance-state op r s),
  ground (arith, h, e, seed_provenance-state op r s),
  ground (arith, h, e, seed_provenance-state op r s),
  ground (arith, h, e, seed_provenance-state op r s),
)

from-moves :
    (op : ParsedOperation) (from to id : String) (s s' : World) (ids : List String) (r : AssetRow)
    (expired : Bool)
    → get_asset id s ≡ some r
    → assert_ownership_changeable r op.timestamp ≡ ok expired
    → transfer_from op from to id s ≡ (ok ids, s')
    → move_asset op from to id r expired s ≡ (ok ids, s')
unfolding transfer_from
from-moves op from to id s s' ids r expired e k h =
    ground (arith, h, e, k, seed_provenance-state op r s)

abbrev owner_state : String → String → ParsedOperation → OwnerChangeCtx → World → World
owner_state id to op ctx s = (update_asset_owner id to op.operation_id ctx s).1

move-owner :
    (op : ParsedOperation) (from to id : String) (s s' : World) (ids : List String) (r : AssetRow)
    (expired : Bool)
    → move_asset op from to id r expired s ≡ (ok ids, s')
    → update_asset_owner id to op.operation_id (moved_by "asset_transfer_from" op r expired) s
      ≡ (ok tt, owner_state id to op (moved_by "asset_transfer_from" op r expired) s)
unfolding move_asset
move-owner op from to id s s' ids r expired h = ground (arith, h)

move-assets :
    (op : ParsedOperation) (from to id : String) (s s' : World) (ids : List String) (r : AssetRow)
    (expired : Bool)
    → move_asset op from to id r expired s ≡ (ok ids, s')
    → s'.db.assets
      ≡ (owner_state id to op (moved_by "asset_transfer_from" op r expired) s).db.assets
unfolding move_asset delete_asset_allowance cleanup_collection_allowances_if_empty
move-assets op from to id s s' ids r expired h = ground (arith, h)

move-allowance :
    (op : ParsedOperation) (from to id : String) (s s' : World) (ids : List String) (r : AssetRow)
    (expired : Bool)
    → move_asset op from to id r expired s ≡ (ok ids, s')
    → get_asset_allowance id s' ≡ none
unfolding move_asset delete_asset_allowance cleanup_collection_allowances_if_empty
    get_asset_allowance
move-allowance op from to id s s' ids r expired h = ground (
  arith,
  h,
  get-remove id id
      (owner_state id to op (moved_by "asset_transfer_from" op r expired) s).db.asset_allowances,
  eq_iff id id,
)

get-assets :
    (s t : World) → s.db.assets ≡ t.db.assets → (j : String) → get_asset j s ≡ get_asset j t
unfolding get_asset
get-assets s t h j = rw h refl

-- Whether a row approves a spender for everything that an owner has in a collection.
abbrev pub approves_all : String → String → String → CollectionAllowanceRow → Bool
approves_all owner spender collection_id a =
    a.owner == owner && a.spender == spender && a.collection_id == collection_id

allowed_lem :
    (spender owner id collection_id : String) (s : World)
    → may_transfer_from spender owner id collection_id s ≡ true
    → ((a : AllowanceRow) × (get id s.db.asset_allowances ≡ some a)
        × (a.approved_spender ≡ spender))
      ⊎ (any_where (approves_all owner spender collection_id) s.db.collection_allowances ≡ true)
unfolding may_transfer_from get_asset_allowance has_collection_allowance
allowed_lem spender owner id collection_id s h =
    elim (Option-cases (get id s.db.asset_allowances)) [
      | inl e ↦ inr (ground (arith, h, e))
      | inr (a, e) ↦ elim (Bool-cases (a.approved_spender == spender)) [
        | inl k ↦ inl (a, e, eq_of_== a.approved_spender spender k)
        | inr k ↦ inr (ground (arith, h, e, k))
      ]
    ]

transferable_lem :
    (rules : Option CollectionRow)
    → forbids_transfer rules ≡ false
    → (rules ≡ none) ⊎ ((c : CollectionRow) × (rules ≡ some c) × (c.transferable ≡ true))
transferable_lem none h = inl refl
transferable_lem (some c) h = inr (c, refl, ground (arith, h))

idle_of :
    (st : AssetStatus) (end now : Option ℕ)
    → is_pending_status st ≡ false
    → is_lent_status st ≡ false
    → (if is_listed_status st then is_listing_expired end now else true) ≡ true
    → (st ≡ active)
      ⊎ ((st ≡ listed) × (e : ℕ) × (n : ℕ) × (end ≡ some e) × (now ≡ some n) × (e ≤ n))
unfolding is_listing_expired
idle_of active end now p l h = inl refl
idle_of lent end now p l h = ground (arith, l)
idle_of pending_sale end now p l h = ground (arith, p)
idle_of listed none now p l h = ground (arith, h)
idle_of listed (some e) none p l h = ground (arith, h)
idle_of listed (some e) (some n) p l h = inr (refl, e, n, refl, refl, ground (arith, h))

idle_lem :
    (r : AssetRow) (now : Option ℕ) (expired : Bool)
    → is_pending_status r.status ≡ false
    → assert_ownership_changeable r now ≡ ok expired
    → (r.status ≡ active)
      ⊎ ((r.status ≡ listed)
          × (e : ℕ) × (n : ℕ) × (r.listing_expires_at ≡ some e)
          × (now ≡ some n)
          × (e ≤ n))
unfolding assert_ownership_changeable assert_transferable assert_actionable assert_not_lent
idle_lem r now expired p h =
    idle_of r.status r.listing_expires_at now p (ground (arith, h)) (ground (arith, h))

-- What a delegated transfer found, and what it left.
pub record Delegates (op : ParsedOperation) (from to id : String) (s s' : World) : Type 0 where
  pub asset : AssetRow
  pub found : get_asset id s ≡ some asset
  pub owned : asset.owner ≡ from
  pub allowed :
      ((a : AllowanceRow) × (get id s.db.asset_allowances ≡ some a)
        × (a.approved_spender ≡ op.signer))
      ⊎ (any_where (approves_all from op.signer asset.collection_id) s.db.collection_allowances
          ≡ true)
  pub not_burned : to ≢ "null"
  pub is_instance : is_seed_kind asset.asset_type ≡ false
  pub transferable :
      (get_collection_rules asset.collection_id s ≡ none)
      ⊎ ((c : CollectionRow) × (get_collection_rules asset.collection_id s ≡ some c)
          × (c.transferable ≡ true))
  pub idle :
      (asset.status ≡ active)
      ⊎ ((asset.status ≡ listed)
          × (end : ℕ) × (now : ℕ) × (asset.listing_expires_at ≡ some end)
          × (op.timestamp ≡ some now)
          × (end ≤ now))
  pub moved :
      get_asset id s' ≡ some (owned_row to "asset_transfer_from" op.operation_id op.block_num asset)
  pub others : (j : String) → j ≢ id → get_asset j s' ≡ get_asset j s
  pub no_allowance : get_asset_allowance id s' ≡ none

delegates :
    (op : ParsedOperation) (from to id : String) (s s' : World) (ids : List String) (r : AssetRow)
    (expired : Bool)
    → get_asset id s ≡ some r
    → assert_ownership_changeable r op.timestamp ≡ ok expired
    → transfer_from op from to id s ≡ (ok ids, s')
    → Delegates op from to id s s'
delegates op from to id s s' ids r expired e k h =
    let ctx = moved_by "asset_transfer_from" op r expired in
    let guards = from-guards op from to id s s' ids r e h in
    let m = from-moves op from to id s s' ids r expired e k h in
    let t = owner_state id to op ctx s in
    let kept = get-assets s' t (move-assets op from to id s s' ids r expired m) in
    let owner =
      get-update_asset_owner id to op.operation_id ctx s t
        (move-owner op from to id s s' ids r expired m) in
    record {
      asset = r;
      found = e;
      owned = eq_of_== r.owner from guards.0;
      allowed = allowed_lem op.signer from id r.collection_id s guards.2;
      not_burned = ground (arith, guards.1, eq_iff to "null");
      is_instance = guards.4;
      transferable = transferable_lem (get_collection_rules r.collection_id s) guards.5;
      idle = idle_lem r op.timestamp expired guards.3 k;
      moved = ground (arith, kept id, owner id, e, eq_iff id id);
      others = λ j differs. ground (arith, kept j, owner j, differs, eq_iff id j);
      no_allowance = move-allowance op from to id s s' ids r expired m;
    }

-- A delegated transfer that succeeds found an instance owned by the sender it names, idle or under a
-- listing that has expired, in a collection that does not forbid transfers, and its signer approved
-- for the asset, or by the owner for the collection. It never burns. The asset goes to the
-- recipient, idle, without listing, reservation or allowance, and no other asset changes.
pub transfer_from-Delegates :
    (op : ParsedOperation) (from to id : String) (s s' : World) (ids : List String)
    → transfer_from op from to id s ≡ (ok ids, s')
    → Delegates op from to id s s'
transfer_from-Delegates op from to id s s' ids h = elim (Option-cases (get_asset id s)) [
  | inl e ↦ absurd (from-absent op from to id s s' ids e h)
  | inr (r, e) ↦ elim (Result-cases (assert_ownership_changeable r op.timestamp)) [
    | inr (x, k) ↦ absurd (from-unchangeable op from to id s s' ids r x e k h)
    | inl (expired, k) ↦ delegates op from to id s s' ids r expired e k h
  ]
]
