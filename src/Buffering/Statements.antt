-- ===== src/Buffering/Statements.antt =====
-- The statements that queue state-root deltas, and the loops that run them.
use nftlox.Prelude.{ℕ, String, ◌≡◌, ◌⊎◌, none, some, List, [], ◌∷◌, arith, inl, inr, Option-cases}
use nftlox.Table.{get}
use nftlox.StateRoot.Buffer
use nftlox.StateRoot.Buffer.{StateRootBuffer, queue}
use nftlox.StateRoot.Rollback.{Extends, here, queued, Extends-trans}
use nftlox.Result.{err, ok, Result, lift, gets, pure, ◌>>=◌, Action, for_each}
use nftlox.World.{World, AssetRow, BurnedRow}
use nftlox.Queries.Assets.{
  update_asset, update_asset_owner, owner_changed, OwnerChangeCtx, state_row,
  queue_state_root_delta, decrement_collection_listed,
}
use nftlox.Queries.Loans.{hard_delete_asset}

-- The action only queues.
abbrev pub Keeps : {A : Type 0} → Action World A → Type 0
Keeps m = (s : World) → Extends s.buffer (m s).1.buffer

pub same-Extends : (a b : StateRootBuffer) → b ≡ a → Extends a b
same-Extends a b h = rw h here

pub update_asset-buffer :
    (id : String) (f : AssetRow → AssetRow) (s : World) → (update_asset id f s).1.buffer ≡ s.buffer
unfolding update_asset
update_asset-buffer id f s = ground arith

owner-missing :
    (id new_owner operation_id : String) (ctx : OwnerChangeCtx) (s : World)
    → get id s.db.assets ≡ none
    → (update_asset_owner id new_owner operation_id ctx s).1.buffer ≡ s.buffer
unfolding update_asset_owner
owner-missing id new_owner operation_id ctx s e = ground (arith, e)

owner-found :
    (id new_owner operation_id : String) (ctx : OwnerChangeCtx) (s : World) (old : AssetRow)
    → get id s.db.assets ≡ some old
    → ((update_asset_owner id new_owner operation_id ctx s).1.buffer ≡ s.buffer)
      ⊎ ((update_asset_owner id new_owner operation_id ctx s).1.buffer
          ≡ queue
              (Buffer.update
                (state_row id old)
                (state_row id (owner_changed new_owner operation_id ctx old))
                ctx.owner_block_num)
              s.buffer)
unfolding update_asset_owner queue_state_root_delta decrement_collection_listed update_asset
owner-found id new_owner operation_id ctx s old e = ground (arith, e)

pub update_asset_owner-Keeps :
    (id new_owner operation_id : String) (ctx : OwnerChangeCtx)
    → Keeps (update_asset_owner id new_owner operation_id ctx)
update_asset_owner-Keeps id new_owner operation_id ctx s =
    elim (Option-cases (get id s.db.assets)) [
      | inl e ↦ same-Extends _ _ (owner-missing id new_owner operation_id ctx s e)
      | inr (old, e) ↦ elim (owner-found id new_owner operation_id ctx s old e) [
        | inl k ↦ same-Extends _ _ k
        | inr k ↦ rw k (queued _ here)
      ]
    ]

delete-missing :
    (id : String) (b : BurnedRow) (n : ℕ) (s : World)
    → get id s.db.assets ≡ none
    → (hard_delete_asset id b n s).1.buffer ≡ s.buffer
unfolding hard_delete_asset
delete-missing id b n s e = ground (arith, e)

delete-found :
    (id : String) (b : BurnedRow) (n : ℕ) (s : World) (old : AssetRow)
    → get id s.db.assets ≡ some old
    → (hard_delete_asset id b n s).1.buffer ≡ queue (Buffer.delete (state_row id old) n) s.buffer
unfolding hard_delete_asset queue_state_root_delta
delete-found id b n s old e = ground (arith, e)

pub hard_delete_asset-Keeps :
    (id : String) (b : BurnedRow) (n : ℕ) → Keeps (hard_delete_asset id b n)
hard_delete_asset-Keeps id b n s = elim (Option-cases (get id s.db.assets)) [
  | inl e ↦ same-Extends _ _ (delete-missing id b n s e)
  | inr (old, e) ↦ rw (delete-found id b n s old e) (queued _ here)
]

for_each-step :
    {A : Type 0} (x : A) (xs : List A) (f : A → Action World (Unit {0})) (s : World)
    → ((for_each (x ∷ xs) f s).1 ≡ (f x s).1)
      ⊎ ((for_each (x ∷ xs) f s).1 ≡ (for_each xs f (f x s).1).1)
unfolding for_each
for_each-step x xs f s = ground arith

pub for_each-Keeps :
    {A : Type 0} (xs : List A) (f : A → Action World (Unit {0}))
    → ((x : A) → Keeps (f x))
    → Keeps (for_each xs f)
unfolding for_each
for_each-Keeps [] f k s = here
for_each-Keeps (x ∷ xs) f k s = elim (for_each-step x xs f s) [
  | inl e ↦ rw e (k x s)
  | inr e ↦ rw e (Extends-trans (k x s) (for_each-Keeps xs f k (f x s).1))
]

-- A step that reads or checks, and the rest.
pub lift-Keeps :
    {A B : Type 0} (r : Result A) (k : A → Action World B)
    → ((a : A) → Keeps (k a))
    → Keeps (lift r >>= k)
lift-Keeps (ok a) k h s = h a s
lift-Keeps (err e) k h s = here

then-go :
    {A B : Type 0} (a : StateRootBuffer) (k : A → Action World B) (r : Result A × World)
    → Extends a r.1.buffer
    → ((x : A) → Keeps (k x))
    → Extends a
        (elim r.0 as (λ _. Result B × World) [ ok x ↦ k x r.1 | err e ↦ (err e, r.1) ]).1.buffer
then-go a k (ok x, t) h l = Extends-trans h (l x t)
then-go a k (err e, t) h l = h

pub then-Keeps :
    {A B : Type 0} (m : Action World A) (k : A → Action World B)
    → Keeps m
    → ((a : A) → Keeps (k a))
    → Keeps (m >>= k)
then-Keeps m k h l s = then-go s.buffer k (m s) (h s) l

pub gets-Keeps :
    {A B : Type 0} (f : World → A) (k : A → Action World B)
    → ((a : A) → Keeps (k a))
    → Keeps (gets f >>= k)
gets-Keeps f k h s = h (f s) s

pub pure-Keeps : {A : Type 0} (a : A) → Keeps {A = A} (pure a)
pure-Keeps a s = here
