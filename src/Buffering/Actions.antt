-- ===== src/Buffering/Actions.antt =====
-- The handlers whose writes never reach the state root.
use nftlox.Rejection.{Thrown}
use nftlox.Prelude.{refl, inr, inl, none, Option-cases, some, ℕ, String, ◌≡◌, Bool, true, arith}
use nftlox.Result.{Result-cases, ok, err}
use nftlox.World.{World, AssetRow, AssetStatus, active, lent, LoanRow}
use nftlox.Operation.{ParsedOperation}
use nftlox.Queries.Assets.{
  get_asset, update_asset, update_asset_status, ListingColumns, set_asset_listing,
  clear_asset_listing, decrement_collection_listed, increment_collection_listed,
}
use nftlox.Queries.Allowances.{
  upsert_asset_allowance, delete_asset_allowance, upsert_collection_allowance,
}
use nftlox.Queries.Loans.{insert_loan, delete_loan}
use nftlox.Provenance.{validate_seed_provenance}
use nftlox.Buffering.Statements.{Keeps, same-Extends, update_asset-buffer}
use nftlox.Protocol.ListingId.{Platform}
use nftlox.Handlers.Listing.{
  ListPayload, list_asset, unlist_asset, validate_expires_at, write_listing, listing_columns,
  had_expired_listing,
}
use nftlox.Handlers.Commitment.{CommitmentPayload, commit_asset, reserved}
use nftlox.Handlers.Allowance.{approve_asset, approve_collection}
use nftlox.Handlers.Lending.{lend_asset, return_asset, loan_of}

-- Statements that leave the buffer.
pub seed_provenance-state :
    (op : ParsedOperation) (r : AssetRow) (s : World) → (validate_seed_provenance op r s).1 ≡ s
unfolding validate_seed_provenance
seed_provenance-state op r s = refl

update_asset_status-buffer :
    (id : String) (st : AssetStatus) (s : World) → (update_asset_status id st s).1.buffer ≡ s.buffer
unfolding update_asset_status
update_asset_status-buffer id st s = update_asset-buffer id _ s

insert_loan-buffer :
    (id : String) (l : LoanRow) (s : World) → (insert_loan id l s).1.buffer ≡ s.buffer
unfolding insert_loan
insert_loan-buffer id l s = ground arith

set_asset_listing-buffer :
    (id : String) (l : ListingColumns) (c : String) (b : Bool) (s : World)
    → (set_asset_listing id l c b s).1.buffer ≡ s.buffer
unfolding set_asset_listing update_asset increment_collection_listed
set_asset_listing-buffer id l c b s = ground arith

clear_asset_listing-buffer :
    (id c : String) (b : Bool) (s : World) → (clear_asset_listing id c b s).1.buffer ≡ s.buffer
unfolding clear_asset_listing update_asset decrement_collection_listed
clear_asset_listing-buffer id c b s = ground arith

commit_asset-missing :
    (op : ParsedOperation) (p : CommitmentPayload) (s : World)
    → get_asset p.asset_id s ≡ none
    → (commit_asset op p s).1.buffer ≡ s.buffer
unfolding commit_asset
commit_asset-missing op p s e = ground (arith, e)

commit_asset-found :
    (op : ParsedOperation) (p : CommitmentPayload) (s : World) (r : AssetRow)
    → get_asset p.asset_id s ≡ some r
    → (commit_asset op p s).1.buffer ≡ s.buffer
unfolding commit_asset
commit_asset-found op p s r e = ground (arith, e, update_asset-buffer p.asset_id (reserved p op) s)

pub commit_asset-Keeps : (op : ParsedOperation) (p : CommitmentPayload) → Keeps (commit_asset op p)
commit_asset-Keeps op p s = elim (Option-cases (get_asset p.asset_id s)) [
  | inl e ↦ same-Extends _ _ (commit_asset-missing op p s e)
  | inr (r, e) ↦ same-Extends _ _ (commit_asset-found op p s r e)
]

unlist_asset-missing :
    (op : ParsedOperation) (id : String) (s : World)
    → get_asset id s ≡ none
    → (unlist_asset op id s).1.buffer ≡ s.buffer
unfolding unlist_asset
unlist_asset-missing op id s e = ground (arith, e)

unlist_asset-found :
    (op : ParsedOperation) (id : String) (s : World) (r : AssetRow)
    → get_asset id s ≡ some r
    → (unlist_asset op id s).1.buffer ≡ s.buffer
unfolding unlist_asset
unlist_asset-found op id s r e =
    ground
      (arith, e, seed_provenance-state op r s, clear_asset_listing-buffer id r.collection_id true s)

pub unlist_asset-Keeps : (op : ParsedOperation) (id : String) → Keeps (unlist_asset op id)
unlist_asset-Keeps op id s = elim (Option-cases (get_asset id s)) [
  | inl e ↦ same-Extends _ _ (unlist_asset-missing op id s e)
  | inr (r, e) ↦ same-Extends _ _ (unlist_asset-found op id s r e)
]

lend_asset-missing :
    (op : ParsedOperation) (id borrower : String) (s : World)
    → get_asset id s ≡ none
    → (lend_asset op id borrower s).1.buffer ≡ s.buffer
unfolding lend_asset
lend_asset-missing op id borrower s e = ground (arith, e)

lend_asset-found :
    (op : ParsedOperation) (id borrower : String) (s : World) (r : AssetRow)
    → get_asset id s ≡ some r
    → (lend_asset op id borrower s).1.buffer ≡ s.buffer
unfolding lend_asset delete_asset_allowance
lend_asset-found op id borrower s r e = ground (
  arith,
  e,
  seed_provenance-state op r s,
  update_asset_status-buffer id lent s,
  insert_loan-buffer id (loan_of op borrower) (update_asset_status id lent s).1,
)

pub lend_asset-Keeps :
    (op : ParsedOperation) (id borrower : String) → Keeps (lend_asset op id borrower)
lend_asset-Keeps op id borrower s = elim (Option-cases (get_asset id s)) [
  | inl e ↦ same-Extends _ _ (lend_asset-missing op id borrower s e)
  | inr (r, e) ↦ same-Extends _ _ (lend_asset-found op id borrower s r e)
]

return_asset-missing :
    (op : ParsedOperation) (id : String) (s : World)
    → get_asset id s ≡ none
    → (return_asset op id s).1.buffer ≡ s.buffer
unfolding return_asset
return_asset-missing op id s e = ground (arith, e)

return_asset-found :
    (op : ParsedOperation) (id : String) (s : World) (r : AssetRow)
    → get_asset id s ≡ some r
    → (return_asset op id s).1.buffer ≡ s.buffer
unfolding return_asset delete_loan
return_asset-found op id s r e =
    ground (arith, e, seed_provenance-state op r s, update_asset_status-buffer id active s)

pub return_asset-Keeps : (op : ParsedOperation) (id : String) → Keeps (return_asset op id)
return_asset-Keeps op id s = elim (Option-cases (get_asset id s)) [
  | inl e ↦ same-Extends _ _ (return_asset-missing op id s e)
  | inr (r, e) ↦ same-Extends _ _ (return_asset-found op id s r e)
]

approve_asset-missing :
    (op : ParsedOperation) (spender id : String) (approved : Bool) (s : World)
    → get_asset id s ≡ none
    → (approve_asset op spender id approved s).1.buffer ≡ s.buffer
unfolding approve_asset
approve_asset-missing op spender id approved s e = ground (arith, e)

approve_asset-found :
    (op : ParsedOperation) (spender id : String) (approved : Bool) (s : World) (r : AssetRow)
    → get_asset id s ≡ some r
    → (approve_asset op spender id approved s).1.buffer ≡ s.buffer
unfolding approve_asset upsert_asset_allowance delete_asset_allowance
approve_asset-found op spender id approved s r e = ground (arith, e)

pub approve_asset-Keeps :
    (op : ParsedOperation) (spender id : String) (approved : Bool)
    → Keeps (approve_asset op spender id approved)
approve_asset-Keeps op spender id approved s = elim (Option-cases (get_asset id s)) [
  | inl e ↦ same-Extends _ _ (approve_asset-missing op spender id approved s e)
  | inr (r, e) ↦ same-Extends _ _ (approve_asset-found op spender id approved s r e)
]

approve_collection-buffer :
    (op : ParsedOperation) (spender id : String) (approved : Bool) (s : World)
    → (approve_collection op spender id approved s).1.buffer ≡ s.buffer
unfolding approve_collection upsert_collection_allowance
approve_collection-buffer op spender id approved s = ground arith

pub approve_collection-Keeps :
    (op : ParsedOperation) (spender id : String) (approved : Bool)
    → Keeps (approve_collection op spender id approved)
approve_collection-Keeps op spender id approved s =
    same-Extends _ _ (approve_collection-buffer op spender id approved s)

-- The writes of a listing, and the guards before them.
write_listing-buffer :
    (op : ParsedOperation) (p : ListPayload) (r : AssetRow) (e : ℕ) (b : Bool) (s : World)
    → (write_listing op p r e b s).1.buffer ≡ s.buffer
unfolding write_listing delete_asset_allowance
write_listing-buffer op p r e b s =
    ground (arith, set_asset_listing-buffer p.asset_id (listing_columns op p e) r.collection_id b s)

list_asset-missing :
    (platform : Platform) (op : ParsedOperation) (p : ListPayload) (s : World)
    → get_asset p.asset_id s ≡ none
    → (list_asset platform op p s).1.buffer ≡ s.buffer
unfolding list_asset
list_asset-missing platform op p s e = ground (arith, e)

list_asset-untimely :
    (platform : Platform) (op : ParsedOperation) (p : ListPayload) (s : World) (r : AssetRow)
    (x : Thrown)
    → get_asset p.asset_id s ≡ some r
    → validate_expires_at p.expires_at op.timestamp ≡ err x
    → (list_asset platform op p s).1.buffer ≡ s.buffer
unfolding list_asset
list_asset-untimely platform op p s r x e k = ground (arith, e, k, seed_provenance-state op r s)

list_asset-found :
    (platform : Platform) (op : ParsedOperation) (p : ListPayload) (s : World) (r : AssetRow)
    (n : ℕ)
    → get_asset p.asset_id s ≡ some r
    → validate_expires_at p.expires_at op.timestamp ≡ ok n
    → (list_asset platform op p s).1.buffer ≡ s.buffer
unfolding list_asset
list_asset-found platform op p s r n e k = ground (
  arith,
  e,
  k,
  seed_provenance-state op r s,
  write_listing-buffer op p r n (had_expired_listing op r) s,
)

pub list_asset-Keeps :
    (platform : Platform) (op : ParsedOperation) (p : ListPayload)
    → Keeps (list_asset platform op p)
list_asset-Keeps platform op p s = elim (Option-cases (get_asset p.asset_id s)) [
  | inl e ↦ same-Extends _ _ (list_asset-missing platform op p s e)
  | inr (r, e) ↦ elim (Result-cases (validate_expires_at p.expires_at op.timestamp)) [
    | inl (n, k) ↦ same-Extends _ _ (list_asset-found platform op p s r n e k)
    | inr (x, k) ↦ same-Extends _ _ (list_asset-untimely platform op p s r x e k)
  ]
]
