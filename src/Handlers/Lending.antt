-- ===== src/Handlers/Lending.antt =====
-- packages/indexer/src/processor/handlers/lending/asset-lend.ts and asset-return.ts.
use nftlox.Prelude.{String, not, ◌&&◌, List, [], ◌∷◌, ◌==◌, is_set}
use nftlox.Rejection
use nftlox.Result.{Result, ok, bind, Action, pure, lift, gets, or_reject, reject_if, ◌>>=◌, ◌>>◌}
use nftlox.Json.{member}
use nftlox.Validation.{require_string, require_username}
use nftlox.World.{LoanRow, World, active, lent}
use nftlox.Operation.{ParsedOperation}
use nftlox.Queries.Constraints.{is_active_status, is_lent_status}
use nftlox.Queries.Assets.{get_asset, update_asset_status}
use nftlox.Queries.Allowances.{delete_asset_allowance, get_collection_rules, forbids_transfer}
use nftlox.Queries.Loans.{get_loan, insert_loan, delete_loan}
use nftlox.StatusChecks.{assert_not_seed}
use nftlox.Provenance.{validate_seed_provenance}

abbrev pub loan_of : ParsedOperation → String → LoanRow
loan_of op borrower = record {
  lender = op.signer;
  borrower = borrower;
  operation_id = op.operation_id;
  block_num = op.block_num;
  tx_id = op.tx_id;
}

unfoldable pub lend_asset : ParsedOperation → String → String → Action World (List String)
lend_asset op id borrower = do
  lift (reject_if (borrower == op.signer) Rejection.self_target)
  found ← gets (get_asset id)
  asset ← lift (or_reject found Rejection.not_found)
  validate_seed_provenance op asset
  lift (reject_if (not (is_active_status asset.status)) Rejection.not_active_status)
  lift (assert_not_seed asset)
  lift (reject_if (not (asset.owner == op.signer)) Rejection.not_owner)
  rules ← gets (get_collection_rules asset.collection_id)
  lift (reject_if (forbids_transfer rules) Rejection.not_transferable)
  existing_loan ← gets (get_loan id)
  lift (reject_if (is_set existing_loan) Rejection.already_lent)
  update_asset_status id lent
  insert_loan id (record {
    lender = op.signer;
    borrower = borrower;
    operation_id = op.operation_id;
    block_num = op.block_num;
    tx_id = op.tx_id;
  })
  delete_asset_allowance id
  pure (id ∷ [])

-- The instance and the borrower.
unfoldable pub read_lend_payload : ParsedOperation → Result (String × String)
unfolding member require_string require_username
read_lend_payload op =
    bind (require_string (member op.payload "instanceId"))
      λ id. bind (require_username (member op.payload "borrower")) λ borrower. ok (id, borrower)

unfoldable pub handle_asset_lend : ParsedOperation → Action World (List String)
unfolding lend_asset read_lend_payload
handle_asset_lend op = lift (read_lend_payload op) >>= λ p. lend_asset op p.0 p.1

unfoldable pub return_asset : ParsedOperation → String → Action World (List String)
return_asset op id = do
  found ← gets (get_asset id)
  asset ← lift (or_reject found Rejection.not_found)
  validate_seed_provenance op asset
  lift (reject_if (not (is_lent_status asset.status)) Rejection.not_lent)
  existing_loan ← gets (get_loan id)
  loan ← lift (or_reject existing_loan Rejection.not_found)
  lift (
      reject_if (not (op.signer == loan.lender) && not (op.signer == loan.borrower))
        Rejection.not_party)
  update_asset_status id active
  delete_loan id
  pure (id ∷ [])

unfoldable pub handle_asset_return : ParsedOperation → Action World (List String)
unfolding return_asset member require_string
handle_asset_return op = lift (require_string (member op.payload "instanceId")) >>= return_asset op
