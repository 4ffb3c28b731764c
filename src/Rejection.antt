-- ===== src/Rejection.antt =====
-- What a handler throws, and how the router reads it
-- (packages/indexer/src/processor/protocol-rejection.ts). The text of a message is not modelled:
-- a `Reason` stands for the place that throws.
use nftlox.Prelude.{String, Bool, false, ◌||◌, Option, none, some, List, [], ◌∷◌, ◌==◌, any_where}
use text.Mathlib.Text.{starts_with}

pub data RejectionCode : Type 0 where
  protocol_rejection burn_recipient_delegation_forbidden : RejectionCode

pub data Reason : Type 0 where
  bad_string bad_shape bad_username bad_number bad_boolean bad_array bad_object bad_amount : Reason
  bad_length bad_currency bad_timestamp : Reason
  not_found collection_not_found not_registered not_active : Reason
  is_lent is_listed is_pending_sale is_seed is_not_instance is_not_seed not_listed not_lent : Reason
  not_active_status not_reserved not_committable already_committed already_listed already_lent :
      Reason
  seed_distributed seed_reserved seed_has_instances : Reason
  not_owner not_creator not_operator not_approved not_party : Reason
  not_transferable not_burnable : Reason
  empty_batch batch_too_large from_declared self_target no_assets : Reason
  expiry_past expiry_too_soon expiry_too_far listing_expired price_too_low no_price : Reason
  listing_id_prefix listing_id_mismatch list_tx_mismatch buy_tx_mismatch node_mismatch : Reason
  commitment_expired commitment_cap buyer_mismatch own_asset delegated_burn : Reason
  no_transfers wrong_transfer_count missing_transfer ambiguous_transfer wrong_currency wrong_amount
        no_memo :
      Reason
  heartbeat_too_soon misaligned_checkpoint limit_reached supply_exhausted collection_cap : Reason
  non_canonical was_burned duplicate_seed seed_tx_mismatch schema_error no_seed no_schema : Reason
  dna_mismatch assets_remain symbol_taken retired_key frozen_schema : Reason
  auth_mismatch : Reason

-- A thrown JavaScript value: a `ProtocolRejectionError`, or any other error with the text of its
-- `code` field, if that is a string, and perhaps a `cause`.
pub data Thrown : Type 0 where
  rejection : RejectionCode → Reason → Thrown
  failure : Option String → Thrown
  caused : Option String → Thrown → Thrown

-- `protocolReject(message)`
abbrev pub protocol_reject : Reason → Thrown
protocol_reject r = rejection protocol_rejection r

-- `new Error(message)`
abbrev pub plain_error : Thrown
plain_error = failure none

-- A row that violates a CHECK constraint: SQLSTATE 23514, check_violation.
abbrev pub check_violation : Thrown
check_violation = failure (some "23514")

transient_sqlstates : List String
transient_sqlstates = "40001" ∷ "40P01" ∷ "55P03" ∷ "57014" ∷ "53300" ∷ "57P01" ∷ []

is_transient_code : Option String → Bool
unfolding transient_sqlstates any_where
is_transient_code none = false
is_transient_code (some code) =
    any_where (λ s. s == code) transient_sqlstates
    || starts_with code "08"
    || code == "ECONNRESET"
    || code == "ETIMEDOUT"
    || code == "EPIPE"

-- A `ProtocolRejectionError` has a `code` too, which names no transient state.
unfoldable pub is_transient_execution_error : Thrown → Bool
unfolding is_transient_code
is_transient_execution_error (rejection _ _) = false
is_transient_execution_error (failure code) = is_transient_code code
is_transient_execution_error (caused code cause) =
    is_transient_code code || is_transient_execution_error cause

pub data ExecutionClassification : Type 0 where
  rejected : RejectionCode → Reason → ExecutionClassification
  fatal : Bool → ExecutionClassification

unfoldable pub classify_execution_error : Thrown → ExecutionClassification
classify_execution_error (rejection code reason) = rejected code reason
classify_execution_error (failure code) = fatal (is_transient_execution_error (failure code))
classify_execution_error (caused code cause) =
    fatal (is_transient_execution_error (caused code cause))
