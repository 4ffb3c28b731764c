-- ===== src/Provenance.antt =====
-- The optional seedId / seedTxId attestation: packages/protocol/src/seed-provenance.ts, whose
-- functions throw a plain `Error`, and validateSeedProvenance of
-- packages/indexer/src/utils/seed-provenance.ts.
use nftlox.Prelude.{String, Bool, false, not, Option, none, some, ◌==◌, is_text, if◌then◌else◌}
use nftlox.Table.{get}
use nftlox.Rejection
use nftlox.Rejection.{protocol_reject, plain_error}
use nftlox.Result.{Result, ok, err, Action, bind, throw_if, or_reject}
use nftlox.Json.{Value, Fields, undefined, null, str, member}
use nftlox.World.{World, AssetRow, AssetKind}
use nftlox.Operation.{ParsedOperation}
use nftlox.StatusChecks.{is_seed_kind}

pub record SeedProvenance : Type 0 where
  pub seed_id : Option String
  pub seed_tx_id : Option String

unfoldable pub read_provenance_field : Value → Result (Option String)
read_provenance_field undefined = ok none
read_provenance_field null = ok none
read_provenance_field (str s) = if s == "" then err plain_error else ok (some s)
read_provenance_field _ = err plain_error

-- `undefined` when both fields are absent.
unfoldable pub declare : Option String → Option String → Option SeedProvenance
declare none none = none
declare a b = some (record { seed_id = a; seed_tx_id = b })

unfoldable pub read_declared_provenance : Fields → Result (Option SeedProvenance)
unfolding read_provenance_field member declare
read_declared_provenance payload =
    bind (read_provenance_field (member payload "seedId"))
      (λ a. bind (read_provenance_field (member payload "seedTxId")) (λ b. ok (declare a b)))

unfoldable pub assert_provenance_target : AssetKind → Result (Unit {0})
assert_provenance_target kind = throw_if (is_seed_kind kind) plain_error

-- `declared !== undefined && actual !== declared`
abbrev pub differs : Option String → Option String → Bool
differs none actual = false
differs (some d) actual = not (is_text actual d)

-- A seedTxId that is declared with no actual one is covered: `differs` holds of `none`.
unfoldable pub match_provenance : SeedProvenance → Option String → Option String → Result (Unit {0})
match_provenance d seed_id seed_created_tx_id =
    bind (throw_if (differs d.seed_id seed_id) plain_error)
      (λ _. throw_if (differs d.seed_tx_id seed_created_tx_id) plain_error)

-- The row lookup for a declared seedTxId.
unfoldable pub seed_created_tx : SeedProvenance → AssetRow → World → Result (Option String)
seed_created_tx d r s = elim d.seed_tx_id [
  | none ↦ ok none
  | some _ ↦ bind (or_reject r.seed_id Rejection.no_seed) (λ seed_id.
      bind (or_reject (get seed_id s.db.assets) Rejection.no_seed)
        (λ seed_row. ok (some seed_row.created_tx_id)))
]

unfoldable pub check_declared : Option SeedProvenance → AssetRow → World → Result (Unit {0})
unfolding assert_provenance_target match_provenance seed_created_tx
check_declared none r s = ok tt
check_declared (some d) r s =
    bind (assert_provenance_target r.asset_type)
      (λ _. bind (seed_created_tx d r s) (λ created. match_provenance d r.seed_id created))

unfoldable pub validate_seed_provenance : ParsedOperation → AssetRow → Action World (Unit {0})
unfolding read_declared_provenance check_declared
validate_seed_provenance op r s =
    (bind (read_declared_provenance op.payload) (λ declared. check_declared declared r s), s)
