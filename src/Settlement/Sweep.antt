-- ===== src/Settlement/Sweep.antt =====
-- The sweep of expired commitments, which runs before the operations of each block.
use nftlox.Prelude.{
  ℕ, String, ◌≡◌, Bool, false, not, Option, none, some, ltb, if◌then◌else◌, any_where,
}
use mathlib.Core.Option
use nftlox.Table.{Table}
use nftlox.Result.{Result, ok}
use nftlox.World.{World, AssetRow, listed, pending_sale}
use nftlox.Queries.Constraints.{satisfies_checks}
use nftlox.Queries.Assets.{get_asset}

-- A row that the table does not admit.
abbrev pub is_incoherent : String × AssetRow → Bool
is_incoherent (id, r) = not (satisfies_checks r)

-- Every row of the table meets its constraints.
unfoldable pub coherent : Table AssetRow → Bool
unfolding any_where
coherent t = not (any_where is_incoherent t)

-- Whether a row is reserved until a block before another.
abbrev pub reserved_before : ℕ → AssetRow → Bool
reserved_before block r = elim r.status [
  | pending_sale ↦ elim r.sale_expires_block [ none ↦ false | some e ↦ ltb e block ]
  | _ ↦ false
]

-- An asset that is on sale again.
abbrev pub relisted : AssetRow → AssetRow
relisted r = record r {
  status = listed;
  sale_buyer = none;
  sale_settlement_node = none;
  sale_expires_block = none;
  sale_commitment_op_tx_id = none;
  sale_commitment_buy_tx_hash = none;
}

-- What the sweep at a block does.
pub record Sweeps (block : ℕ) (s : World) (r : Result (Unit {0}) × World) : Type 0 where
  pub returns : r.0 ≡ ok tt
  pub rows :
      (j : String)
      → get_asset j r.1
        ≡ Option.map (λ a. if reserved_before block a then relisted a else a) (get_asset j s)
  pub none_expired :
      (j : String) (a : AssetRow) → get_asset j r.1 ≡ some a → reserved_before block a ≡ false
