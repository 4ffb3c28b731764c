-- ===== src/Packs/Reserved.antt =====
-- The supply that a pack definition reserves: how near it is to the demand of its packs.
use nftlox.Prelude.{ℕ, ◌+◌, ◌*◌, ◌≤◌, ◌<◌, ◌≡◌, List, [], ◌∷◌}
use nftlox.Table.{Table}
use nftlox.Packs.Definition.{PackDropEntry}

-- The counts of a record of counts, added up.
pub sum_counts : Table ℕ → ℕ
sum_counts [] = 0
sum_counts ((k, n) ∷ t) = n + sum_counts t

-- Every entry reserves its share of the demand, rounded up.
pub AllReserved : ℕ → ℕ → List PackDropEntry → Table ℕ → Type 0
AllReserved demand weight [] [] = Unit
AllReserved demand weight (e ∷ es) ((k, n) ∷ t) =
    (k ≡ e.seed_id)
    × (demand * e.weight ≤ n * weight)
    × (n * weight < demand * e.weight + weight)
    × AllReserved demand weight es t
AllReserved demand weight _ _ = ⊥
