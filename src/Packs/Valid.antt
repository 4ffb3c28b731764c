-- ===== src/Packs/Valid.antt =====
-- What a pack definition has that assertValidPackDefinition lets pass.
use nftlox.Prelude.{ℕ, ◌+◌, ◌≤◌, ◌<◌, String, ◌≡◌, refl, List, [], ◌∷◌, length, arith}
use nftlox.Result.{Result, ok, err}
use nftlox.Packs.Definition.{
  PackDefinition, PackDropEntry, total_weight, assert_valid_entries, assert_valid_pack_definition,
  magnitude, max_items_per_pack, max_drop_table_entries,
}

added_up :
    (es : List PackDropEntry) (seen : List String) (w w' : ℕ)
    → assert_valid_entries es seen w ≡ ok w'
    → w' ≡ w + total_weight es
unfolding assert_valid_entries total_weight
added_up [] seen w w' h = ground arith
added_up (e ∷ es) seen w w' h = ground (arith, added_up es (e.seed_id ∷ seen) (w + e.weight) w')

pub record WithinBounds (d : PackDefinition) : Type 0 where
  pub some_item : 0 < magnitude d.items_per_pack
  pub few_items : magnitude d.items_per_pack ≤ max_items_per_pack
  pub some_weight : 0 < total_weight d.drop_table
  pub few_entries : length d.drop_table ≤ max_drop_table_entries

within :
    (d : PackDefinition) (r : Result ℕ)
    → ((w : ℕ) → r ≡ ok w → w ≡ total_weight d.drop_table)
    → assert_valid_entries d.drop_table [] 0 ≡ r
    → assert_valid_pack_definition d ≡ ok tt
    → WithinBounds d
unfolding assert_valid_pack_definition
within d (ok w) sums e h = record {
  some_item = ground (arith, e);
  few_items = ground (arith, e);
  some_weight = ground (arith, e, sums w refl);
  few_entries = ground (arith, e);
}
within d (err x) sums e h = record {
  some_item = ground (arith, e);
  few_items = ground (arith, e);
  some_weight = ground (arith, e);
  few_entries = ground (arith, e);
}

pub valid-WithinBounds :
    (d : PackDefinition) → assert_valid_pack_definition d ≡ ok tt → WithinBounds d
valid-WithinBounds d h =
    within d (assert_valid_entries d.drop_table [] 0)
      (λ w k. omega (arith, added_up d.drop_table [] 0 w k)) refl h
