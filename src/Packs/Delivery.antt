-- ===== src/Packs/Delivery.antt =====
-- The plan of an opening: what the loop over the packs keeps, and what the plan accounts for.
use nftlox.Prelude.{
  inr, inl, ℕ, suc, ◌+◌, ◌*◌, ◌<◌, String, true, false, ◌≡◌, refl, Option, none, some, List, [],
  ◌∷◌, ◌++◌, ◌==◌, length, length-append, count_where, if◌then◌else◌, arith, max, Option-cases,
}
use nftlox.Table.{Table, get}
use nftlox.Result.{ok}
use nftlox.Packs.Definition.{SeedSupplySnapshot}
use nftlox.Packs.Plan.{
  PackSkipReason, PackSelection, Planned, count_of, item_rows, check_seed, skip_reason, open_pack,
  push_selection, supply_used_up, reservation_used_up,
}
use nftlox.Packs.Taking.{item_total, Keyed, occurrences, Taken, take_items-Taken, skip_reason-drawn}

-- The number of delivered packs.
abbrev pub delivered_count : List PackSelection → ℕ
delivered_count ss = count_where (λ s. s.delivered) ss

-- The most often that one delivered pack draws a seed.
unfoldable pub most_in_one_pack : String → List PackSelection → ℕ
unfolding occurrences
most_in_one_pack j [] = 0
most_in_one_pack j (s ∷ ss) =
    max (if s.delivered then occurrences j s.selected_seed_ids else 0) (most_in_one_pack j ss)

delivered_count-push :
    (ss : List PackSelection) (s : PackSelection)
    → delivered_count (ss ++ s ∷ []) ≡ delivered_count ss + (if s.delivered then 1 else 0)
unfolding count_where
delivered_count-push [] s = omega arith
delivered_count-push (x ∷ ss) s = omega (arith, delivered_count-push ss s)

most_in_one_pack-push :
    (j : String) (ss : List PackSelection) (s : PackSelection)
    → most_in_one_pack j (ss ++ s ∷ [])
      ≡ max (most_in_one_pack j ss) (if s.delivered then occurrences j s.selected_seed_ids else 0)
unfolding most_in_one_pack
most_in_one_pack-push j [] s = omega arith
most_in_one_pack-push j (x ∷ ss) s = omega (arith, most_in_one_pack-push j ss s)

module _ (n : ℕ) (seeds : Table SeedSupplySnapshot) (reservations : Option (Table ℕ)) where
  -- The maps after `k` packs of `n` items.
  pub record Delivers (k : ℕ) (p : Planned) : Type 0 where
    pub keyed : Keyed p.items_by_seed
    pub packs : length p.selections ≡ k
    pub total :
        item_total (λ _. true) (item_rows p.items_by_seed) ≡ delivered_count p.selections * n
    pub per_seed :
        (j : String)
        → item_total (λ i. i == j) (item_rows p.items_by_seed) ≡ count_of j p.distribution
    pub consumption :
        (j : String) → count_of j p.reservation_consumption ≡ count_of j p.distribution
    pub within_supply :
        (j : String) (s : SeedSupplySnapshot)
        → get j seeds ≡ some s
        → 0 < s.max_supply
        → 0 < count_of j p.distribution
        → s.distributed + count_of j p.distribution < s.max_supply + most_in_one_pack j p.selections
    pub within_reservation :
        (j : String) (t : Table ℕ)
        → reservations ≡ some t
        → 0 < count_of j p.distribution
        → count_of j p.distribution < count_of j t + most_in_one_pack j p.selections

  check_seed-supply :
      (p : Planned) (j : String) (s : SeedSupplySnapshot)
      → check_seed seeds reservations p j ≡ none
      → get j seeds ≡ some s
      → 0 < s.max_supply
      → s.distributed + count_of j p.distribution < s.max_supply
  unfolding check_seed supply_used_up
  check_seed-supply p j s h e m = ground (arith, h, e, m)

  check_seed-reservation :
      (p : Planned) (j : String) (t : Table ℕ)
      → check_seed seeds reservations p j ≡ none
      → reservations ≡ some t
      → count_of j p.reservation_consumption < count_of j t
  unfolding check_seed reservation_used_up
  check_seed-reservation p j t h e = elim (Option-cases (get j seeds)) [
    | inl k ↦ ground (arith, h, k)
    | inr (s, k) ↦ ground (arith, h, e, k)
  ]

  skipped :
      (k : ℕ) (ids : List String) (r : PackSkipReason) (p : Planned)
      → Delivers k p
      → Delivers (suc k) (push_selection k ids (some r) p)
  unfolding push_selection
  skipped k ids r p d =
      let s : PackSelection = record {
        pack_index = k;
        selected_seed_ids = ids;
        delivered = false;
        reason = some r;
      } in
      record {
        keyed = d.keyed;
        packs = omega (arith, length-append p.selections (s ∷ []), d.packs);
        total = rw (delivered_count-push p.selections s) (omega (arith, d.total));
        per_seed = d.per_seed;
        consumption = d.consumption;
        within_supply = λ j x e m c.
            omega (arith, most_in_one_pack-push j p.selections s, d.within_supply j x e m c);
        within_reservation = λ j t e c.
            omega (arith, most_in_one_pack-push j p.selections s, d.within_reservation j t e c);
      }

  all_items : (ids : List String) → count_where (λ _. true) ids ≡ length ids
  unfolding count_where
  all_items [] = refl
  all_items (x ∷ ids) = omega (arith, all_items ids)

  delivered :
      (k : ℕ) (ids : List String) (p p' : Planned)
      → length ids ≡ n
      → skip_reason seeds reservations p ids ≡ none
      → Delivers k p
      → Taken ids (push_selection k ids none p) p'
      → Delivers (suc k) p'
  unfolding push_selection occurrences
  delivered k ids p p' len fits d taken =
      let s : PackSelection = record {
        pack_index = k;
        selected_seed_ids = ids;
        delivered = true;
        reason = none;
      } in
      record {
        keyed = taken.keyed;
        packs = rw taken.selections (omega (arith, length-append p.selections (s ∷ []), d.packs));
        total =
            rw (taken.selections, delivered_count-push p.selections s)
              (grind (arith, taken.items (λ _. true), d.total, all_items ids, len));
        per_seed =
            λ j. omega (arith, taken.items (λ i. i == j), taken.distribution j, d.per_seed j);
        consumption =
            λ j. omega (arith, taken.consumption j, taken.distribution j, d.consumption j);
        within_supply = λ j x e m c. rw taken.selections (
            ground (
              arith,
              most_in_one_pack-push j p.selections s,
              taken.distribution j,
              d.within_supply j x e m,
              check_seed-supply p j x,
              skip_reason-drawn seeds reservations p ids j fits,
              e,
              m,
              c,
            ));
        within_reservation = λ j t e c. rw taken.selections (
            ground (
              arith,
              most_in_one_pack-push j p.selections s,
              taken.distribution j,
              d.consumption j,
              d.within_reservation j t e,
              check_seed-reservation p j t,
              skip_reason-drawn seeds reservations p ids j fits,
              e,
              c,
            ));
      }

  pub open_pack-Delivers :
      (k : ℕ) (ids : List String) (p : Planned)
      → length ids ≡ n
      → Delivers k p
      → (p' : Planned) × (open_pack seeds reservations k ids p ≡ ok p') × Delivers (suc k) p'
  unfolding open_pack push_selection
  open_pack-Delivers k ids p len d = elim (Option-cases (skip_reason seeds reservations p ids)) [
    | inl e ↦
        let (p', runs, taken) =
          take_items-Taken seeds reservations p ids (push_selection k ids none p) e d.keyed in
        (p', rw (e, open_pack) runs, delivered k ids p p' len e d taken)
    | inr (r, e) ↦ (push_selection k ids (some r) p, rw (e, open_pack) refl, skipped k ids r p d)
  ]
