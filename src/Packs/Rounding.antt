-- ===== src/Packs/Rounding.antt =====
-- A roll against the total weight of a drop table: what its rounding to a double changes.
use native.Mathlib.Nat.{div-add-mod', mod-lt, mul-le-mul_right}
use nftlox.Prelude.{
  ◌&&◌, eqb, ◌||◌, ℕ, zero, suc, ◌+◌, ◌*◌, ◌/◌, ◌%◌, ◌^◌, ◌≤◌, ◌<◌, ◌≡◌, inl, inr, ltb, arith,
  if◌then◌else◌, Bool-cases,
}
use nftlox.Packs.Double.{round_to_double, nearest_multiple}
use nftlox.Packs.Rng.{weighted_roll}

-- The nearest multiple is at most half a unit away.
pub record Near (unit n r : ℕ) : Type 0 where
  pub from_above : 2 * r ≤ 2 * n + unit
  pub from_below : 2 * n ≤ 2 * r + unit

quotient-Near :
    (unit n q m : ℕ)
    → q * unit + m ≡ n
    → m < unit
    → Near unit n (
        if ltb unit (2 * m) || (eqb unit (2 * m) && eqb (q % 2) 1)
        then (q + 1) * unit
        else q * unit)
quotient-Near unit n q m e h = record { from_above = ground (arith); from_below = ground (arith) }

pub nearest-Near : (unit n : ℕ) → 0 < unit → Near unit n (nearest_multiple unit n)
unfolding nearest_multiple
nearest-Near unit n h =
    quotient-Near unit n (n / unit) (n % unit) (div-add-mod' n unit) (mod-lt n h)

pub nearest_one : (n : ℕ) → nearest_multiple 1 n ≡ n
unfolding nearest_multiple
nearest_one n = ground arith

-- A double of 53 significant bits is off by at most a part in 2^53.
record Close (n r : ℕ) : Type 0 where
  from_above : r * 2 ^ 53 ≤ n * 2 ^ 53 + n
  from_below : n * 2 ^ 53 ≤ r * 2 ^ 53 + n

Near-Close : (unit n r : ℕ) → 2 ^ 52 * unit ≤ n → Near unit n r → Close n r
Near-Close unit n r h near = record {
  from_above = omega (arith, near.from_above);
  from_below = omega (arith, near.from_below);
}

round_wide :
    (fuel unit n : ℕ) → 0 < unit → 2 ^ 52 * unit ≤ n → Close n (round_to_double fuel unit n)
unfolding round_to_double
round_wide zero unit n p h = record { from_above = omega arith; from_below = omega arith }
round_wide (suc fuel) unit n p h = elim (Bool-cases (ltb n (2 ^ 53 * unit))) [
  | inl e ↦ rw e (Near-Close unit n (nearest_multiple unit n) h (nearest-Near unit n p))
  | inr e ↦ rw e (round_wide fuel (2 * unit) n (omega arith) (ground arith))
]

weighted_roll-Close : (k weight : ℕ) → Close (k * weight) (weighted_roll k weight)
unfolding weighted_roll round_to_double
weighted_roll-Close k weight = elim (Bool-cases (ltb (k * weight) (2 ^ 53 * 1))) [
  | inl e ↦
      rw (e, nearest_one (k * weight))
        (record { from_above = omega arith; from_below = omega arith })
  | inr e ↦ rw e (round_wide 32 2 (k * weight) (omega arith) (ground arith))
]

-- A roll below 1 stays below the total weight.
pub weighted_roll-lt :
    (k weight : ℕ) → k < 2 ^ 53 → 0 < weight → weighted_roll k weight < weight * 2 ^ 53
weighted_roll-lt k weight h p = omega (
  arith,
  (weighted_roll-Close k weight).from_above,
  mul-le-mul_right {m = k} {n = 9007199254740991} weight (omega arith),
)
