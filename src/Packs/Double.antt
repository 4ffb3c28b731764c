-- ===== src/Packs/Double.antt =====
-- The rounding of a double: the arithmetic of JavaScript numbers in packages/packs-engine/src.
use nftlox.Prelude.{ℕ, zero, suc, ◌+◌, ◌-◌, ◌*◌, ◌/◌, ◌%◌, ◌^◌, ◌&&◌, ◌||◌, ltb, eqb, if◌then◌else◌}

-- Half a unit is rounded to the even multiple.
unfoldable pub nearest_multiple : ℕ → ℕ → ℕ
nearest_multiple unit n =
    let q = n / unit in
    let twice = 2 * (n % unit) in
    if ltb unit twice || (eqb unit twice && eqb (q % 2) 1) then (q + 1) * unit else q * unit

-- The double nearest to `n`: 53 significant bits. `fuel` doublings of the unit are allowed.
unfoldable pub round_to_double : ℕ → ℕ → ℕ → ℕ
round_to_double zero unit n = n
round_to_double (suc fuel) unit n =
    let wider = round_to_double fuel (2 * unit) n in
    if ltb n (2 ^ 53 * unit) then nearest_multiple unit n else wider

-- The product of two natural numbers below 2^1024.
abbrev pub product : ℕ → ℕ → ℕ
product m n = round_to_double 1024 1 (m * n)

-- `Math.ceil(n / d)`. The quotient is counted in units of 2^-52 / d, which is exact enough for the
-- quotients of at least 2^-52 here: those of a demand by a total weight of at most 500000.
unfoldable pub ceil_div : ℕ → ℕ → ℕ
ceil_div n d =
    let quotient = round_to_double 1024 d (n * 2 ^ 52) in
    let unit = d * 2 ^ 52 in (quotient + (unit - 1)) / unit
