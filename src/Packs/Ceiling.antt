-- ===== src/Packs/Ceiling.antt =====
-- The ceiling of a quotient of doubles is that of the exact quotient, for a numerator below 2^53.
use native.Mathlib.Nat.{div-add-mod', mod-lt, mul-le-mul_right}
use nftlox.Prelude.{
  ℕ, zero, suc, ◌+◌, ◌-◌, ◌*◌, ◌/◌, ◌%◌, ◌^◌, ◌≤◌, ◌<◌, ◌≡◌, refl, inl, inr, ltb, eqb, ◌&&◌, ◌||◌,
  Bool-cases, if◌then◌else◌, arith,
}
use nftlox.Packs.Double.{nearest_multiple, round_to_double, ceil_div, product}
use nftlox.Packs.Rounding.{nearest-Near, nearest_one}

-- No multiple of the unit lies strictly between a number and its nearest multiple.
fewer : (unit n q m k : ℕ) → q * unit + suc m ≡ n → n ≤ k * unit → q < k
fewer unit n q m k e l = elim (Bool-cases (ltb q k)) [
  | inl h ↦ ground (arith, h)
  | inr h ↦
      let least : k * unit ≤ q * unit = mul-le-mul_right unit (ground (arith, h)) in
      absurd (omega (arith, least, e, l))
]

quotient_below :
    (unit n q m k : ℕ)
    → q * unit + m ≡ n
    → m < unit
    → n ≤ k * unit
    → (if ltb unit (2 * m) || (eqb unit (2 * m) && eqb (q % 2) 1) then (q + 1) * unit else q * unit)
      ≤ k * unit
quotient_below unit n q zero k e h l = ground (arith)
quotient_below unit n q (suc m) k e h l =
    let more = fewer unit n q m k e l in
    let over : (q + 1) * unit ≤ k * unit = mul-le-mul_right unit (omega (arith, more)) in
    ground (arith, over)

nearest_below : (unit n k : ℕ) → 0 < unit → n ≤ k * unit → nearest_multiple unit n ≤ k * unit
unfolding nearest_multiple
nearest_below unit n k h l =
    quotient_below unit n (n / unit) (n % unit) k (div-add-mod' n unit) (mod-lt n h) l

-- The rounding of `a`, in units of 2^-52 of `b`: no multiple of `b` lies strictly between, and it is
-- less than a unit of 1 below.
record Rounded (a b r : ℕ) : Type 0 where
  below : (m : ℕ) → a * 2 ^ 52 ≤ m * (b * 2 ^ 52) → r ≤ m * (b * 2 ^ 52)
  near : a * 2 ^ 52 < r + 2 ^ 52

regroup : (m unit c d : ℕ) → unit * c ≡ d → m * c * unit ≡ m * d
regroup m unit c d e = grind (arith, e)

double_power : (unit k d : ℕ) → unit * 2 ^ suc k ≡ d → 2 * unit * 2 ^ k ≡ d
double_power unit k d e = grind (arith, e)

nearest-Rounded :
    (k unit a b : ℕ)
    → unit * 2 ^ k ≡ b * 2 ^ 52
    → 0 < unit
    → unit < 2 ^ 53
    → Rounded a b (nearest_multiple unit (a * 2 ^ 52))
nearest-Rounded k unit a b e p h =
    let near = nearest-Near unit (a * 2 ^ 52) p in
    record {
      below = λ m l.
          let same = regroup m unit (2 ^ k) (b * 2 ^ 52) e in
          let bound = nearest_below unit (a * 2 ^ 52) (m * 2 ^ k) p (omega (arith, same, l)) in
          omega (arith, same, bound);
      near = omega (arith, near.from_below);
    }

round-Rounded :
    (fuel k unit a b : ℕ)
    → k < fuel
    → unit * 2 ^ k ≡ b * 2 ^ 52
    → 0 < unit
    → 0 < b
    → unit < 2 ^ 53
    → a < 2 ^ 53
    → Rounded a b (round_to_double fuel unit (a * 2 ^ 52))
unfolding round_to_double
round-Rounded zero k unit a b f e p q h l = absurd (omega (arith, f))
round-Rounded (suc fuel) zero unit a b f e p q h l =
    elim (Bool-cases (ltb (a * 2 ^ 52) (2 ^ 53 * unit))) [
      | inl c ↦ rw c (nearest-Rounded zero unit a b e p h)
      | inr c ↦
          let wide : 2 ^ 53 * unit ≤ a * 2 ^ 52 = ground (arith, c) in
          absurd (omega (arith, e, wide, q, l))
    ]
round-Rounded (suc fuel) (suc k) unit a b f e p q h l =
    elim (Bool-cases (ltb (a * 2 ^ 52) (2 ^ 53 * unit))) [
      | inl c ↦ rw c (nearest-Rounded (suc k) unit a b e p h)
      | inr c ↦
          let wide : 2 ^ 53 * unit ≤ a * 2 ^ 52 = ground (arith, c) in
          rw c (
            round-Rounded fuel k (2 * unit) a b (omega (arith, f))
              (double_power unit k (b * 2 ^ 52) e) (omega (arith, p)) q (omega (arith, wide, l)) l)
    ]

rounded_up : (n d q m : ℕ) → q * d + m ≡ n + (d - 1) → m < d → (n ≤ q * d) × (q * d < n + d)
rounded_up n d q m e h = omega arith

up_least : (n d r q : ℕ) → Rounded n d r → r ≤ q * (d * 2 ^ 52) → n ≤ q * d
up_least n d r q w h = omega (arith, w.near, h)

up_most : (n d r q : ℕ) → 0 < d → Rounded n d r → q * (d * 2 ^ 52) < r + d * 2 ^ 52 → q * d < n + d
up_most n d r zero p w h = omega (arith, p)
up_most n d r (suc q) p w h = elim (Bool-cases (ltb (suc q * d) (n + d))) [
  | inl c ↦ ground (arith, c)
  | inr c ↦
      let least : n ≤ q * d = ground (arith, c) in
      let bound = w.below q (omega (arith, least)) in absurd (omega (arith, bound, h))
]

pub ceil_div_lem :
    (n d : ℕ)
    → n < 2 ^ 53
    → 0 < d
    → d < 2 ^ 53
    → (n ≤ ceil_div n d * d) × (ceil_div n d * d < n + d)
unfolding ceil_div
ceil_div_lem n d small h wide =
    let unit = d * 2 ^ 52 in
    let r = round_to_double 1024 d (n * 2 ^ 52) in
    let positive : 0 < unit = omega (arith, h) in
    let w = round-Rounded 1024 52 d n d (omega arith) refl h h wide small in
    let up =
      rounded_up r unit ((r + (unit - 1)) / unit) ((r + (unit - 1)) % unit)
        (div-add-mod' (r + (unit - 1)) unit) (mod-lt (r + (unit - 1)) positive) in
    (
      up_least n d r ((r + (unit - 1)) / unit) w up.0,
      up_most n d r ((r + (unit - 1)) / unit) h w up.1,
    )

pub product_exact : (m n : ℕ) → m * n < 2 ^ 53 → product m n ≡ m * n
unfolding round_to_double
product_exact m n h = elim (Bool-cases (ltb (m * n) (2 ^ 53 * 1))) [
  | inl c ↦ rw c (nearest_one (m * n))
  | inr c ↦ absurd (ground (arith, c, h))
]
