-- ===== src/Catalog/Rounding.antt =====
-- Rounding of money: domain/rounding.ts of services/catalog and packages/shared/src/money.ts. A
-- double that is not negative is a fraction; what a product of two doubles is, is a parameter.
use atlas_commerce.Prelude.{
  ℕ, suc, ◌*◌, ◌/◌, ◌%◌, ◌≤◌, ◌≡◌, inl, inr, Bool, ltb, ◌==◌, if◌then◌else◌, arith, Bool-cases,
}

-- num / den; the denominator is above 0.
pub record Double : Type 0 where
  pub num : ℕ
  pub den : ℕ

-- `Math.floor(value)`
abbrev pub floor : Double → ℕ
floor v = v.num / v.den

-- The numerator of `value - floor`, over the denominator of the value.
abbrev pub fraction : Double → ℕ
fraction v = v.num % v.den

-- `floor % 2 === 0 ? floor : floor + 1`
abbrev pub even_of : ℕ → ℕ
even_of n = if n % 2 == 0 then n else suc n

-- `roundHalfEven` of the catalog
unfoldable pub round_half_even : Double → ℕ
round_half_even v =
    if ltb (2 * fraction v) v.den
    then floor v
    else if ltb v.den (2 * fraction v)
    then suc (floor v)
    else even_of (floor v)

-- What the code takes from doubles: `amount * (basisPoints / 10_000)`, also for the multipliers of the
-- tiers, `amount * rate`, and the constants `0.5 + epsilon` and `0.5 - epsilon`.
pub record Doubles : Type 0 where
  pub times : ℕ → ℕ → Double
  pub at_rate : ℕ → ℕ → Double
  pub half_up : Double
  pub half_down : Double

-- `multiplyCents`
unfoldable pub multiply_cents : Doubles → ℕ → ℕ → ℕ
multiply_cents d amount basis_points = round_half_even (d.times amount basis_points)

-- `fraction > bound`, `fraction < bound`
abbrev pub above : Double → Double → Bool
above v bound = ltb (bound.num * v.den) (fraction v * bound.den)

abbrev pub below : Double → Double → Bool
below v bound = ltb (fraction v * bound.den) (bound.num * v.den)

-- `roundHalfEven` of the shared library, for values that are not negative
unfoldable pub round_half_even_within : Doubles → Double → ℕ
round_half_even_within d v =
    if above v d.half_up
    then suc (floor v)
    else if below v d.half_down
    then floor v
    else even_of (floor v)

-- `convertCents`
unfoldable pub convert_cents : Doubles → ℕ → ℕ → ℕ
convert_cents d amount rate = round_half_even_within d (d.at_rate amount rate)

pub even_of_within : (n : ℕ) → (n ≤ even_of n) × (even_of n ≤ suc n) × (even_of n % 2 ≡ 0)
even_of_within n = elim (Bool-cases (n % 2 == 0)) [
  | inl even ↦ rw even (omega arith, omega arith, ground arith)
  | inr odd ↦ rw odd (omega arith, omega arith, ground arith)
]
