-- ===== src/Catalog/Bounds.antt =====
-- How far a computed price lies from the base price, and what a failed rate makes of it:
-- domain/pricingEngine.ts and domain/priceService.ts of services/catalog.
use atlas_commerce.Prelude.{
  ℕ, ◌-◌, ◌*◌, ◌≤◌, ◌<◌, ◌≡◌, refl, inl, inr, true, false, Option, none, some, List, ltb, ltb→lt,
  arith, Bool-cases,
}
use native.Mathlib.Nat.{zero-mul, zero-div, zero-mod, mul-le-mul_right, suc-mul}
use atlas_commerce.Shared.Errors.{AppError}
use atlas_commerce.Shared.Retry.{with_retry}
use atlas_commerce.Shared.Tx.{ok, err}
use atlas_commerce.Catalog.Nearest.{round_half_even-IsNearest}
use atlas_commerce.Catalog.Pricing.{
  select_winning_rule, priced_by, apply_price_rule, tier_multiplier, apply_tier_multiplier,
  adjusted_by, compute_local_unit_price,
}
use atlas_commerce.Catalog.Prices.{
  Catalog, cached_price, price_cache_key, get_product_by_id, get_price, local_price, convert_price,
}
use atlas_commerce.Catalog.Rounding.{
  Double, Doubles, above, round_half_even, multiply_cents, round_half_even_within, convert_cents,
}
use atlas_commerce.Catalog.Types.{
  CustomerTier, Currency, PriceRuleType, Product, PriceRule, PriceRequest, ComputedPrice,
  same_currency, Rates, get_fx_rate,
}

-- What the pricing relies on of a product of doubles: it has a denominator, and a multiplier of at most
-- 1 does not take it above the amount.
abbrev pub IsContracting : Doubles → Type 0
IsContracting d =
    (amount basis_points : ℕ)
    → basis_points ≤ 10_000
    → (0 < (d.times amount basis_points).den)
      × ((d.times amount basis_points).num ≤ amount * (d.times amount basis_points).den)

-- Rounding does not pass a whole number.
round_half_even-le : (v : Double) (n : ℕ) → 0 < v.den → v.num ≤ n * v.den → round_half_even v ≤ n
round_half_even-le v n pos within =
    let (high, low, tie) = round_half_even-IsNearest v pos in
    elim (Bool-cases (ltb n (round_half_even v))) [
      | inr fits ↦ ground arith
      | inl above ↦
          (let step = mul-le-mul_right v.den (ltb→lt n (round_half_even v) above) in
            let more = suc-mul n v.den in omega arith)
    ]

multiply_cents-le :
    (d : Doubles)
    → IsContracting d
    → (amount basis_points : ℕ) → basis_points ≤ 10_000
    → multiply_cents d amount basis_points ≤ amount
unfolding multiply_cents
multiply_cents-le d c amount bp small =
    let (pos, within) = c amount bp small in
    round_half_even-le (d.times amount bp) amount pos within

apply_price_rule-le :
    (d : Doubles) (base value : ℕ) (t : PriceRuleType)
    → IsContracting d
    → (t ≡ PriceRuleType.override → value ≤ base)
    → priced_by d base value t ≤ base
apply_price_rule-le d base value PriceRuleType.percent_off c h =
    multiply_cents-le d c base (10_000 - value) (omega arith)
apply_price_rule-le d base value PriceRuleType.fixed_off c h = omega arith
apply_price_rule-le d base value PriceRuleType.override c h = h refl

tier_multiplier-le : (t : CustomerTier) → tier_multiplier t ≤ 10_000
tier_multiplier-le CustomerTier.standard = omega arith
tier_multiplier-le CustomerTier.gold = omega arith
tier_multiplier-le CustomerTier.platinum = omega arith

adjusted_by-le :
    (d : Doubles) (base : ℕ) (o : Option PriceRule)
    → IsContracting d
    → ((r : PriceRule) → o ≡ some r → r.rule_type ≡ PriceRuleType.override → r.value ≤ base)
    → adjusted_by d base o ≤ base
unfolding apply_price_rule
adjusted_by-le d base none c h = omega arith
adjusted_by-le d base (some r) c h = apply_price_rule-le d base r.value r.rule_type c (h r refl)

-- The unit price that the catalog computes, under any rules and for any tier, is at most the base price
-- of the product, unless the winning rule overrides it with more. A double product with a multiplier
-- of at most 1 is at most the amount.
pub compute_local_unit_price_le :
    (d : Doubles) (p : Product) (rules : List PriceRule) (t : CustomerTier)
    → IsContracting d
    → ((r : PriceRule)
        → select_winning_rule rules ≡ some r
        → r.rule_type ≡ PriceRuleType.override
        → r.value ≤ p.base_price_cents)
    → (compute_local_unit_price d p rules t).unit_price_cents ≤ p.base_price_cents
unfolding compute_local_unit_price apply_tier_multiplier
compute_local_unit_price_le d p rules t c h =
    let adjusted = adjusted_by d p.base_price_cents (select_winning_rule rules) in
    omega (
      arith,
      multiply_cents-le d c adjusted (tier_multiplier t) (tier_multiplier-le t),
      adjusted_by-le d p.base_price_cents (select_winning_rule rules) c h,
    )

convert_cents_zero :
    (d : Doubles) (amount rate : ℕ)
    → (d.at_rate amount rate).num ≡ 0
    → convert_cents d amount rate ≡ 0
unfolding convert_cents round_half_even_within
convert_cents_zero d amount rate h =
    let den = (d.at_rate amount rate).den in
    rw h (
      rw (zero-mod den) (
        rw (zero-div den)
          (rw (zero-mul d.half_up.den) (rw (zero-mul d.half_down.den) (ground arith)))))

module _ {W : Type 0} (d : Doubles) (rates : Rates W) where
  -- Every attempt to get this rate throws.
  abbrev pub IsDown : Currency → Currency → Type 0
  IsDown base quote =
      (w : W)
      → (e : AppError) × (w' : W) × (with_retry 2 (λ _. true) (rates.fx base quote) w ≡ (err e, w'))

  convert_price_down :
      (amount : ℕ) (base quote : Currency) (w : W)
      → IsDown base quote
      → (d.at_rate amount 0).num ≡ 0
      → (w' : W) × (convert_price d rates amount base quote w ≡ (ok 0, w'))
  unfolding get_fx_rate
  convert_price_down amount base quote w down zero_is =
      let (e, w', threw) = down w in
      (w', rw threw (rw (convert_cents_zero d amount 0 zero_is) refl))

  -- When the payments service answers no rate, a price that is not cached and is asked in another
  -- currency than the product's is answered as 0 cents, for the unit and for the line. A product of a
  -- double and 0 is 0.
  pub get_price_rate_lost :
      (now : ℕ) (request : PriceRequest) (currency : Currency) (p : Product) (s t : Catalog) (w : W)
      → request.currency ≡ some currency
      → get_product_by_id request.product_id s ≡ (ok p, t)
      → same_currency currency p.currency ≡ false
      → cached_price (price_cache_key p.id request.customer_tier currency request.qty) t.1.prices
        ≡ none
      → IsDown p.currency currency
      → ((amount : ℕ) → (d.at_rate amount 0).num ≡ 0)
      → (price : ComputedPrice) × ((get_price d rates now request (s, w)).0 ≡ ok price)
        × (price.unit_price_cents ≡ 0)
        × (price.line_total_cents ≡ 0)
  unfolding get_price
  get_price_rate_lost now request currency p s t w asked found other miss down zero_is =
      let local = local_price d rates now request p t.0 in
      let (w', unit) =
        convert_price_down local.unit_price_cents p.currency currency w down
          (zero_is local.unit_price_cents) in
      let (w'', line) =
        convert_price_down (local.unit_price_cents * request.qty) p.currency currency w' down
          (zero_is (local.unit_price_cents * request.qty)) in
      let price : ComputedPrice = record {
        product_id = p.id;
        currency = currency;
        qty = request.qty;
        unit_price_cents = 0;
        line_total_cents = 0;
        applied_rule_ids = local.applied_rule_ids;
      } in
      rw found (rw asked (rw miss (rw other (rw unit (rw line (price, refl, refl, refl))))))
