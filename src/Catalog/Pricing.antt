-- ===== src/Catalog/Pricing.antt =====
-- services/catalog/src/domain: discounts.ts, ruleSelection.ts, tiers.ts and pricingEngine.ts.
use atlas_commerce.Prelude.{
  ℕ, ◌-◌, Bool, Option, none, some, List, [], ◌∷◌, ◌==◌, ltb, leb, ◌||◌, if◌then◌else◌, first,
  sort_by,
}
use atlas_commerce.Prelude.Int.{ltb_ℤ}
use atlas_commerce.Catalog.Rounding.{Doubles, multiply_cents}
use atlas_commerce.Catalog.Types.{CustomerTier, PriceRuleType, Product, PriceRule}

-- The comparison of the winning rule's `sort`, not above 0: priority, then time of creation, then id,
-- each downwards.
abbrev pub rule_before : PriceRule → PriceRule → Bool
rule_before x y =
    if ltb_ℤ y.priority x.priority || ltb_ℤ x.priority y.priority
    then ltb_ℤ y.priority x.priority
    else if x.created_at == y.created_at
    then leb y.id x.id
    else ltb y.created_at x.created_at

-- `selectWinningRule`
unfoldable pub select_winning_rule : List PriceRule → Option PriceRule
select_winning_rule rules = first (sort_by rule_before rules)

-- The price under a rule of this type; a subtraction stops at 0, which is what Math.max(0, ...) makes of
-- it.
abbrev pub priced_by : Doubles → ℕ → ℕ → PriceRuleType → ℕ
priced_by d base value PriceRuleType.percent_off = multiply_cents d base (10_000 - value)
priced_by d base value PriceRuleType.fixed_off = base - value
priced_by d base value PriceRuleType.override = value

-- `applyPriceRule`
unfoldable pub apply_price_rule : Doubles → ℕ → PriceRule → ℕ
apply_price_rule d base rule = priced_by d base rule.value rule.rule_type

-- `TIER_MULTIPLIERS`, in basis points
abbrev pub tier_multiplier : CustomerTier → ℕ
tier_multiplier CustomerTier.standard = 10_000
tier_multiplier CustomerTier.gold = 9_700
tier_multiplier CustomerTier.platinum = 9_500

-- `applyTierMultiplier`
unfoldable pub apply_tier_multiplier : Doubles → ℕ → CustomerTier → ℕ
apply_tier_multiplier d amount tier = multiply_cents d amount (tier_multiplier tier)

pub record LocalPriceResult : Type 0 where
  pub unit_price_cents : ℕ
  pub applied_rule_ids : List ℕ

abbrev pub adjusted_by : Doubles → ℕ → Option PriceRule → ℕ
adjusted_by d base none = base
adjusted_by d base (some rule) = apply_price_rule d base rule

abbrev pub applied_ids : Option PriceRule → List ℕ
applied_ids none = []
applied_ids (some rule) = rule.id ∷ []

-- `computeLocalUnitPrice`
unfoldable pub compute_local_unit_price :
    Doubles → Product → List PriceRule → CustomerTier → LocalPriceResult
compute_local_unit_price d product rules tier =
    let winner = select_winning_rule rules in
    record {
      unit_price_cents =
          apply_tier_multiplier d (adjusted_by d product.base_price_cents winner) tier;
      applied_rule_ids = applied_ids winner;
    }
