-- ===== src/Catalog/Tests.antt =====
-- Prices of one product, and the theorems at them.
use atlas_commerce.Prelude.{ℕ, ◌*◌, ◌≤◌, ◌≡◌, ◌↔◌, refl, subst, none, some, [], ◌∷◌, arith}
use atlas_commerce.Prelude.Int.{pos}
use native.Mathlib.Nat.{mul-le-mul_left, mul-zero}
use atlas_commerce.Shared.Errors.{upstream_error}
use atlas_commerce.Shared.Retry.{with_retry}
use atlas_commerce.Shared.Tx.{ok, err}
use atlas_commerce.Catalog.Bounds.{
  IsContracting, IsDown, compute_local_unit_price_le, get_price_rate_lost,
}
use atlas_commerce.Catalog.Cached.{delete_price_rule_uncaches, create_price_rule_stale}
use atlas_commerce.Catalog.Nearest.{IsNearest, round_half_even_iff}
use atlas_commerce.Catalog.Prices.{
  cached_price, price_cache_key, get_product_by_id, get_price, new_rule, create_price_rule,
  delete_price_rule,
}
use atlas_commerce.Catalog.Pricing.{
  select_winning_rule, apply_price_rule, apply_tier_multiplier, compute_local_unit_price,
}
use atlas_commerce.Catalog.Products.{ProductPatchInput, update_product}
use atlas_commerce.Shared.Post.{Ensures}
use atlas_commerce.Catalog.Updated.{IsUncached, update_product-IsUncached}
use atlas_commerce.Catalog.Rounding.{Double, Doubles, round_half_even, multiply_cents}
use atlas_commerce.Catalog.Types.{
  CustomerTier, Currency, PriceRuleType, ProductStatus, Product, PriceRule, PriceRuleCreateInput,
  PriceRequest, ComputedPrice, Rates, CatalogDb, Caches,
}

-- Two and a half
abbrev half : Double
half = record { num = 25; den = 10 }

round_half_even_iff_example : (round_half_even half ≡ 2) ↔ IsNearest half 2
round_half_even_iff_example = round_half_even_iff half 2 (omega arith)

-- Products that are exact, with rates in ten-thousandths.
abbrev exact : Doubles
exact = record {
  times = λ amount basis_points. record { num = amount * basis_points; den = 10_000 };
  at_rate = λ amount rate. record { num = amount * rate; den = 10_000 };
  half_up = record { num = 500_000_001; den = 1_000_000_000 };
  half_down = record { num = 499_999_999; den = 1_000_000_000 };
}

exact-IsContracting : IsContracting exact
exact-IsContracting amount basis_points h = (omega arith, mul-le-mul_left amount h)

abbrev product : Product
product = record {
  id = 7;
  sku = 1;
  name = 2;
  description = 3;
  category_id = 4;
  base_price_cents = 1_050;
  currency = Currency.usd;
  status = ProductStatus.active;
  created_at = 10;
  updated_at = 10;
}

-- Ten per cent off
abbrev rule : PriceRule
rule = record {
  id = 5;
  product_id = 7;
  rule_type = PriceRuleType.percent_off;
  value = 1_000;
  priority = pos 1;
  starts_at = 0;
  ends_at = 900;
  created_at = 20;
}

price_runs :
    (compute_local_unit_price exact product (rule ∷ []) CustomerTier.gold).unit_price_cents ≡ 917
unfolding compute_local_unit_price select_winning_rule apply_price_rule apply_tier_multiplier
    multiply_cents round_half_even
price_runs = refl

no_override :
    (r : PriceRule)
    → select_winning_rule (rule ∷ []) ≡ some r
    → r.rule_type ≡ PriceRuleType.override
    → r.value ≤ product.base_price_cents
unfolding select_winning_rule
no_override r h k =
    let it : rule ≡ r = cc in
    let no : PriceRuleType.percent_off ≡ PriceRuleType.override =
      subst
        (λ r.
          r.rule_type ≡ PriceRuleType.override → PriceRuleType.percent_off ≡ PriceRuleType.override)
        it (λ e. e) k in
    cc

compute_local_unit_price_le_example :
    (compute_local_unit_price exact product (rule ∷ []) CustomerTier.gold).unit_price_cents ≤ 1_050
compute_local_unit_price_le_example =
    compute_local_unit_price_le exact product (rule ∷ []) CustomerTier.gold exact-IsContracting
      no_override

abbrev price : ComputedPrice
price = record {
  product_id = 7;
  currency = Currency.usd;
  qty = 2;
  unit_price_cents = 1_050;
  line_total_cents = 2_100;
  applied_rule_ids = [];
}

abbrev db : CatalogDb
db = record { products = product ∷ []; price_rules = rule ∷ [] }

abbrev caches : Caches
caches = record {
  products = [];
  prices = (price_cache_key 7 CustomerTier.standard Currency.usd 2, price) ∷ [];
}

delete_price_rule_uncaches_example :
    cached_price
      (price_cache_key 7 CustomerTier.standard Currency.usd 2)
      (delete_price_rule 5 (db, caches)).1.1.prices
    ≡ none
delete_price_rule_uncaches_example =
    delete_price_rule_uncaches 5 rule (db, caches) CustomerTier.standard Currency.usd 2 refl
      (omega arith) (omega arith)

abbrev rule_input : PriceRuleCreateInput
rule_input = record {
  product_id = 7;
  rule_type = PriceRuleType.override;
  value = 900;
  priority = pos 9;
  starts_at = 0;
  ends_at = 900;
}

abbrev request : PriceRequest
request = record { product_id = 7; customer_tier = CustomerTier.standard; currency = none; qty = 2 }

-- No attempt at a rate is answered.
abbrev no_rates : Rates ℕ
no_rates = record { fx = λ base quote w. (err (upstream_error 503), w) }

cached_runs :
    cached_price (price_cache_key 7 CustomerTier.standard Currency.usd 2) caches.prices ≡ some price
unfolding cached_price
cached_runs = refl

create_price_rule_stale_example :
    ((create_price_rule 6 30 rule_input (db, caches)).0 ≡ ok (new_rule 6 30 rule_input))
    × ((get_price exact no_rates 40 request
          ((create_price_rule 6 30 rule_input (db, caches)).1, 0)).0
        ≡ ok price)
create_price_rule_stale_example =
    create_price_rule_stale exact no_rates 6 30 40 rule_input request product price (db, caches) 0
      refl refl cached_runs

no_rates-IsDown : IsDown exact no_rates Currency.usd Currency.eur
unfolding with_retry
no_rates-IsDown w = (upstream_error 503, w, refl)

abbrev loaded : Caches
loaded = record caches { products = (7, product) ∷ [] }

get_product_by_id_runs : get_product_by_id 7 (db, caches) ≡ (ok product, (db, loaded))
unfolding get_product_by_id
get_product_by_id_runs = refl

abbrev in_euros : PriceRequest
in_euros = record request { currency = some Currency.eur }

no_euros :
    cached_price (price_cache_key 7 CustomerTier.standard Currency.eur 2) loaded.prices ≡ none
unfolding cached_price
no_euros = refl

get_price_rate_lost_example :
    (p : ComputedPrice) × ((get_price exact no_rates 40 in_euros ((db, caches), 0)).0 ≡ ok p)
    × (p.unit_price_cents ≡ 0)
    × (p.line_total_cents ≡ 0)
get_price_rate_lost_example =
    get_price_rate_lost exact no_rates 40 in_euros Currency.eur product (db, caches) (db, loaded) 0
      refl get_product_by_id_runs refl no_euros no_rates-IsDown mul-zero

abbrev cheaper : ProductPatchInput
cheaper = record {
  sku = none;
  name = none;
  description = none;
  category_id = none;
  base_price_cents = some 990;
  currency = none;
  status = none;
}

update_product-IsUncached_example :
    Ensures (λ _ t. IsUncached 7 t) (update_product [] 7 50 cheaper (db, caches))
update_product-IsUncached_example = update_product-IsUncached [] 7 50 cheaper (db, caches)
