-- ===== src/Catalog/Types.antt =====
-- services/catalog/src/domain: types.ts, currency.ts, the keys of cacheKeys.ts and the payments client
-- of clients/payments.ts. A uuid, a text and a time are numbers.
use atlas_commerce.Prelude.{ℕ, Bool, true, Option, List, ◌==◌, ◌&&◌}
use atlas_commerce.Prelude.Int.{ℤ}
use atlas_commerce.Shared.Retry.{with_retry}
use atlas_commerce.Shared.Tx.{Action, try_catch, pure}

pub data CustomerTier : Type 0 where
  standard gold platinum : CustomerTier

pub data Currency : Type 0 where
  usd krw jpy eur : Currency

pub data PriceRuleType : Type 0 where
  percent_off fixed_off override : PriceRuleType

pub data ProductStatus : Type 0 where
  active discontinued : ProductStatus

pub record Product : Type 0 where
  pub id : ℕ
  pub sku : ℕ
  pub name : ℕ
  pub description : ℕ
  pub category_id : ℕ
  pub base_price_cents : ℕ
  pub currency : Currency
  pub status : ProductStatus
  pub created_at : ℕ
  pub updated_at : ℕ

-- A priority may be negative.
pub record PriceRule : Type 0 where
  pub id : ℕ
  pub product_id : ℕ
  pub rule_type : PriceRuleType
  pub value : ℕ
  pub priority : ℤ
  pub starts_at : ℕ
  pub ends_at : ℕ
  pub created_at : ℕ

pub record PriceRuleCreateInput : Type 0 where
  pub product_id : ℕ
  pub rule_type : PriceRuleType
  pub value : ℕ
  pub priority : ℤ
  pub starts_at : ℕ
  pub ends_at : ℕ

pub record PriceRequest : Type 0 where
  pub product_id : ℕ
  pub customer_tier : CustomerTier
  pub currency : Option Currency
  pub qty : ℕ

pub record ComputedPrice : Type 0 where
  pub product_id : ℕ
  pub currency : Currency
  pub qty : ℕ
  pub unit_price_cents : ℕ
  pub line_total_cents : ℕ
  pub applied_rule_ids : List ℕ

-- What `priceCacheKey` puts into the key.
pub record PriceKey : Type 0 where
  pub product_id : ℕ
  pub tier : CustomerTier
  pub currency : Currency
  pub qty : ℕ

abbrev pub tier_code : CustomerTier → ℕ
tier_code CustomerTier.standard = 0
tier_code CustomerTier.gold = 1
tier_code CustomerTier.platinum = 2

abbrev pub currency_code : Currency → ℕ
currency_code Currency.usd = 0
currency_code Currency.krw = 1
currency_code Currency.jpy = 2
currency_code Currency.eur = 3

-- `currency === product.currency`
abbrev pub same_currency : Currency → Currency → Bool
same_currency x y = currency_code x == currency_code y

-- Whether two price keys are one.
abbrev pub same_key : PriceKey → PriceKey → Bool
same_key x y =
    (x.product_id == y.product_id)
    && ((tier_code x.tier == tier_code y.tier)
        && (same_currency x.currency y.currency && (x.qty == y.qty)))

-- The endpoint of payments that answers a rate, in the rest of the system; `failed` is the rate 0 that
-- the client returns when every attempt threw.
pub record Rates (W : Type 0) : Type 0 where
  pub fx : Currency → Currency → Action W ℕ

abbrev pub failed_rate : ℕ
failed_rate = 0

-- `getFxRate`
unfoldable pub get_fx_rate : {W : Type 0} → Rates W → Currency → Currency → Action W ℕ
get_fx_rate rates base quote =
    try_catch (with_retry 2 (λ _. true) (rates.fx base quote)) (λ e. pure failed_rate)

pub record CatalogDb : Type 0 where
  pub products : List Product
  pub price_rules : List PriceRule

-- The Redis entries, before they expire.
pub record Caches : Type 0 where
  pub products : List (ℕ × Product)
  pub prices : List (PriceKey × ComputedPrice)
