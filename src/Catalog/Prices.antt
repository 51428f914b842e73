-- ===== src/Catalog/Prices.antt =====
-- services/catalog/src: priceService.ts, priceRuleService.ts, cacheInvalidation.ts, cacheKeys.ts and
-- `getProductById` of productService.ts of domain, and repositories/priceRuleRepository.ts, over
-- `withCache` of packages/shared/src/cache.ts. The time to live is longer than the runs looked at, and
-- a deletion in pieces of 500 keys is one of all keys.
use atlas_commerce.Prelude.{
  ℕ, zero, suc, ◌*◌, Bool, true, false, not, Option, none, some, List, [], ◌∷◌, ◌++◌, map, ◌==◌,
  ltb, leb, ◌&&◌, ◌||◌, if◌then◌else◌, keep_if, sort_by,
}
use atlas_commerce.Shared.Errors.{Code, AppError, app_error}
use atlas_commerce.Shared.Idempotency.{lookup, remove_key}
use atlas_commerce.Shared.Rows.{find_row}
use atlas_commerce.Shared.Tx.{Action, ok, ◌>>=◌, ◌>>◌, pure, throw, on_first, on_second}
use atlas_commerce.Catalog.Pricing.{rule_before, LocalPriceResult, compute_local_unit_price}
use atlas_commerce.Catalog.Rounding.{Doubles, convert_cents}
use atlas_commerce.Catalog.Types.{
  CustomerTier, Currency, Product, PriceRule, PriceRuleCreateInput, PriceRequest, ComputedPrice,
  PriceKey, same_currency, same_key, Rates, get_fx_rate, CatalogDb, Caches,
}

-- The tables and the cache.
abbrev pub Catalog : Type 0
Catalog = CatalogDb × Caches

abbrev pub product_id_of : Product → ℕ
product_id_of p = p.id

abbrev pub rule_id_of : PriceRule → ℕ
rule_id_of r = r.id

-- `notFoundError("product")`
abbrev pub product_not_found : AppError
product_not_found = app_error Code.product_not_found 404

-- The loader of `getProductById` found this; a `null` that is cached reads as a miss.
abbrev pub cache_product : ℕ → Option Product → Action Catalog Product
cache_product id none s = throw product_not_found s
cache_product id (some p) (db, c) = (ok p, (db, record c { products = (id, p) ∷ c.products }))

abbrev pub product_or_load : ℕ → Option Product → Action Catalog Product
product_or_load id (some p) s = (ok p, s)
product_or_load id none s = cache_product id (find_row product_id_of id s.0.products) s

-- `getProductById`
unfoldable pub get_product_by_id : ℕ → Action Catalog Product
get_product_by_id id s = product_or_load id (lookup id s.1.products) s

-- `cache.get` of a price
unfoldable pub cached_price : PriceKey → List (PriceKey × ComputedPrice) → Option ComputedPrice
cached_price key [] = none
cached_price key (e ∷ es) = if same_key (e.0) key then some (e.1) else cached_price key es

-- `cache.set` of a price
abbrev pub store_price : PriceKey → ComputedPrice → Action Catalog (Unit {0})
store_price key p (db, c) = (ok tt, (db, record c { prices = (key, p) ∷ c.prices }))

-- `findActiveByProduct`
unfoldable pub find_active_by_product : ℕ → ℕ → List PriceRule → List PriceRule
find_active_by_product product now rules =
    sort_by rule_before
      (keep_if (λ r. (r.product_id == product) && (leb r.starts_at now && ltb now r.ends_at)) rules)

-- `request.currency ?? product.currency`
abbrev pub asked_currency : Option Currency → Product → Currency
asked_currency none p = p.currency
asked_currency (some c) p = c

-- `priceCacheKey`
abbrev pub price_cache_key : ℕ → CustomerTier → Currency → ℕ → PriceKey
price_cache_key product tier currency qty = record {
  product_id = product;
  tier = tier;
  currency = currency;
  qty = qty;
}

module _ {W : Type 0} (d : Doubles) (rates : Rates W) where
  -- `convertPrice`
  abbrev pub convert_price : ℕ → Currency → Currency → Action W ℕ
  convert_price amount base quote = do
    rate ← get_fx_rate rates base quote
    pure (convert_cents d amount rate)

  abbrev pub price_in : Bool → ℕ → Currency → Currency → Action W ℕ
  price_in true amount base quote = pure amount
  price_in false amount base quote = convert_price amount base quote

  -- The loader: the price of the product under its active rules.
  abbrev pub load_price :
      PriceRequest → Product → Currency → LocalPriceResult → Action W ComputedPrice
  load_price request p currency local = do
    unit ← price_in (same_currency currency p.currency) local.unit_price_cents p.currency currency
    line ←
        price_in (same_currency currency p.currency) (local.unit_price_cents * request.qty)
          p.currency currency
    pure (record {
      product_id = p.id;
      currency = currency;
      qty = request.qty;
      unit_price_cents = unit;
      line_total_cents = line;
      applied_rule_ids = local.applied_rule_ids;
    })

  abbrev pub local_price : ℕ → PriceRequest → Product → CatalogDb → LocalPriceResult
  local_price now request p db =
      compute_local_unit_price d p (find_active_by_product p.id now db.price_rules)
        request.customer_tier

  abbrev pub price_or_load :
      ℕ
      → PriceRequest
      → Product
      → Currency
      → Option ComputedPrice
      → Action (Catalog × W) ComputedPrice
  price_or_load now request p currency (some price) s = (ok price, s)
  price_or_load now request p currency none s =
      (do
        price ← on_second (load_price request p currency (local_price now request p s.0.0))
        on_first
            (store_price (price_cache_key p.id request.customer_tier currency request.qty) price)
        pure price)
        s

  abbrev pub price_of_product : ℕ → PriceRequest → Product → Action (Catalog × W) ComputedPrice
  price_of_product now request p s =
      let currency = asked_currency request.currency p in
      price_or_load now request p currency
        (cached_price (price_cache_key p.id request.customer_tier currency request.qty)
          s.0.1.prices)
        s

  -- `getPrice`
  unfoldable pub get_price : ℕ → PriceRequest → Action (Catalog × W) ComputedPrice
  get_price now request = do
    p ← on_first (get_product_by_id request.product_id)
    price_of_product now request p

-- `for (let qty = from; count times; qty += 1)`
unfoldable pub quantities : ℕ → ℕ → List ℕ
quantities from zero = []
quantities from (suc n) = from ∷ quantities (suc from) n

abbrev pub keys_of_currencies : ℕ → CustomerTier → List Currency → List PriceKey
keys_of_currencies product tier [] = []
keys_of_currencies product tier (c ∷ cs) =
    map (price_cache_key product tier c) (quantities 1 1000) ++ keys_of_currencies product tier cs

abbrev pub keys_of_tiers : ℕ → List CustomerTier → List PriceKey
keys_of_tiers product [] = []
keys_of_tiers product (t ∷ ts) =
    keys_of_currencies product t (Currency.usd ∷ Currency.krw ∷ Currency.jpy ∷ Currency.eur ∷ [])
    ++ keys_of_tiers product ts

-- `enumeratePriceCacheKeys`
unfoldable pub enumerate_price_cache_keys : ℕ → List PriceKey
enumerate_price_cache_keys product =
    keys_of_tiers product (CustomerTier.standard ∷ CustomerTier.gold ∷ CustomerTier.platinum ∷ [])

abbrev pub has_key : PriceKey → List PriceKey → Bool
has_key key [] = false
has_key key (k ∷ ks) = same_key key k || has_key key ks

-- `cache.del` of price keys
abbrev pub without_keys :
    List PriceKey → List (PriceKey × ComputedPrice) → List (PriceKey × ComputedPrice)
without_keys keys es = keep_if (λ e. not (has_key (e.0) keys)) es

abbrev pub without_product : Bool → ℕ → Caches → Caches
without_product true id c = record c { products = remove_key id c.products }
without_product false id c = c

abbrev pub without_prices : Bool → ℕ → Caches → Caches
without_prices true id c = record c {
  prices = without_keys (enumerate_price_cache_keys id) c.prices;
}
without_prices false id c = c

-- `invalidateProductCaches` with the options `product` and `prices`
unfoldable pub invalidate_product_caches : Bool → Bool → ℕ → Action Catalog (Unit {0})
invalidate_product_caches product prices id (db, c) =
    (ok tt, (db, without_prices prices id (without_product product id c)))

-- `invalidatePriceCaches`
unfoldable pub invalidate_price_caches : ℕ → Action Catalog (Unit {0})
invalidate_price_caches id = invalidate_product_caches false true id

abbrev pub new_rule : ℕ → ℕ → PriceRuleCreateInput → PriceRule
new_rule id now i = record {
  id = id;
  product_id = i.product_id;
  rule_type = i.rule_type;
  value = i.value;
  priority = i.priority;
  starts_at = i.starts_at;
  ends_at = i.ends_at;
  created_at = now;
}

-- `create` of the rules' repository
unfoldable pub insert_rule : ℕ → ℕ → PriceRuleCreateInput → Action Catalog PriceRule
insert_rule id now i (db, c) =
    let r = new_rule id now i in (ok r, (record db { price_rules = r ∷ db.price_rules }, c))

-- `deleteById`
unfoldable pub delete_rule : ℕ → Action Catalog (Unit {0})
delete_rule id (db, c) =
    (ok tt, (record db { price_rules = keep_if (λ r. not (r.id == id)) db.price_rules }, c))

abbrev pub create_for_product :
    ℕ → ℕ → PriceRuleCreateInput → Option Product → Action Catalog PriceRule
create_for_product id now i none = throw product_not_found
create_for_product id now i (some p) = do
  invalidate_product_caches true false i.product_id
  rule ← insert_rule id now i
  invalidate_product_caches true false i.product_id
  pure rule

-- `createPriceRule`, with the id that it draws
unfoldable pub create_price_rule : ℕ → ℕ → PriceRuleCreateInput → Action Catalog PriceRule
create_price_rule id now i s =
    create_for_product id now i (find_row product_id_of i.product_id s.0.products) s

abbrev pub delete_found : ℕ → Option PriceRule → Action Catalog (Unit {0})
delete_found id none = pure tt
delete_found id (some r) = do
  invalidate_price_caches r.product_id
  delete_rule id
  invalidate_price_caches r.product_id

-- `deletePriceRule`
unfoldable pub delete_price_rule : ℕ → Action Catalog (Unit {0})
delete_price_rule id s = delete_found id (find_row rule_id_of id s.0.price_rules) s
