-- ===== src/Catalog/Cached.antt =====
-- What a change of the price rules does to the cached prices: domain/priceRuleService.ts and
-- domain/priceService.ts of services/catalog.
use atlas_commerce.Prelude.{ℕ, ◌≤◌, ◌≡◌, refl, none, some}
use atlas_commerce.Shared.Idempotency.{remove_key}
use atlas_commerce.Shared.Replay.{lookup-remove_key}
use atlas_commerce.Shared.Rows.{find_row}
use atlas_commerce.Shared.Tx.{ok}
use atlas_commerce.Catalog.Keys.{cached_price-without_keys, has_key-enumerate_price_cache_keys}
use atlas_commerce.Catalog.Prices.{
  Catalog, product_id_of, rule_id_of, cached_price, asked_currency, price_cache_key,
  get_product_by_id, get_price, new_rule, insert_rule, delete_rule, create_price_rule,
  delete_price_rule, invalidate_product_caches, invalidate_price_caches, enumerate_price_cache_keys,
  without_keys,
}
use atlas_commerce.Catalog.Rounding.{Doubles}
use atlas_commerce.Catalog.Types.{
  CustomerTier, Currency, Product, PriceRule, PriceRuleCreateInput, PriceRequest, ComputedPrice,
  Rates,
}

-- After a price rule was deleted, no price of its product is cached, for any tier, currency and
-- quantity that a request may ask for.
pub delete_price_rule_uncaches :
    (id : ℕ) (r : PriceRule) (s : Catalog) (t : CustomerTier) (c : Currency) (q : ℕ)
    → find_row rule_id_of id s.0.price_rules ≡ some r
    → 1 ≤ q
    → q ≤ 1000
    → cached_price (price_cache_key r.product_id t c q) (delete_price_rule id s).1.1.prices ≡ none
unfolding delete_price_rule invalidate_price_caches invalidate_product_caches delete_rule
delete_price_rule_uncaches id r (db, caches) t c q found low high =
    let key = price_cache_key r.product_id t c q in
    let keys = enumerate_price_cache_keys r.product_id in
    rw found (
      cached_price-without_keys key keys (without_keys keys caches.prices)
        (has_key-enumerate_price_cache_keys r.product_id t c q low high))

-- Creating a price rule keeps the cached prices of its product: a request whose price is cached is
-- answered that price, whatever the new rule says.
pub create_price_rule_stale :
    {W : Type 0} (d : Doubles) (rates : Rates W) (id now later : ℕ) (i : PriceRuleCreateInput)
    (request : PriceRequest) (p : Product) (price : ComputedPrice) (s : Catalog) (w : W)
    → find_row product_id_of i.product_id s.0.products ≡ some p
    → request.product_id ≡ i.product_id
    → cached_price
        (price_cache_key p.id request.customer_tier (asked_currency request.currency p) request.qty)
        s.1.prices
      ≡ some price
    → ((create_price_rule id now i s).0 ≡ ok (new_rule id now i))
      × ((get_price d rates later request ((create_price_rule id now i s).1, w)).0 ≡ ok price)
unfolding create_price_rule invalidate_product_caches insert_rule get_price get_product_by_id
create_price_rule_stale d rates id now later i request p price (db, c) w found same cached =
    rw found (
      refl,
      rw same (
          rw (lookup-remove_key i.product_id (remove_key i.product_id c.products))
            (rw found (rw cached refl))),
    )
