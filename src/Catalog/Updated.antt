-- ===== src/Catalog/Updated.antt =====
-- What an update of a product does to the caches: `updateProduct` of domain/productService.ts of
-- services/catalog.
use atlas_commerce.Prelude.{ℕ, ◌≤◌, ◌≡◌, true, none, List}
use atlas_commerce.Shared.Idempotency.{lookup}
use atlas_commerce.Shared.Post.{Ensures}
use atlas_commerce.Shared.Replay.{lookup-remove_key}
use atlas_commerce.Shared.Rows.{find_row}
use atlas_commerce.Shared.Tx.{Action, Result, and_then, ok, err, ◌>>=◌, ◌>>◌, pure, or_throw}
use atlas_commerce.Catalog.Keys.{cached_price-without_keys, has_key-enumerate_price_cache_keys}
use atlas_commerce.Catalog.Prices.{
  Catalog, product_id_of, product_not_found, cached_price, price_cache_key,
  invalidate_product_caches, enumerate_price_cache_keys,
}
use atlas_commerce.Catalog.Products.{
  Category, ProductPatchInput, ensure_if, update_fields, update_product,
}
use atlas_commerce.Catalog.Types.{CustomerTier, Currency, Product}

-- Neither the product nor a price of it is cached.
abbrev pub IsUncached : ℕ → Catalog → Type 0
IsUncached id s =
    (lookup id s.1.products ≡ none)
    × ((t : CustomerTier) (c : Currency) (q : ℕ)
        → 1 ≤ q
        → q ≤ 1000
        → cached_price (price_cache_key id t c q) s.1.prices ≡ none)

invalidate_product_caches-IsUncached :
    (id : ℕ) (s : Catalog) → IsUncached id (invalidate_product_caches true true id s).1
unfolding invalidate_product_caches
invalidate_product_caches-IsUncached id (db, c) = (
  lookup-remove_key id c.products,
  λ t cur q low high.
      cached_price-without_keys (price_cache_key id t cur q) (enumerate_price_cache_keys id)
        c.prices (has_key-enumerate_price_cache_keys id t cur q low high),
)

update_end-IsUncached :
    (id : ℕ) (p : Product) (s : Catalog)
    → Ensures (λ _ t. IsUncached id t) ((invalidate_product_caches true true id >> pure p) s)
unfolding invalidate_product_caches
update_end-IsUncached id p (db, c) = invalidate_product_caches-IsUncached id (db, c)

-- An awaited call before the last invalidation may do anything.
and_then-IsUncached :
    {A : Type 0} (id : ℕ) (m : Result A × Catalog) (f : A → Action Catalog Product)
    → ((a : A) (t : Catalog) → Ensures (λ _ t. IsUncached id t) (f a t))
    → Ensures (λ _ t. IsUncached id t) (and_then m f)
and_then-IsUncached id (ok a, t) f k = k a t
and_then-IsUncached id (err e, t) f k = tt

write-IsUncached :
    (id now : ℕ) (i : ProductPatchInput) (s : Catalog)
    → Ensures
        (λ _ t. IsUncached id t)
        ((do
          changed ← update_fields id now i
          updated ← or_throw changed product_not_found
          invalidate_product_caches true true id
          pure updated)
          s)
write-IsUncached id now i s =
    and_then-IsUncached id (update_fields id now i s)
      (λ changed. do
        updated ← or_throw changed product_not_found
        invalidate_product_caches true true id
        pure updated)
      (λ changed s.
        and_then-IsUncached id (or_throw changed product_not_found s)
          (λ p. invalidate_product_caches true true id >> pure p)
          (λ p s. update_end-IsUncached id p s))

-- After an update of a product that returned, neither the product nor a price of it is cached, for any
-- tier, currency and quantity that a request may ask for.
pub update_product-IsUncached :
    (categories : List Category) (id now : ℕ) (i : ProductPatchInput) (s : Catalog)
    → Ensures (λ _ t. IsUncached id t) (update_product categories id now i s)
unfolding update_product
update_product-IsUncached categories id now i s =
    and_then-IsUncached id (or_throw (find_row product_id_of id s.0.products) product_not_found s)
      (λ existing. do
        ensure_if categories i.category_id
        invalidate_product_caches true true id
        changed ← update_fields id now i
        updated ← or_throw changed product_not_found
        invalidate_product_caches true true id
        pure updated)
      (λ existing s.
        and_then-IsUncached id (ensure_if categories i.category_id s)
          (λ _. do
            invalidate_product_caches true true id
            changed ← update_fields id now i
            updated ← or_throw changed product_not_found
            invalidate_product_caches true true id
            pure updated)
          (λ _ s.
            and_then-IsUncached id (invalidate_product_caches true true id s)
              (λ _. do
                changed ← update_fields id now i
                updated ← or_throw changed product_not_found
                invalidate_product_caches true true id
                pure updated)
              (λ _ s. write-IsUncached id now i s)))
