-- ===== src/Catalog/Products.antt =====
-- services/catalog/src: domain/productService.ts and the writes of repositories/productRepository.ts. No
-- operation writes the categories, which are an argument; a sku is unique in the table.
use atlas_commerce.Prelude.{
  ℕ, Bool, true, false, not, Option, none, some, List, [], ◌∷◌, ◌==◌, ◌&&◌, ◌||◌, if◌then◌else◌,
}
use atlas_commerce.Shared.Errors.{Code, AppError, app_error, conflict_error}
use atlas_commerce.Shared.Rows.{find_row, update_row}
use atlas_commerce.Shared.Tx.{Action, ok, err, ◌>>=◌, ◌>>◌, pure, throw, or_throw, gets}
use atlas_commerce.Catalog.Prices.{
  Catalog, product_id_of, product_not_found, invalidate_product_caches,
}
use atlas_commerce.Catalog.Types.{Currency, Product, ProductStatus}

pub record Category : Type 0 where
  pub id : ℕ
  pub name : ℕ
  pub parent_id : Option ℕ

pub record ProductCreateInput : Type 0 where
  pub sku : ℕ
  pub name : ℕ
  pub description : ℕ
  pub category_id : ℕ
  pub base_price_cents : ℕ
  pub currency : Currency
  pub status : ProductStatus

pub record ProductPatchInput : Type 0 where
  pub sku : Option ℕ
  pub name : Option ℕ
  pub description : Option ℕ
  pub category_id : Option ℕ
  pub base_price_cents : Option ℕ
  pub currency : Option Currency
  pub status : Option ProductStatus

-- `notFoundError("category")`
abbrev pub category_not_found : AppError
category_not_found = app_error Code.not_found 404

abbrev pub category_id_of : Category → ℕ
category_id_of c = c.id

-- `ensureCategoryExists`
abbrev pub ensured : Option Category → Action Catalog (Unit {0})
ensured none = throw category_not_found
ensured (some c) = pure tt

abbrev pub ensure_category_exists : List Category → ℕ → Action Catalog (Unit {0})
ensure_category_exists categories id = ensured (find_row category_id_of id categories)

-- `if (patch.categoryId)`
abbrev pub ensure_if : List Category → Option ℕ → Action Catalog (Unit {0})
ensure_if categories none = pure tt
ensure_if categories (some id) = ensure_category_exists categories id

-- Whether another product than `id` has the sku: the unique index is violated.
abbrev pub has_sku : ℕ → ℕ → List Product → Bool
has_sku id sku [] = false
has_sku id sku (p ∷ ps) = ((p.sku == sku) && not (p.id == id)) || has_sku id sku ps

abbrev pub new_product : ℕ → ℕ → ProductCreateInput → Product
new_product id now i = record {
  id = id;
  sku = i.sku;
  name = i.name;
  description = i.description;
  category_id = i.category_id;
  base_price_cents = i.base_price_cents;
  currency = i.currency;
  status = i.status;
  created_at = now;
  updated_at = now;
}

-- `create` of the repository, with the error that `createProduct` makes of a violation
abbrev pub insert_product : ℕ → ℕ → ProductCreateInput → Action Catalog Product
insert_product id now i (db, c) =
    if has_sku id i.sku db.products then (err conflict_error, (db, c)) else (
      ok (new_product id now i),
      (record db { products = new_product id now i ∷ db.products }, c),
    )

-- `createProduct`, with the id that it draws
unfoldable pub create_product : List Category → ℕ → ℕ → ProductCreateInput → Action Catalog Product
create_product categories id now i = do
  ensure_category_exists categories i.category_id
  product ← insert_product id now i
  invalidate_product_caches true true product.id
  pure product

abbrev pub or_kept {ℓ} : {A : Type ℓ} → Option A → A → A
or_kept none x = x
or_kept (some y) x = y

-- `set ${assignments}, updated_at = now()`, of a patch with a field
abbrev pub patched : ℕ → ProductPatchInput → Product → Product
patched now i p = record p {
  sku = or_kept i.sku p.sku;
  name = or_kept i.name p.name;
  description = or_kept i.description p.description;
  category_id = or_kept i.category_id p.category_id;
  base_price_cents = or_kept i.base_price_cents p.base_price_cents;
  currency = or_kept i.currency p.currency;
  status = or_kept i.status p.status;
  updated_at = now;
}

abbrev pub takes_sku : ℕ → Option ℕ → List Product → Bool
takes_sku id none ps = false
takes_sku id (some sku) ps = has_sku id sku ps

-- `assignments.length === 0`
abbrev pub is_none {ℓ} : {A : Type ℓ} → Option A → Bool
is_none none = true
is_none (some y) = false

abbrev pub is_empty : ProductPatchInput → Bool
is_empty i =
    is_none i.sku
    && (is_none i.name
        && (is_none i.description
            && (is_none i.category_id
                && (is_none i.base_price_cents && (is_none i.currency && is_none i.status)))))

-- `update` of the repository, with the error that `updateProduct` makes of a violation
abbrev pub update_fields : ℕ → ℕ → ProductPatchInput → Action Catalog (Option Product)
update_fields id now i (db, c) =
    let did = update_row product_id_of (λ p. true) (patched now i) id db.products in
    if is_empty i
    then (ok (find_row product_id_of id db.products), (db, c))
    else if takes_sku id i.sku db.products
    then (err conflict_error, (db, c))
    else (ok (did.0), (record db { products = did.1 }, c))

-- `updateProduct`
unfoldable pub update_product : List Category → ℕ → ℕ → ProductPatchInput → Action Catalog Product
update_product categories id now i = do
  found ← gets (λ s. find_row product_id_of id s.0.products)
  existing ← or_throw found product_not_found
  ensure_if categories i.category_id
  invalidate_product_caches true true id
  changed ← update_fields id now i
  updated ← or_throw changed product_not_found
  invalidate_product_caches true true id
  pure updated
