-- ===== src/Inventory/Stock.antt =====
-- services/inventory/src/domain/stockService.ts: the stock of a product over all warehouses.
use atlas_commerce.Prelude.{
  arith, sort_by, ◌∙◌, ℕ, ◌+◌, ◌≡◌, refl, List, [], ◌∷◌, map, sum_by, keep_if, sum_by-sort_by,
  sum_by-keep_if, if◌then◌else◌, ◌==◌,
}
use atlas_commerce.Shared.Tx.{Action, ok, ◌>>=◌, pure}
use atlas_commerce.Inventory.Types.{StockLevel, InventoryDb}
use atlas_commerce.Inventory.Levels.{by_warehouse, list_for_product}

pub record StockByWarehouse : Type 0 where
  pub warehouse_id : ℕ
  pub on_hand : ℕ
  pub reserved : ℕ

pub record StockTotal : Type 0 where
  pub on_hand : ℕ
  pub reserved : ℕ

pub record StockSnapshot : Type 0 where
  pub product_id : ℕ
  pub total : StockTotal
  pub by_warehouse : List StockByWarehouse

abbrev pub warehouse_row : StockLevel → StockByWarehouse
warehouse_row l = record {
  warehouse_id = l.warehouse_id;
  on_hand = l.on_hand;
  reserved = l.reserved;
}

-- The `reduce`, from the total so far.
unfoldable pub add_stock : StockTotal → List StockByWarehouse → StockTotal
add_stock acc [] = acc
add_stock acc (r ∷ rs) =
    add_stock (record { on_hand = acc.on_hand + r.on_hand; reserved = acc.reserved + r.reserved })
      rs

-- `getProductStock`
unfoldable pub get_product_stock : ℕ → Action InventoryDb StockSnapshot
get_product_stock product = do
  rows ← list_for_product product
  let listed = map warehouse_row rows
  pure (record {
    product_id = product;
    total = add_stock (record { on_hand = 0; reserved = 0 }) listed;
    by_warehouse = listed;
  })

add_stock_sum :
    (acc : StockTotal) (ls : List StockLevel)
    → ((add_stock acc (map warehouse_row ls)).on_hand ≡ acc.on_hand + sum_by (λ l. l.on_hand) ls)
      × ((add_stock acc (map warehouse_row ls)).reserved
          ≡ acc.reserved + sum_by (λ l. l.reserved) ls)
unfolding add_stock
add_stock_sum acc [] = (omega arith, omega arith)
add_stock_sum acc (l ∷ ls) =
    let ih =
      add_stock_sum
        (record { on_hand = acc.on_hand + l.on_hand; reserved = acc.reserved + l.reserved }) ls in
    (omega (arith, ih.0), omega (arith, ih.1))

sum_by-listed :
    (f : StockLevel → ℕ) (p : ℕ) (ls : List StockLevel)
    → sum_by f (sort_by by_warehouse (keep_if (λ l. l.product_id == p) ls))
      ≡ sum_by (λ l. if l.product_id == p then f l else 0) ls
sum_by-listed f p ls =
    sum_by-sort_by f by_warehouse (keep_if (λ l. l.product_id == p) ls)
    ∙ sum_by-keep_if f (λ l. l.product_id == p) ls

-- The stock of a product is read without a write, and its totals are the sums over the levels of
-- the product.
pub get_product_stock_lem :
    (p : ℕ) (s : InventoryDb)
    → (snapshot : StockSnapshot) × (get_product_stock p s ≡ (ok snapshot, s))
      × (snapshot.total.on_hand ≡ sum_by (λ l. if l.product_id == p then l.on_hand else 0) s.levels)
      × (snapshot.total.reserved
          ≡ sum_by (λ l. if l.product_id == p then l.reserved else 0) s.levels)
unfolding get_product_stock list_for_product
get_product_stock_lem p s =
    let listed = sort_by by_warehouse (keep_if (λ l. l.product_id == p) s.levels) in
    let sums = add_stock_sum (record { on_hand = 0; reserved = 0 }) listed in
    (
      _,
      refl,
      omega (arith, sums.0, sum_by-listed (λ l. l.on_hand) p s.levels),
      omega (arith, sums.1, sum_by-listed (λ l. l.reserved) p s.levels),
    )
