-- ===== src/Inventory/Levels.antt =====
-- services/inventory/src/repositories/stockLevelsRepository.ts. The primary key makes `stock_levels`
-- a map from a warehouse and a product to a row: an UPDATE by key touches at most one row.
use atlas_commerce.Prelude.{
  ℕ, ◌+◌, ◌-◌, Bool, true, false, ◌&&◌, Option, none, some, List, [], ◌∷◌, map, ltb, leb, ◌==◌,
  if◌then◌else◌, keep_if, sort_by,
}
use atlas_commerce.Prelude.Int.{ℤ, pos_part, neg_part}
use atlas_commerce.Shared.Tx.{Action, ok, gets}
use atlas_commerce.Inventory.Types.{StockLevel, InventoryDb, AllocationCandidate}
use atlas_commerce.Inventory.Allocation.{by_available}

abbrev pub is_at : ℕ → ℕ → StockLevel → Bool
is_at w p l = l.warehouse_id == w && l.product_id == p

-- `WHERE warehouse_id = $1 AND product_id = $2`
unfoldable pub find_level : ℕ → ℕ → List StockLevel → Option StockLevel
find_level w p [] = none
find_level w p (l ∷ ls) = if is_at w p l then some l else find_level w p ls

-- Writes the row that has the key of `r`.
unfoldable pub replace_level : StockLevel → List StockLevel → List StockLevel
replace_level r [] = []
replace_level r (l ∷ ls) =
    if is_at r.warehouse_id r.product_id l then r ∷ ls else l ∷ replace_level r ls

-- UPDATE stock_levels SET … WHERE <key> AND <guard> RETURNING the new row, or no row.
abbrev pub update_row :
    (StockLevel → Bool)
    → (StockLevel → StockLevel)
    → InventoryDb
    → Option StockLevel
    → Option StockLevel × InventoryDb
update_row guard f s none = (none, s)
update_row guard f s (some l) =
    if guard l then (some (f l), record s { levels = replace_level (f l) s.levels }) else (none, s)

unfoldable pub update_level :
    ℕ → ℕ → (StockLevel → Bool) → (StockLevel → StockLevel) → Action InventoryDb (Option StockLevel)
update_level w p guard f s =
    let (row, t) = update_row guard f s (find_level w p s.levels) in (ok row, t)

abbrev pub by_warehouse : StockLevel → StockLevel → Bool
by_warehouse a b = leb a.warehouse_id b.warehouse_id

-- `listForProduct`
unfoldable pub list_for_product : ℕ → Action InventoryDb (List StockLevel)
list_for_product p = gets λ s. sort_by by_warehouse (keep_if (λ l. l.product_id == p) s.levels)

abbrev pub candidate_of : StockLevel → AllocationCandidate
candidate_of l = record {
  warehouse_id = l.warehouse_id;
  product_id = l.product_id;
  available = l.on_hand - l.reserved;
}

-- `on_hand - reserved > 0`, on integers
abbrev pub has_available : ℕ → StockLevel → Bool
has_available p l = l.product_id == p && ltb l.reserved l.on_hand

unfoldable pub available_rows : ℕ → List StockLevel → List AllocationCandidate
available_rows p levels = sort_by by_available (map candidate_of (keep_if (has_available p) levels))

-- `listAvailableForProduct`
unfoldable pub list_available_for_product : ℕ → Action InventoryDb (List AllocationCandidate)
list_available_for_product p = gets λ s. available_rows p s.levels

-- `reserveAvailable`: the guard `on_hand - reserved >= $3`, on integers.
unfoldable pub reserve_available : ℕ → ℕ → ℕ → Action InventoryDb (Option StockLevel)
reserve_available w p qty =
    update_level w p (λ l. leb (l.reserved + qty) l.on_hand)
      (λ l. record l { reserved = l.reserved + qty })

-- `commitReserved`: a SELECT, a test in the service, and an UPDATE of what was read.
unfoldable pub commit_reserved : ℕ → ℕ → ℕ → Action InventoryDb (Option StockLevel)
commit_reserved w p qty =
    update_level w p (λ l. leb qty l.reserved && leb qty l.on_hand)
      (λ l. record l { on_hand = l.on_hand - qty; reserved = l.reserved - qty })

-- `releaseReserved`
unfoldable pub release_reserved : ℕ → ℕ → ℕ → Action InventoryDb (Option StockLevel)
release_reserved w p qty =
    update_level w p (λ l. leb qty l.reserved) (λ l. record l { reserved = l.reserved - qty })

-- `adjustOnHand`: the guard `on_hand + $3 >= 0`.
unfoldable pub adjust_on_hand : ℕ → ℕ → ℤ → Action InventoryDb (Option StockLevel)
adjust_on_hand w p delta =
    update_level w p (λ l. leb (neg_part delta) (l.on_hand + pos_part delta))
      (λ l. record l { on_hand = l.on_hand + pos_part delta - neg_part delta })

-- `exists`
unfoldable pub level_exists : ℕ → ℕ → Action InventoryDb Bool
level_exists w p = gets λ s. elim (find_level w p s.levels) [ none ↦ false | some _ ↦ true ]
