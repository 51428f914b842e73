-- ===== src/Inventory/Allocation.antt =====
-- services/inventory/src/domain/allocation.ts and stockMath.ts: merging the requested lines and
-- splitting a quantity over warehouses.
use atlas_commerce.Prelude.{
  ℕ, ◌+◌, ◌-◌, Bool, ◌&&◌, ◌||◌, List, [], ◌∷◌, min, ltb, leb, ◌==◌, if◌then◌else◌, keep_if,
  sort_by,
}
use atlas_commerce.Shared.Errors.{Code, AppError, app_error}
use atlas_commerce.Shared.Tx.{Result, ok, err}
use atlas_commerce.Inventory.Types.{AllocationCandidate, AllocationLine, RequestedLine}

-- `insufficientStock`
abbrev pub insufficient_stock : AppError
insufficient_stock = app_error Code.insufficient_stock 409

-- `totals.set(productId, (totals.get(productId) ?? 0) + qty)`, in insertion order.
unfoldable pub add_total : RequestedLine → List RequestedLine → List RequestedLine
add_total l [] = l ∷ []
add_total l (t ∷ ts) =
    if t.product_id == l.product_id
    then record t { qty = t.qty + l.qty } ∷ ts
    else t ∷ add_total l ts

unfoldable pub merge_lines : List RequestedLine → List RequestedLine → List RequestedLine
merge_lines totals [] = totals
merge_lines totals (l ∷ ls) = merge_lines (add_total l totals) ls

-- `a.productId.localeCompare(b.productId)`
abbrev pub by_product : RequestedLine → RequestedLine → Bool
by_product a b = leb a.product_id b.product_id

unfoldable pub normalize_reservation_lines : List RequestedLine → List RequestedLine
normalize_reservation_lines lines = sort_by by_product (merge_lines [] lines)

-- `b.available - a.available || a.warehouseId.localeCompare(b.warehouseId)`
abbrev pub by_available : AllocationCandidate → AllocationCandidate → Bool
by_available a b =
    ltb b.available a.available || (a.available == b.available && leb a.warehouse_id b.warehouse_id)

abbrev pub is_candidate : ℕ → AllocationCandidate → Bool
is_candidate product c = c.product_id == product && ltb 0 c.available

-- The loop over the candidates: the allocations, and what remains.
unfoldable pub allocate : ℕ → ℕ → List AllocationCandidate → List AllocationLine × ℕ
allocate product remaining [] = ([], remaining)
allocate product remaining (c ∷ cs) =
    let taken = min remaining c.available in
    let (lines, left) = allocate product (remaining - taken) cs in
    if remaining == 0
    then ([], remaining)
    else (record { warehouse_id = c.warehouse_id; product_id = product; qty = taken } ∷ lines, left)

unfoldable pub plan_allocations : ℕ → ℕ → List AllocationCandidate → Result (List AllocationLine)
plan_allocations product qty candidates =
    let (lines, left) =
      allocate product qty (sort_by by_available (keep_if (is_candidate product) candidates)) in
    if ltb 0 left then err insufficient_stock else ok lines
