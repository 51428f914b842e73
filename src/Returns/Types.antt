-- ===== src/Returns/Types.antt =====
-- services/returns/src: the data of domain/models.ts and repositories/returnsRepo.ts, and the
-- clients of orders, inventory and settlement. A uuid and a text that is only stored are numbers.
use atlas_commerce.Prelude.{ℕ, List, [], ◌∷◌, Option, ◌==◌, ltb, leb, if◌then◌else◌, Bool, sort_by}
use atlas_commerce.Shared.Errors.{Code, AppError, app_error}
use atlas_commerce.Shared.Tx.{Action, Result, ok, err}
use atlas_commerce.Shared.Retry.{with_retry}
use atlas_commerce.Orders.Types.{OrderStatus}
use atlas_commerce.Returns.Refund.{OrderLineSnapshot}

pub data ReturnStatus : Type 0 where
  requested approved rejected refunded : ReturnStatus

pub record ReturnLine : Type 0 where
  pub id : ℕ
  pub return_id : ℕ
  pub product_id : ℕ
  pub qty : ℕ
  pub refund_amount_cents : ℕ

-- A row of `return_requests`.
pub record ReturnRow : Type 0 where
  pub id : ℕ
  pub order_id : ℕ
  pub customer_id : ℕ
  pub status : ReturnStatus
  pub reason : ℕ
  pub decision_reason : Option ℕ
  pub total_refund_cents : ℕ
  pub currency : ℕ
  pub inventory_restored_at : Option ℕ
  pub ledger_recorded_at : Option ℕ
  pub created_at : ℕ
  pub updated_at : ℕ

-- The domain's return: a row with its lines.
pub record ReturnRequest : Type 0 where
  pub row : ReturnRow
  pub lines : List ReturnLine

pub record ReturnsDb : Type 0 where
  pub requests : List ReturnRow
  pub lines : List ReturnLine

-- The database's now(), and the values of successive calls of randomUUID().
pub record Env : Type 0 where
  pub now : ℕ
  pub new_id : ℕ → ℕ

pub record OrderSnapshot : Type 0 where
  pub id : ℕ
  pub customer_id : ℕ
  pub status : OrderStatus
  pub currency : ℕ
  pub items : List OrderLineSnapshot

-- One of `byWarehouse`.
pub record WarehouseStock : Type 0 where
  pub warehouse_id : ℕ
  pub on_hand : ℕ
  pub reserved : ℕ

pub record StockSnapshot : Type 0 where
  pub product_id : ℕ
  pub total_on_hand : ℕ
  pub total_reserved : ℕ
  pub by_warehouse : List WarehouseStock

-- The reason of an adjustment is always "return".
pub record InventoryAdjustmentInput : Type 0 where
  pub warehouse_id : ℕ
  pub product_id : ℕ
  pub delta : ℕ

-- The account is always "refunds" and the type "refund".
pub record LedgerEntryInput : Type 0 where
  pub order_id : ℕ
  pub amount_cents : ℕ
  pub currency : ℕ
  pub external_ref : ℕ

-- The endpoints that the service calls, in the rest of the system `W`.
pub record Outside (W : Type 0) : Type 0 where
  pub orders : ℕ → Action W OrderSnapshot
  pub stock : ℕ → Action W StockSnapshot
  pub adjustments : InventoryAdjustmentInput → Action W (Unit {0})
  pub ledger_entries : LedgerEntryInput → Action W (Unit {0})

-- The clients: `warnAndRethrow` throws what it was given, so that only the retries are left.
module _ {W : Type 0} (out : Outside W) where
  abbrev pub get_order : ℕ → Action W OrderSnapshot
  get_order id = with_retry 2 (λ _. Bool.true) (out.orders id)

  abbrev pub get_stock : ℕ → Action W StockSnapshot
  get_stock product = with_retry 2 (λ _. Bool.true) (out.stock product)

  abbrev pub create_adjustment : InventoryAdjustmentInput → Action W (Unit {0})
  create_adjustment input = with_retry 2 (λ _. Bool.true) (out.adjustments input)

  abbrev pub post_ledger_entry : LedgerEntryInput → Action W (Unit {0})
  post_ledger_entry entry = with_retry 3 (λ _. Bool.true) (out.ledger_entries entry)

-- `returnConflictError(code)`
abbrev pub return_conflict_error : Code → AppError
return_conflict_error c = app_error c 409

-- `returnNotFoundError`
abbrev pub return_not_found_error : AppError
return_not_found_error = app_error Code.return_not_found 404

-- `right.onHand - left.onHand || left.warehouseId.localeCompare(right.warehouseId)`, not above 0
abbrev pub restock_before : WarehouseStock → WarehouseStock → Bool
restock_before x y =
    if x.on_hand == y.on_hand then leb x.warehouse_id y.warehouse_id else ltb y.on_hand x.on_hand

abbrev pub first_warehouse : List WarehouseStock → Result ℕ
first_warehouse [] = err (return_conflict_error Code.return_stock_location_not_found)
first_warehouse (x ∷ xs) = ok x.warehouse_id

-- `chooseRestockWarehouse`
unfoldable pub choose_restock_warehouse : StockSnapshot → Result ℕ
choose_restock_warehouse stock = first_warehouse (sort_by restock_before stock.by_warehouse)
