-- ===== src/Inventory/Operations.antt =====
-- services/inventory/src/repositories/stockOperationsRepository.ts and the callbacks that
-- src/domain/stockOperationsService.ts hands to the idempotency guard. The cache keys that they
-- delete are not part of the state.
use Prim.Native.String.{◌++◌}
use atlas_commerce.Prelude.{
  ℕ, ◌+◌, ◌-◌, Bool, false, not, ◌||◌, Option, none, some, List, [], ◌∷◌, leb, ltb, ◌==◌,
  if◌then◌else◌, String,
}
use atlas_commerce.Prelude.Int.{ℤ, sub_ℕ, pos}
use atlas_commerce.Shared.Errors.{Code, AppError, app_error, internal_error}
use atlas_commerce.Shared.Tx.{Action, ok, err, ◌>>=◌, ◌>>◌, pure, or_throw, with_tx, throw_if}
use atlas_commerce.Inventory.Types.{StockLevel, InventoryDb, RefType}
use atlas_commerce.Inventory.Levels.{find_level, replace_level, update_level}
use atlas_commerce.Inventory.Reservations.{insert_movement}

pub record TransferStockInput : Type 0 where
  pub transfer_id : ℕ
  pub source_warehouse_id : ℕ
  pub destination_warehouse_id : ℕ
  pub product_id : ℕ
  pub qty : ℕ
  pub reason : String

pub record TransferStockResult : Type 0 where
  pub transfer_id : ℕ
  pub product_id : ℕ
  pub qty : ℕ
  pub source_warehouse_id : ℕ
  pub destination_warehouse_id : ℕ
  pub source_on_hand : ℕ
  pub destination_on_hand : ℕ
  pub movement_ids : List ℕ

-- INSERT … ON CONFLICT (warehouse_id, product_id) DO UPDATE SET on_hand = on_hand + $3.
abbrev pub upserted : ℕ → ℕ → ℕ → InventoryDb → Option StockLevel → StockLevel × InventoryDb
upserted w p qty s none =
    let l : StockLevel = record { warehouse_id = w; product_id = p; on_hand = qty; reserved = 0 } in
    (l, record s { levels = l ∷ s.levels })
upserted w p qty s (some l) =
    let r : StockLevel = record l { on_hand = l.on_hand + qty } in
    (r, record s { levels = replace_level r s.levels })

abbrev pub is_warehouse : ℕ → List ℕ → Bool
is_warehouse w [] = false
is_warehouse w (x ∷ xs) = (x == w) || is_warehouse w xs

-- The INSERT of a level breaks the foreign key of `stock_levels.warehouse_id`.
abbrev pub is_orphan : ℕ → InventoryDb → Option StockLevel → Bool
is_orphan w s none = not (is_warehouse w s.warehouses)
is_orphan w s (some l) = false

-- The error of a broken foreign key is no AppError. A movement needs no test: its warehouse has a level.
unfoldable pub upsert_level : ℕ → ℕ → ℕ → Action InventoryDb StockLevel
upsert_level w p qty s =
    let (l, t) = upserted w p qty s (find_level w p s.levels) in
    if is_orphan w s (find_level w p s.levels) then (err internal_error, s) else (ok l, t)

-- The two movements of a transfer, and its result.
unfoldable pub recorded :
    TransferStockInput
    → ℕ
    → ℕ
    → StockLevel
    → StockLevel
    → Action InventoryDb (Option TransferStockResult)
recorded input source_id destination_id source destination = do
  out ← insert_movement (record {
    id = source_id;
    warehouse_id = input.source_warehouse_id;
    product_id = input.product_id;
    delta = sub_ℕ 0 input.qty;
    reason = input.reason;
    ref_type = RefType.transfer;
    ref_id = input.transfer_id;
  })
  back ← insert_movement (record {
    id = destination_id;
    warehouse_id = input.destination_warehouse_id;
    product_id = input.product_id;
    delta = pos input.qty;
    reason = input.reason;
    ref_type = RefType.transfer;
    ref_id = input.transfer_id;
  })
  pure (
      some (record {
        transfer_id = input.transfer_id;
        product_id = input.product_id;
        qty = input.qty;
        source_warehouse_id = input.source_warehouse_id;
        destination_warehouse_id = input.destination_warehouse_id;
        source_on_hand = source.on_hand;
        destination_on_hand = destination.on_hand;
        movement_ids = out.id ∷ back.id ∷ [];
      }))

-- The transaction after its first UPDATE; `none` is a source without the stock.
unfoldable pub transferred :
    TransferStockInput → ℕ → ℕ → Option StockLevel → Action InventoryDb (Option TransferStockResult)
transferred input source_id destination_id none = pure none
transferred input source_id destination_id (some source) = do
  destination ← upsert_level input.destination_warehouse_id input.product_id input.qty
  recorded input source_id destination_id source destination

-- `transferStock` of the repository
unfoldable pub transfer_rows :
    TransferStockInput → ℕ → ℕ → Action InventoryDb (Option TransferStockResult)
transfer_rows input source_id destination_id = with_tx (do
  source ←
      update_level input.source_warehouse_id input.product_id (λ l. leb input.qty l.on_hand)
        (λ l. record l { on_hand = l.on_hand - input.qty })
  transferred input source_id destination_id source)

abbrev pub transfer_same_warehouse : AppError
transfer_same_warehouse = app_error Code.transfer_same_warehouse 422

abbrev pub transfer_stock_unavailable : AppError
transfer_stock_unavailable = app_error Code.transfer_stock_unavailable 409

abbrev pub cycle_count_rejected : AppError
cycle_count_rejected = app_error Code.cycle_count_rejected 409

-- The guarded callback of `transferStock`.
unfoldable pub transfer_stock : TransferStockInput → ℕ → ℕ → Action InventoryDb TransferStockResult
transfer_stock input source_id destination_id = do
  throw_if (input.source_warehouse_id == input.destination_warehouse_id) transfer_same_warehouse
  result ← transfer_rows input source_id destination_id
  or_throw result transfer_stock_unavailable

pub record CycleCountInput : Type 0 where
  pub cycle_count_id : ℕ
  pub warehouse_id : ℕ
  pub product_id : ℕ
  pub counted_on_hand : ℕ
  pub counted_by : String
  pub reason : String

pub record CycleCountResult : Type 0 where
  pub cycle_count_id : ℕ
  pub warehouse_id : ℕ
  pub product_id : ℕ
  pub previous_on_hand : ℕ
  pub counted_on_hand : ℕ
  pub delta : ℤ
  pub reserved : ℕ
  pub movement_id : ℕ

-- After the UPDATE of a count.
unfoldable pub counted :
    CycleCountInput
    → ℕ
    → StockLevel
    → Option StockLevel
    → Action InventoryDb (Option CycleCountResult)
counted input movement_id current none = pure none
counted input movement_id current (some updated) = do
  let delta = sub_ℕ input.counted_on_hand current.on_hand
  movement ← insert_movement (record {
    id = movement_id;
    warehouse_id = input.warehouse_id;
    product_id = input.product_id;
    delta = delta;
    reason = input.reason ++ " (" ++ input.counted_by ++ ")";
    ref_type = RefType.cycle_count;
    ref_id = input.cycle_count_id;
  })
  pure (
      some (record {
        cycle_count_id = input.cycle_count_id;
        warehouse_id = input.warehouse_id;
        product_id = input.product_id;
        previous_on_hand = current.on_hand;
        counted_on_hand = updated.on_hand;
        delta = delta;
        reserved = updated.reserved;
        movement_id = movement.id;
      }))

-- After the locking SELECT of a count.
unfoldable pub count_current :
    CycleCountInput → ℕ → Option StockLevel → Action InventoryDb (Option CycleCountResult)
count_current input movement_id none = pure none
count_current input movement_id (some current) =
    if ltb input.counted_on_hand current.reserved then pure none else do
      updated ←
          update_level input.warehouse_id input.product_id
            (λ l. leb l.reserved input.counted_on_hand)
            (λ l. record l { on_hand = input.counted_on_hand })
      counted input movement_id current updated

-- `recordCycleCount` of the repository
unfoldable pub count_rows : CycleCountInput → ℕ → Action InventoryDb (Option CycleCountResult)
count_rows input movement_id = with_tx (λ s.
    count_current input movement_id (find_level input.warehouse_id input.product_id s.levels) s)

-- The guarded callback of `recordCycleCount`.
unfoldable pub record_cycle_count : CycleCountInput → ℕ → Action InventoryDb CycleCountResult
record_cycle_count input movement_id = do
  result ← count_rows input movement_id
  or_throw result cycle_count_rejected
