-- ===== src/Inventory/Service.antt =====
-- services/inventory/src/domain/reservationService.ts, reservationMapper.ts and
-- adjustmentService.ts.
use atlas_commerce.Prelude.{
  ℕ, suc, ◌+◌, ◌*◌, Bool, true, false, Option, none, some, List, [], ◌∷◌, map, length,
  if◌then◌else◌, String,
}
use atlas_commerce.Prelude.Int.{ℤ, sub_ℕ}
use atlas_commerce.Shared.Errors.{Code, AppError, app_error}
use atlas_commerce.Shared.Tx.{Action, Result, ◌>>=◌, ◌>>◌, pure, throw, or_throw, with_tx, throw_if}
use atlas_commerce.Inventory.Types.{
  StockLevel, Reservation, ReservationStatus, ReservationLine, RefType, InventoryDb, AllocationLine,
  RequestedLine, CreateReservationInput, ReservationLineResult, ReservationResult, Env,
}
use atlas_commerce.Inventory.Allocation.{
  insufficient_stock, normalize_reservation_lines, plan_allocations,
}
use atlas_commerce.Inventory.Levels.{
  list_available_for_product, reserve_available, commit_reserved, release_reserved, adjust_on_hand,
  level_exists,
}
use atlas_commerce.Inventory.Reservations.{
  create_pending, insert_line, find_by_id, list_lines, set_status, list_expired_pending,
  insert_movement,
}

-- `reservationNotFound`
abbrev pub reservation_not_found : AppError
reservation_not_found = app_error Code.reservation_not_found 404

-- `stockLevelNotFound`
abbrev pub stock_level_not_found : AppError
stock_level_not_found = app_error Code.stock_level_not_found 404

-- `stockAdjustmentWouldGoNegative`
abbrev pub stock_adjustment_negative : AppError
stock_adjustment_negative = app_error Code.stock_adjustment_negative 409

-- `reservationAlreadyReleased`
abbrev pub already_released : AppError
already_released = app_error Code.reservation_already_released 409

-- `reservationAlreadyCommitted`
abbrev pub already_committed : AppError
already_committed = app_error Code.reservation_already_committed 409

-- `emptyReservation`
abbrev pub empty_reservation : AppError
empty_reservation = app_error Code.empty_reservation 400

abbrev pub line_result : ReservationLine → ReservationLineResult
line_result l = record { product_id = l.product_id; warehouse_id = l.warehouse_id; qty = l.qty }

unfoldable pub reservation_result : Reservation → List ReservationLine → ReservationResult
reservation_result r lines = record { id = r.id; status = r.status; lines = map line_result lines }

-- A pure call that may throw, inside an action.
abbrev pub lift {ℓ κ} : {S : Type ℓ} {A : Type κ} → Result A → Action S A
lift r s = (r, s)

-- The loop over the allocations of one product; `k` counts the ids drawn so far.
unfoldable pub reserve_allocations :
    Env → ℕ → ℕ → List AllocationLine → Action InventoryDb (Unit {0})
reserve_allocations env rid k [] = pure tt
reserve_allocations env rid k (a ∷ as') = do
  updated ← reserve_available a.warehouse_id a.product_id a.qty
  or_throw updated insufficient_stock
  insert_line (record {
    id = env.new_id k;
    reservation_id = rid;
    product_id = a.product_id;
    warehouse_id = a.warehouse_id;
    qty = a.qty;
  })
  reserve_allocations env rid (suc k) as'

-- The loop over the requested lines.
unfoldable pub reserve_lines : Env → ℕ → ℕ → List RequestedLine → Action InventoryDb (Unit {0})
reserve_lines env rid k [] = pure tt
reserve_lines env rid k (l ∷ ls) = do
  candidates ← list_available_for_product l.product_id
  allocations ← lift (plan_allocations l.product_id l.qty candidates)
  reserve_allocations env rid k allocations
  reserve_lines env rid (k + length allocations) ls

-- The body of the transaction of `createReservation`.
unfoldable pub create_body : Env → ℕ → ℕ → List RequestedLine → Action InventoryDb ReservationResult
create_body env ttl_sec order_id lines = do
  reservation ← create_pending (env.new_id 0) order_id (env.clock + ttl_sec * 1000) env.db_now
  reserve_lines env reservation.id 1 lines
  created ← list_lines reservation.id
  pure (reservation_result reservation created)

abbrev pub is_empty : List RequestedLine → Bool
is_empty [] = true
is_empty (_ ∷ _) = false

-- `createReservation`
unfoldable pub create_reservation :
    Env → ℕ → CreateReservationInput → Action InventoryDb ReservationResult
create_reservation env ttl_sec input = do
  let lines = normalize_reservation_lines input.lines
  throw_if (is_empty lines) empty_reservation
  with_tx (create_body env ttl_sec input.order_id lines)

-- The loop of `commitReservation`.
unfoldable pub commit_lines : Env → ℕ → ℕ → List ReservationLine → Action InventoryDb (Unit {0})
commit_lines env rid k [] = pure tt
commit_lines env rid k (l ∷ ls) = do
  updated ← commit_reserved l.warehouse_id l.product_id l.qty
  or_throw updated insufficient_stock
  insert_movement (record {
    id = env.new_id k;
    warehouse_id = l.warehouse_id;
    product_id = l.product_id;
    delta = sub_ℕ 0 l.qty;
    reason = "reservation_commit";
    ref_type = RefType.reservation;
    ref_id = rid;
  })
  commit_lines env rid (suc k) ls

-- What `commitReservation` does by the status that it read.
unfoldable pub commit_by_status :
    Env
    → Reservation
    → List ReservationLine
    → ReservationStatus
    → ℕ
    → Action InventoryDb ReservationResult
commit_by_status env r lines ReservationStatus.committed id = pure (reservation_result r lines)
commit_by_status env r lines ReservationStatus.released id = throw already_released
commit_by_status env r lines ReservationStatus.pending id = do
  commit_lines env id 0 lines
  committed ← set_status id ReservationStatus.committed
  pure (reservation_result committed lines)

unfoldable pub commit_body : Env → ℕ → Action InventoryDb ReservationResult
commit_body env id = do
  found ← find_by_id id
  reservation ← or_throw found reservation_not_found
  lines ← list_lines id
  commit_by_status env reservation lines reservation.status id

-- `commitReservation`
unfoldable pub commit_reservation : Env → ℕ → Action InventoryDb ReservationResult
commit_reservation env id = with_tx (commit_body env id)

-- The loop of `releaseReservation`.
unfoldable pub release_lines : List ReservationLine → Action InventoryDb (Unit {0})
release_lines [] = pure tt
release_lines (l ∷ ls) = do
  updated ← release_reserved l.warehouse_id l.product_id l.qty
  or_throw updated insufficient_stock
  release_lines ls

unfoldable pub release_by_status :
    Reservation
    → List ReservationLine
    → ReservationStatus
    → ℕ
    → Action InventoryDb ReservationResult
release_by_status r lines ReservationStatus.released id = pure (reservation_result r lines)
release_by_status r lines ReservationStatus.committed id = throw already_committed
release_by_status r lines ReservationStatus.pending id = do
  release_lines lines
  released ← set_status id ReservationStatus.released
  pure (reservation_result released lines)

unfoldable pub release_body : ℕ → Action InventoryDb ReservationResult
release_body id = do
  found ← find_by_id id
  reservation ← or_throw found reservation_not_found
  lines ← list_lines id
  release_by_status reservation lines reservation.status id

-- `releaseReservation`
unfoldable pub release_reservation : ℕ → Action InventoryDb ReservationResult
release_reservation id = with_tx (release_body id)

-- The loop of `expirePendingReservations`: each release is a transaction of its own, and one that
-- throws ends the loop.
unfoldable pub release_each : ℕ → List Reservation → Action InventoryDb ℕ
release_each released [] = pure released
release_each released (r ∷ rs) = do release_reservation r.id; release_each (released + 1) rs

unfoldable pub expire_pending_reservations : Env → ℕ → Action InventoryDb ℕ
expire_pending_reservations env limit = do
  expired ← list_expired_pending env.db_now limit
  release_each 0 expired

pub record AdjustmentInput : Type 0 where
  pub warehouse_id : ℕ
  pub product_id : ℕ
  pub delta : ℤ
  pub reason : String

pub record AdjustmentResult : Type 0 where
  pub warehouse_id : ℕ
  pub product_id : ℕ
  pub on_hand : ℕ
  pub reserved : ℕ
  pub movement_id : ℕ

-- `adjust` after its UPDATE.
unfoldable pub adjusted :
    Env → AdjustmentInput → Option StockLevel → Action InventoryDb AdjustmentResult
adjusted env input none = do
  exists ← level_exists input.warehouse_id input.product_id
  throw (if exists then stock_adjustment_negative else stock_level_not_found)
adjusted env input (some updated) = do
  movement ← insert_movement (record {
    id = env.new_id 1;
    warehouse_id = input.warehouse_id;
    product_id = input.product_id;
    delta = input.delta;
    reason = input.reason;
    ref_type = RefType.adjustment;
    ref_id = env.new_id 0;
  })
  pure (record {
    warehouse_id = updated.warehouse_id;
    product_id = updated.product_id;
    on_hand = updated.on_hand;
    reserved = updated.reserved;
    movement_id = movement.id;
  })

unfoldable pub adjust_body : Env → AdjustmentInput → Action InventoryDb AdjustmentResult
adjust_body env input = do
  updated ← adjust_on_hand input.warehouse_id input.product_id input.delta
  adjusted env input updated

-- `AdjustmentService.adjust`
unfoldable pub adjust : Env → AdjustmentInput → Action InventoryDb AdjustmentResult
adjust env input = with_tx (adjust_body env input)
