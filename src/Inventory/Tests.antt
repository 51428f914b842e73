-- ===== src/Inventory/Tests.antt =====
-- Two warehouses with a pending and a committed reservation, runs on them, and the theorems at them.
use atlas_commerce.Prelude.{
  ℕ, ◌+◌, ◌≤◌, ◌<◌, ◌≡◌, min, refl, ◌⊎◌, some, length, List, [], ◌∷◌, arith, All, sum_by, keep_if,
  ◌==◌, if◌then◌else◌, ◌&&◌,
}
use atlas_commerce.Prelude.Int.{negsuc}
use atlas_commerce.Shared.Tx.{ok, err}
use atlas_commerce.Inventory.Types.{
  StockLevel, Reservation, ReservationStatus, ReservationLine, InventoryDb, AllocationCandidate,
  AllocationLine, CreateReservationInput, ReservationResult, Env,
}
use atlas_commerce.Inventory.Allocation.{
  normalize_reservation_lines, allocate, plan_allocations, is_candidate,
}
use atlas_commerce.Inventory.Levels.{commit_reserved, release_reserved, update_level, find_level}
use atlas_commerce.Inventory.Reservations.{
  insert_movement, set_status, find_reservation, find_by_id, list_lines, lines_of,
}
use atlas_commerce.Inventory.Service.{
  commit_lines, release_lines, reservation_result, commit_body, commit_by_status, release_body,
  release_by_status, create_reservation, commit_reservation, release_reservation,
  expire_pending_reservations, AdjustmentInput, AdjustmentResult, adjust, already_committed,
}
use atlas_commerce.Inventory.Operations.{
  TransferStockInput, TransferStockResult, transfer_stock, CycleCountInput,
}
use atlas_commerce.Inventory.Accounts.{reserved_at, on_hand_at, qty_at, held, IsUnused, StockInv}
use atlas_commerce.Inventory.Plan.{
  qty_of, alloc_at, available_at, IsPart, requested_of, Ascending, plan_allocations_fills,
  normalize_reservation_lines_lem,
}
use atlas_commerce.Inventory.Reserve.{create_reservation-StockInv}
use atlas_commerce.Inventory.Settle.{commit_reservation-StockInv, release_reservation-StockInv}
use atlas_commerce.Inventory.Lifecycle.{IsPositive, commit_reservation-pending}
use atlas_commerce.Inventory.Expiry.{expire_pending_reservations_lem}
use atlas_commerce.Inventory.Releases.{Due, is_due, released_row, IsKeyed}
use atlas_commerce.Inventory.Repeat.{commit_reservation_once}
use atlas_commerce.Inventory.Adjust.{adjust_overdraws}
use atlas_commerce.Inventory.Transfer.{transfer_stock_lem, transfer_overdraws}

abbrev env : Env
env = record { clock = 5000; db_now = 5000; new_id = λ k. 900 + k }

abbrev north : StockLevel
north = record { warehouse_id = 1; product_id = 7; on_hand = 10; reserved = 4 }

abbrev south : StockLevel
south = record { warehouse_id = 2; product_id = 7; on_hand = 5; reserved = 0 }

abbrev waiting : Reservation
waiting = record {
  id = 100;
  order_id = 50;
  status = ReservationStatus.pending;
  expires_at = 4000;
  created_at = 1000;
}

abbrev waiting_line : ReservationLine
waiting_line = record { id = 200; reservation_id = 100; product_id = 7; warehouse_id = 1; qty = 4 }

abbrev db : InventoryDb
db = record {
  warehouses = 1 ∷ 2 ∷ [];
  levels = north ∷ south ∷ [];
  reservations = waiting ∷ [];
  lines = waiting_line ∷ [];
  movements = [];
}

abbrev order : CreateReservationInput
order = record {
  order_id = 51;
  lines = record { product_id = 7; qty = 3 } ∷ record { product_id = 7; qty = 5 } ∷ [];
}

db-StockInv : StockInv db
unfolding find_level held find_reservation
db-StockInv = record { balanced = λ w p. ground arith; within = λ w p. ground arith }

db-IsPositive : All IsPositive db.lines
db-IsPositive = ground arith

db-IsUnused : IsUnused 900 db
unfolding find_reservation
db-IsUnused = (refl, ground arith)

create_reservation-StockInv_example : StockInv (create_reservation env 900 order db).1
create_reservation-StockInv_example =
    create_reservation-StockInv env 900 order db db-IsUnused db-StockInv

commit_reservation-StockInv_example : StockInv (commit_reservation env 100 db).1
commit_reservation-StockInv_example = commit_reservation-StockInv env 100 db db-StockInv

release_reservation-StockInv_example : StockInv (release_reservation 100 db).1
release_reservation-StockInv_example = release_reservation-StockInv 100 db db-StockInv

db-IsKeyed : IsKeyed db.reservations
unfolding find_reservation
db-IsKeyed = (refl, tt)

expire_pending_reservations_lem_example :
    (n : ℕ) × (t : InventoryDb) × (expire_pending_reservations env 50 db ≡ (ok n, t))
    × (n ≡ min 50 (length (keep_if (is_due 5000) db.reservations)))
    × StockInv t
    × ((id : ℕ) (r : Reservation)
        → find_reservation id db.reservations ≡ some r
        → (find_reservation id t.reservations ≡ some r)
          ⊎ (Due 5000 r × (find_reservation id t.reservations ≡ some (released_row r))))
    × (length (keep_if (is_due 5000) db.reservations) ≤ 50
        → (id : ℕ) (r : Reservation) → find_reservation id db.reservations ≡ some r
        → Due 5000 r
        → find_reservation id t.reservations ≡ some (released_row r))
expire_pending_reservations_lem_example =
    expire_pending_reservations_lem env 50 db db-StockInv db-IsPositive db-IsKeyed

commit_reservation-pending_example :
    (t : InventoryDb) × (commit_reservation env 100 db ≡ (
      ok (
          reservation_result
            (record waiting { status = ReservationStatus.committed })
            (lines_of 100 db.lines)),
      t,
    ))
    × ((w p : ℕ)
        → (reserved_at w p t + qty_at w p (lines_of 100 db.lines) ≡ reserved_at w p db)
          × (on_hand_at w p t + qty_at w p (lines_of 100 db.lines) ≡ on_hand_at w p db))
unfolding find_reservation
commit_reservation-pending_example =
    commit_reservation-pending env 100 waiting db db-StockInv db-IsPositive refl refl

abbrev shown : ReservationStatus → ReservationResult
shown st = record {
  id = 100;
  status = st;
  lines = record { product_id = 7; warehouse_id = 1; qty = 4 } ∷ [];
}

abbrev committed_db : InventoryDb
committed_db = (commit_reservation env 100 db).1

abbrev released_db : InventoryDb
released_db = (release_reservation 100 db).1

commit_reservation_runs :
    commit_reservation env 100 db ≡ (ok (shown ReservationStatus.committed), committed_db)
unfolding commit_reservation commit_body find_by_id find_reservation list_lines commit_by_status
    commit_lines lines_of commit_reserved update_level find_level insert_movement set_status
    reservation_result
commit_reservation_runs = refl

commit_reservation_once_example :
    (commit_reservation env 100 committed_db
      ≡ (ok (shown ReservationStatus.committed), committed_db))
    × (release_reservation 100 committed_db ≡ (err already_committed, committed_db))
commit_reservation_once_example =
    commit_reservation_once env env 100 db committed_db (shown ReservationStatus.committed)
      commit_reservation_runs

release_reservation_runs :
    release_reservation 100 db ≡ (ok (shown ReservationStatus.released), released_db)
unfolding release_reservation release_body find_by_id find_reservation list_lines release_by_status
    release_lines lines_of release_reserved update_level find_level set_status reservation_result
release_reservation_runs = refl

abbrev candidates : List AllocationCandidate
candidates =
    record { warehouse_id = 1; product_id = 7; available = 6 }
    ∷ record { warehouse_id = 2; product_id = 7; available = 5 }
    ∷ []

abbrev plan : List AllocationLine
plan =
    record { warehouse_id = 1; product_id = 7; qty = 6 }
    ∷ record { warehouse_id = 2; product_id = 7; qty = 2 }
    ∷ []

plan_allocations-candidates : plan_allocations 7 8 candidates ≡ ok plan
unfolding plan_allocations allocate
plan_allocations-candidates = refl

plan_allocations_fills_example :
    (lines : List AllocationLine) × (plan_allocations 7 8 candidates ≡ ok lines)
    × (sum_by qty_of lines ≡ 8)
    × All (IsPart 7) lines
    × ((w : ℕ)
        → sum_by (alloc_at w) lines ≤ sum_by (available_at w) (keep_if (is_candidate 7) candidates))
plan_allocations_fills_example = plan_allocations_fills 7 8 candidates (omega arith)

normalize_reservation_lines_lem_example :
    ((p : ℕ)
      → sum_by (requested_of p) (normalize_reservation_lines order.lines)
        ≡ sum_by (requested_of p) order.lines)
    × Ascending (normalize_reservation_lines order.lines)
normalize_reservation_lines_lem_example = normalize_reservation_lines_lem order.lines

abbrev loss : AdjustmentInput
loss = record { warehouse_id = 1; product_id = 7; delta = negsuc 7; reason = "damaged" }

abbrev ruin : AdjustmentInput
ruin = record loss { delta = negsuc 10 }

abbrev small_loss : AdjustmentInput
small_loss = record loss { delta = negsuc 0 }

adjust_overdraws_example :
    (res : AdjustmentResult) × (t : InventoryDb) × (adjust env loss db ≡ (ok res, t))
    × (on_hand_at 1 7 t < reserved_at 1 7 t)
unfolding find_level
adjust_overdraws_example = adjust_overdraws env loss db north refl (omega arith) (omega arith)

abbrev move : TransferStockInput
move = record {
  transfer_id = 300;
  source_warehouse_id = 1;
  destination_warehouse_id = 2;
  product_id = 7;
  qty = 8;
  reason = "rebalance";
}

transfer_stock_lem_example :
    (res : TransferStockResult) × (t : InventoryDb) × (transfer_stock move 901 902 db ≡ (ok res, t))
    × ((w p : ℕ)
        → (reserved_at w p t ≡ reserved_at w p db)
          × (on_hand_at w p t + (if 1 == w && 7 == p then 8 else 0)
              ≡ on_hand_at w p db + (if 2 == w && 7 == p then 8 else 0)))
unfolding find_level
transfer_stock_lem_example =
    transfer_stock_lem move 901 902 db north refl (omega arith) (omega arith) refl

transfer_overdraws_example :
    (res : TransferStockResult) × (t : InventoryDb) × (transfer_stock move 901 902 db ≡ (ok res, t))
    × (on_hand_at 1 7 t < reserved_at 1 7 t)
unfolding find_level
transfer_overdraws_example =
    transfer_overdraws move 901 902 db north refl (omega arith) (omega arith) refl (omega arith)

abbrev count : CycleCountInput
count = record {
  cycle_count_id = 400;
  warehouse_id = 1;
  product_id = 7;
  counted_on_hand = 9;
  counted_by = "auditor";
  reason = "yearly";
}
