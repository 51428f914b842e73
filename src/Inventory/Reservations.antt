-- ===== src/Inventory/Reservations.antt =====
-- services/inventory/src/repositories/reservationsRepository.ts and movementsRepository.ts.
use atlas_commerce.Prelude.{
  ℕ, Bool, ◌&&◌, ◌||◌, Option, none, some, List, [], ◌∷◌, ltb, leb, ◌==◌, if◌then◌else◌, keep_if,
  sort_by, take,
}
use atlas_commerce.Shared.Errors.{internal_error}
use atlas_commerce.Shared.Tx.{Action, ok, err, gets}
use atlas_commerce.Inventory.Types.{
  Reservation, ReservationStatus, ReservationLine, Movement, InventoryDb, is_pending,
}

unfoldable pub find_reservation : ℕ → List Reservation → Option Reservation
find_reservation id [] = none
find_reservation id (r ∷ rs) = if r.id == id then some r else find_reservation id rs

unfoldable pub replace_status : ℕ → ReservationStatus → List Reservation → List Reservation
replace_status id st [] = []
replace_status id st (r ∷ rs) =
    if r.id == id then record r { status = st } ∷ rs else r ∷ replace_status id st rs

-- The INSERT of a reservation, with the row that has its id: a used id breaks the primary key, and that
-- error is no AppError.
abbrev pub inserted : Reservation → Option Reservation → Action InventoryDb Reservation
inserted r none s = (ok r, record s { reservations = r ∷ s.reservations })
inserted r (some old) s = (err internal_error, s)

-- `createPending`
unfoldable pub create_pending : ℕ → ℕ → ℕ → ℕ → Action InventoryDb Reservation
create_pending id order_id expires_at now s =
    let r : Reservation = record {
      id = id;
      order_id = order_id;
      status = ReservationStatus.pending;
      expires_at = expires_at;
      created_at = now;
    } in
    inserted r (find_reservation id s.reservations) s

-- `insertLine`
unfoldable pub insert_line : ReservationLine → Action InventoryDb ReservationLine
insert_line l s = (ok l, record s { lines = l ∷ s.lines })

-- `findByIdForUpdate`, `findById`
unfoldable pub find_by_id : ℕ → Action InventoryDb (Option Reservation)
find_by_id id = gets λ s. find_reservation id s.reservations

-- ORDER BY product_id, warehouse_id, id
abbrev pub line_order : ReservationLine → ReservationLine → Bool
line_order a b =
    ltb a.product_id b.product_id
    || (a.product_id == b.product_id
        && (ltb a.warehouse_id b.warehouse_id
            || (a.warehouse_id == b.warehouse_id && leb a.id b.id)))

unfoldable pub lines_of : ℕ → List ReservationLine → List ReservationLine
lines_of id lines = sort_by line_order (keep_if (λ l. l.reservation_id == id) lines)

-- `listLines`
unfoldable pub list_lines : ℕ → Action InventoryDb (List ReservationLine)
list_lines id = gets λ s. lines_of id s.lines

-- `setStatus`; that no row came back shows only in the TypeError of its reader.
abbrev pub updated_row : Option Reservation → ReservationStatus → ℕ → Action InventoryDb Reservation
updated_row none st id s = (err internal_error, s)
updated_row (some r) st id s =
    (ok (record r { status = st }), record s { reservations = replace_status id st s.reservations })

unfoldable pub set_status : ℕ → ReservationStatus → Action InventoryDb Reservation
set_status id st s = updated_row (find_reservation id s.reservations) st id s

-- ORDER BY expires_at, id
abbrev pub expiry_order : Reservation → Reservation → Bool
expiry_order a b = ltb a.expires_at b.expires_at || (a.expires_at == b.expires_at && leb a.id b.id)

-- `listExpiredPending`
unfoldable pub list_expired_pending : ℕ → ℕ → Action InventoryDb (List Reservation)
list_expired_pending now limit = gets λ s. take limit (
    sort_by expiry_order
      (keep_if (λ r. is_pending r.status && leb r.expires_at now) s.reservations))

-- `MovementsRepository.insert`
unfoldable pub insert_movement : Movement → Action InventoryDb Movement
insert_movement m s = (ok m, record s { movements = m ∷ s.movements })
