-- ===== src/Inventory/Types.antt =====
-- services/inventory/src/repositories/repositoryTypes.ts and src/domain/*Types.ts: the rows of the
-- schema `inventory` and the values that the services take and return. A uuid is a number.
use atlas_commerce.Prelude.{ℕ, String, List, Bool, true, false}
use atlas_commerce.Prelude.Int.{ℤ}

-- A row of `stock_levels`; its primary key is the pair of the first two columns.
pub record StockLevel : Type 0 where
  pub warehouse_id : ℕ
  pub product_id : ℕ
  pub on_hand : ℕ
  pub reserved : ℕ

pub data ReservationStatus : Type 0 where
  pending committed released : ReservationStatus

pub record Reservation : Type 0 where
  pub id : ℕ
  pub order_id : ℕ
  pub status : ReservationStatus
  pub expires_at : ℕ
  pub created_at : ℕ

pub record ReservationLine : Type 0 where
  pub id : ℕ
  pub reservation_id : ℕ
  pub product_id : ℕ
  pub warehouse_id : ℕ
  pub qty : ℕ

pub data RefType : Type 0 where
  reservation adjustment transfer cycle_count : RefType

pub record Movement : Type 0 where
  pub id : ℕ
  pub warehouse_id : ℕ
  pub product_id : ℕ
  pub delta : ℤ
  pub reason : String
  pub ref_type : RefType
  pub ref_id : ℕ

-- The tables that the service writes.
-- The tables of the service; of a warehouse the model keeps the id, which foreign keys refer to.
pub record InventoryDb : Type 0 where
  pub warehouses : List ℕ
  pub levels : List StockLevel
  pub reservations : List Reservation
  pub lines : List ReservationLine
  pub movements : List Movement

pub record AllocationCandidate : Type 0 where
  pub warehouse_id : ℕ
  pub product_id : ℕ
  pub available : ℕ

pub record AllocationLine : Type 0 where
  pub warehouse_id : ℕ
  pub product_id : ℕ
  pub qty : ℕ

pub record RequestedLine : Type 0 where
  pub product_id : ℕ
  pub qty : ℕ

pub record CreateReservationInput : Type 0 where
  pub order_id : ℕ
  pub lines : List RequestedLine

pub record ReservationLineResult : Type 0 where
  pub product_id : ℕ
  pub warehouse_id : ℕ
  pub qty : ℕ

pub record ReservationResult : Type 0 where
  pub id : ℕ
  pub status : ReservationStatus
  pub lines : List ReservationLineResult

-- What a call takes from its surroundings: the service's clock, the database's now(), both in
-- milliseconds, and the values that successive calls of the id generator return.
pub record Env : Type 0 where
  pub clock : ℕ
  pub db_now : ℕ
  pub new_id : ℕ → ℕ

abbrev pub is_pending : ReservationStatus → Bool
is_pending ReservationStatus.pending = true
is_pending ReservationStatus.committed = false
is_pending ReservationStatus.released = false
