-- ===== src/Orders/Types.antt =====
-- services/orders/src/domain/models.ts, placeOrderTypes.ts and repositories/rowTypes.ts. A uuid is
-- a number, and so are the other texts that the service only stores.
use atlas_commerce.Prelude.{ℕ, Bool, List, [], ◌∷◌, Option, ◌==◌, ◌||◌, false}

pub data OrderStatus : Type 0 where
  pending reserved confirmed shipped cancelled failed : OrderStatus

pub data ShipmentStatus : Type 0 where
  preparing dispatched delivered : ShipmentStatus

pub data Tier : Type 0 where
  standard gold platinum : Tier

pub record Customer : Type 0 where
  pub id : ℕ
  pub tier : Tier
  pub currency : ℕ

pub record OrderItem : Type 0 where
  pub id : ℕ
  pub order_id : ℕ
  pub product_id : ℕ
  pub qty : ℕ
  pub unit_price_cents : ℕ
  pub line_total_cents : ℕ

-- A row of `orders`.
pub record OrderRow : Type 0 where
  pub id : ℕ
  pub customer_id : ℕ
  pub status : OrderStatus
  pub currency : ℕ
  pub subtotal_cents : ℕ
  pub total_cents : ℕ
  pub reservation_id : Option ℕ
  pub payment_intent_id : Option ℕ
  pub placed_at : ℕ
  pub updated_at : ℕ

-- The domain's order: a row with its items.
pub record Order : Type 0 where
  pub row : OrderRow
  pub open row use *
  pub items : List OrderItem

pub record Shipment : Type 0 where
  pub id : ℕ
  pub order_id : ℕ
  pub status : ShipmentStatus
  pub carrier : ℕ
  pub tracking_no : ℕ
  pub created_at : ℕ

pub record OrdersDb : Type 0 where
  pub customers : List Customer
  pub orders : List OrderRow
  pub items : List OrderItem
  pub shipments : List Shipment

pub record LineInput : Type 0 where
  pub product_id : ℕ
  pub qty : ℕ

pub record PlaceOrderInput : Type 0 where
  pub customer_id : ℕ
  pub lines : List LineInput

-- `MaterializedOrderLine`
pub record PricedLine : Type 0 where
  pub id : ℕ
  pub product_id : ℕ
  pub qty : ℕ
  pub unit_price_cents : ℕ
  pub line_total_cents : ℕ

-- The database's now() and the values of successive calls of randomUUID().
pub record Env : Type 0 where
  pub now : ℕ
  pub new_id : ℕ → ℕ

abbrev pub rank : OrderStatus → ℕ
rank OrderStatus.pending = 0
rank OrderStatus.reserved = 1
rank OrderStatus.confirmed = 2
rank OrderStatus.shipped = 3
rank OrderStatus.cancelled = 4
rank OrderStatus.failed = 5

-- `a === b`
abbrev pub status_eq : OrderStatus → OrderStatus → Bool
status_eq a b = rank a == rank b

-- `status in (…)`
abbrev pub is_in : OrderStatus → List OrderStatus → Bool
is_in a [] = false
is_in a (b ∷ bs) = status_eq a b || is_in a bs

abbrev pub shipment_rank : ShipmentStatus → ℕ
shipment_rank ShipmentStatus.preparing = 0
shipment_rank ShipmentStatus.dispatched = 1
shipment_rank ShipmentStatus.delivered = 2
