-- ===== src/Orders/Repository.antt =====
-- services/orders/src/repositories: orderRepository.ts, shipmentRepository.ts, mapRows.ts and
-- customerRepository.ts. The primary keys make the tables maps from an id to a row.
use atlas_commerce.Prelude.{
  ℕ, ◌+◌, Bool, ◌&&◌, ◌||◌, Option, none, some, List, [], ◌∷◌, ◌++◌, map, leb, ◌==◌, if◌then◌else◌,
  keep_if, sort_by, first, take,
}
use atlas_commerce.Shared.Errors.{Code, AppError, app_error}
use atlas_commerce.Shared.Tx.{Action, ok, err, ◌>>=◌, or_throw}
use atlas_commerce.Orders.Types.{
  OrderStatus, ShipmentStatus, Customer, OrderItem, OrderRow, Order, Shipment, OrdersDb, PricedLine,
  Env, is_in, shipment_rank,
}

abbrev pub order_not_found : AppError
order_not_found = app_error Code.order_not_found 404

abbrev pub order_status_conflict : AppError
order_status_conflict = app_error Code.order_status_conflict 409

unfoldable pub find_order : ℕ → List OrderRow → Option OrderRow
find_order id [] = none
find_order id (r ∷ rs) = if r.id == id then some r else find_order id rs

unfoldable pub replace_order : OrderRow → List OrderRow → List OrderRow
replace_order r [] = []
replace_order r (x ∷ xs) = if x.id == r.id then r ∷ xs else x ∷ replace_order r xs

abbrev pub item_order : OrderItem → OrderItem → Bool
item_order a b = leb a.id b.id

-- `loadItems`
unfoldable pub items_of : ℕ → List OrderItem → List OrderItem
items_of id items = sort_by item_order (keep_if (λ i. i.order_id == id) items)

-- `loadOrderFromRow`
unfoldable pub load_order : OrderRow → OrdersDb → Order
load_order r s = record { row = r; items = items_of r.id s.items }

-- `findById`, `findByIdForUpdate`
unfoldable pub find_by_id : ℕ → Action OrdersDb (Option Order)
find_by_id id s =
    (ok (elim (find_order id s.orders) [ none ↦ none | some r ↦ some (load_order r s) ]), s)

-- `findByIdOrThrow`
unfoldable pub find_by_id_or_throw : ℕ → Action OrdersDb Order
find_by_id_or_throw id = do found ← find_by_id id; or_throw found order_not_found

-- UPDATE orders SET … WHERE id = $1 AND status IN (…) RETURNING the row, or the conflict.
abbrev pub updated_order :
    (OrderRow → OrderRow) → List OrderStatus → Option OrderRow → Action OrdersDb Order
updated_order f allowed none s = (err order_status_conflict, s)
updated_order f allowed (some r) s =
    if is_in r.status allowed
    then (ok (load_order (f r) s), record s { orders = replace_order (f r) s.orders })
    else (err order_status_conflict, s)

unfoldable pub update_order : ℕ → (OrderRow → OrderRow) → List OrderStatus → Action OrdersDb Order
update_order id f allowed s = updated_order f allowed (find_order id s.orders) s

-- `updateStatus`
unfoldable pub update_status : Env → ℕ → OrderStatus → List OrderStatus → Action OrdersDb Order
update_status env id next allowed =
    update_order id (λ r. record r { status = next; updated_at = env.now }) allowed

-- `markReserved`: with the extra assignment of the reservation.
unfoldable pub mark_reserved : Env → ℕ → ℕ → Action OrdersDb Order
mark_reserved env id reservation =
    update_order id
      (λ r. record r {
        status = OrderStatus.reserved;
        updated_at = env.now;
        reservation_id = some reservation;
      })
      (OrderStatus.pending ∷ [])

unfoldable pub attach_payment_intent : Env → ℕ → ℕ → Action OrdersDb Order
attach_payment_intent env id intent =
    update_order id (λ r. record r { payment_intent_id = some intent; updated_at = env.now })
      (OrderStatus.reserved ∷ [])

unfoldable pub mark_confirmed : Env → ℕ → Action OrdersDb Order
mark_confirmed env id = update_status env id OrderStatus.confirmed (OrderStatus.reserved ∷ [])

unfoldable pub mark_failed : Env → ℕ → Action OrdersDb Order
mark_failed env id =
    update_status env id OrderStatus.failed (OrderStatus.pending ∷ OrderStatus.reserved ∷ [])

unfoldable pub mark_cancelled : Env → ℕ → Action OrdersDb Order
mark_cancelled env id = update_status env id OrderStatus.cancelled (OrderStatus.confirmed ∷ [])

unfoldable pub mark_shipped : Env → ℕ → Action OrdersDb Order
mark_shipped env id = update_status env id OrderStatus.shipped (OrderStatus.confirmed ∷ [])

abbrev pub item_of : ℕ → PricedLine → OrderItem
item_of order l = record {
  id = l.id;
  order_id = order;
  product_id = l.product_id;
  qty = l.qty;
  unit_price_cents = l.unit_price_cents;
  line_total_cents = l.line_total_cents;
}

pub record CreateOrderInput : Type 0 where
  pub id : ℕ
  pub customer_id : ℕ
  pub currency : ℕ
  pub subtotal_cents : ℕ
  pub total_cents : ℕ
  pub items : List PricedLine

-- `createPending`: the row and its items in one transaction, then a SELECT.
unfoldable pub create_pending : Env → CreateOrderInput → Action OrdersDb Order
create_pending env i s = find_by_id_or_throw i.id (record s {
  orders =
      record {
        id = i.id;
        customer_id = i.customer_id;
        status = OrderStatus.pending;
        currency = i.currency;
        subtotal_cents = i.subtotal_cents;
        total_cents = i.total_cents;
        reservation_id = none;
        payment_intent_id = none;
        placed_at = env.now;
        updated_at = env.now;
      }
      ∷ s.orders;
  items = map (item_of i.id) i.items ++ s.items;
})

unfoldable pub find_customer : ℕ → List Customer → Option Customer
find_customer id [] = none
find_customer id (c ∷ cs) = if c.id == id then some c else find_customer id cs

-- ORDER BY created_at DESC
abbrev pub newest_first : Shipment → Shipment → Bool
newest_first a b = leb b.created_at a.created_at

-- `findByOrderId`, `findByOrderIdForUpdate`
unfoldable pub find_by_order_id : ℕ → Action OrdersDb (Option Shipment)
find_by_order_id order s =
    (ok (first (sort_by newest_first (keep_if (λ x. x.order_id == order) s.shipments))), s)

pub record CreateShipmentInput : Type 0 where
  pub id : ℕ
  pub order_id : ℕ
  pub carrier : ℕ
  pub tracking_no : ℕ

-- `create` of the shipments
unfoldable pub create_shipment : Env → CreateShipmentInput → Action OrdersDb Shipment
create_shipment env i s =
    let x : Shipment = record {
      id = i.id;
      order_id = i.order_id;
      status = ShipmentStatus.preparing;
      carrier = i.carrier;
      tracking_no = i.tracking_no;
      created_at = env.now;
    } in
    (ok x, record s { shipments = x ∷ s.shipments })

-- `(preparing and created 2 s ago) or (dispatched and created 8 s ago)`, in milliseconds
abbrev pub is_ready : ℕ → Shipment → Bool
is_ready now x =
    (shipment_rank x.status == 0 && leb (x.created_at + 2000) now)
    || (shipment_rank x.status == 1 && leb (x.created_at + 8000) now)

abbrev pub oldest_first : Shipment → Shipment → Bool
oldest_first a b = leb a.created_at b.created_at

-- `listReadyToAdvance`
unfoldable pub list_ready_to_advance : Env → Action OrdersDb (List Shipment)
list_ready_to_advance env s =
    (ok (take 50 (sort_by oldest_first (keep_if (is_ready env.now) s.shipments))), s)

unfoldable pub find_shipment : ℕ → List Shipment → Option Shipment
find_shipment id [] = none
find_shipment id (x ∷ xs) = if x.id == id then some x else find_shipment id xs

unfoldable pub replace_shipment : Shipment → List Shipment → List Shipment
replace_shipment r [] = []
replace_shipment r (x ∷ xs) = if x.id == r.id then r ∷ xs else x ∷ replace_shipment r xs

abbrev pub advanced_shipment :
    Env → ShipmentStatus → ShipmentStatus → Option Shipment → Action OrdersDb (Option Shipment)
advanced_shipment env from to none s = (ok none, s)
advanced_shipment env from to (some x) s =
    if shipment_rank x.status == shipment_rank from
    then (let y : Shipment = record x { status = to; created_at = env.now } in
        (ok (some y), record s { shipments = replace_shipment y s.shipments }))
    else (ok none, s)

-- `advanceStatus`
unfoldable pub advance_status :
    Env → ℕ → ShipmentStatus → ShipmentStatus → Action OrdersDb (Option Shipment)
advance_status env id from to s = advanced_shipment env from to (find_shipment id s.shipments) s
