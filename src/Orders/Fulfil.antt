-- ===== src/Orders/Fulfil.antt =====
-- services/orders/src: cancelOrder.ts and shipOrder.ts of domain, and jobs/shipmentProgressTick.ts.
use atlas_commerce.Prelude.{
  ℕ, suc, Bool, true, false, Option, none, some, List, [], ◌∷◌, if◌then◌else◌,
}
use atlas_commerce.Shared.Errors.{Code, AppError, app_error}
use atlas_commerce.Shared.Tx.{
  Action, ok, err, ◌>>=◌, ◌>>◌, pure, throw_if, or_throw, on_first, on_second, with_tx,
  with_first_tx,
}
use atlas_commerce.Orders.Types.{
  OrderStatus, ShipmentStatus, Order, Shipment, OrdersDb, Env, status_eq,
}
use atlas_commerce.Orders.Repository.{
  find_by_id, find_by_order_id, mark_cancelled, mark_shipped, create_shipment, order_not_found,
  list_ready_to_advance, advance_status,
}
use atlas_commerce.Orders.Clients.{Apis, release_reservation, void_intent}

-- `orderConflictError(code, …)`
abbrev pub order_conflict_error : Code → AppError
order_conflict_error c = app_error c 409

abbrev pub is_confirmed : OrderStatus → Bool
is_confirmed st = status_eq st OrderStatus.confirmed

-- `if (shipment) throw e`
abbrev pub throw_if_some {ℓ κ} :
    {S : Type ℓ} {A : Type κ} → Option A → AppError → Action S (Unit {0})
throw_if_some none e s = (ok tt, s)
throw_if_some (some _) e s = (err e, s)

-- The reads of an order before it is cancelled or shipped: the order is there, confirmed, and has no
-- shipment.
unfoldable pub confirmed_order : Code → Code → ℕ → Action OrdersDb Order
confirmed_order wrong_status has_shipment id = do
  found ← find_by_id id
  order ← or_throw found order_not_found
  throw_if (if is_confirmed order.row.status then false else true)
      (order_conflict_error wrong_status)
  shipment ← find_by_order_id id
  throw_if_some shipment (order_conflict_error has_shipment)
  pure order

module _ {R : Type 0} (apis : Apis R) where
  abbrev pub release_if : Option ℕ → Action (OrdersDb × R) (Unit {0})
  release_if none = pure tt
  release_if (some id) = on_second (release_reservation apis id)

  abbrev pub void_if : Option ℕ → Action (OrdersDb × R) (Unit {0})
  void_if none = pure tt
  void_if (some id) = on_second (void_intent apis id)

  -- `cancelOrder`: a throw rolls the orders back; what the other services did stays done.
  unfoldable pub cancel_order : Env → ℕ → Action (OrdersDb × R) Order
  cancel_order env id = with_first_tx (do
    order ← on_first (confirmed_order Code.order_not_cancellable Code.order_already_shipped id)
    release_if order.row.reservation_id
    void_if order.row.payment_intent_id
    on_first (mark_cancelled env id))

pub record ShipOrderInput : Type 0 where
  pub carrier : Option ℕ
  pub tracking_no : Option ℕ

pub record ShipOrderResult : Type 0 where
  pub order : Order
  pub shipment : Shipment

-- `a ?? b`
abbrev pub default_to : ℕ → Option ℕ → ℕ
default_to d none = d
default_to d (some a) = a

-- "Atlas Freight"
abbrev pub atlas_freight : ℕ
atlas_freight = 0

-- `shipOrder`: the first id is the shipment's, and the second makes `defaultTrackingNo()`.
unfoldable pub ship_order : Env → ℕ → ShipOrderInput → Action OrdersDb ShipOrderResult
ship_order env id input = with_tx (do
  confirmed_order Code.order_not_shippable Code.shipment_already_exists id
  shipment ← create_shipment env (record {
    id = env.new_id 0;
    order_id = id;
    carrier = default_to atlas_freight input.carrier;
    tracking_no = default_to (env.new_id 1) input.tracking_no;
  })
  shipped ← mark_shipped env id
  pure (record { order = shipped; shipment = shipment }))

-- `nextStatus`
abbrev pub next_status : ShipmentStatus → Option ShipmentStatus
next_status ShipmentStatus.preparing = some ShipmentStatus.dispatched
next_status ShipmentStatus.dispatched = some ShipmentStatus.delivered
next_status ShipmentStatus.delivered = none

abbrev pub count_updated : ℕ → Option Shipment → ℕ
count_updated n none = n
count_updated n (some _) = suc n

-- One round of the loop over the candidates, with its `continue`.
abbrev pub advance_one : Env → Shipment → Option ShipmentStatus → ℕ → Action OrdersDb ℕ
advance_one env x none n = pure n
advance_one env x (some to) n = do
  updated ← advance_status env x.id x.status to
  pure (count_updated n updated)

unfoldable pub advance_each : Env → List Shipment → ℕ → Action OrdersDb ℕ
advance_each env [] n = pure n
advance_each env (x ∷ xs) n = do
  m ← advance_one env x (next_status x.status) n
  advance_each env xs m

-- `runShipmentProgressTick`
unfoldable pub run_shipment_progress_tick : Env → Action OrdersDb ℕ
run_shipment_progress_tick env = do
  candidates ← list_ready_to_advance env
  advance_each env candidates 0
