-- ===== src/Orders/Ship.antt =====
-- What `shipOrder` does on each branch (services/orders/src/domain/shipOrder.ts).
use atlas_commerce.Prelude.{ℕ, ◌≡◌, refl, sym, subst, ◌∙◌, inl, inr, some, [], ◌∷◌}
use atlas_commerce.Shared.Errors.{Code}
use atlas_commerce.Shared.Tx.{ok, err}
use atlas_commerce.Shared.Post.{Holds}
use atlas_commerce.Orders.Types.{OrderStatus, ShipmentStatus, OrderRow, Shipment, OrdersDb, Env}
use atlas_commerce.Orders.Repository.{
  find_order, replace_order, load_order, create_shipment, update_status, mark_shipped,
}
use atlas_commerce.Orders.Clients.{Apis}
use atlas_commerce.Orders.Rows.{update_order_hit, find_order-written, find_order-id}
use atlas_commerce.Orders.Fulfil.{
  ShipOrderInput, ShipOrderResult, default_to, atlas_freight, ship_order, cancel_order,
  order_conflict_error,
}
use atlas_commerce.Orders.Cancel.{
  IsOpenFor, confirmed_order_ok, confirmed_order_err, confirmed_order_cases,
}

module _ (env : Env) (id : ℕ) (input : ShipOrderInput) where
  abbrev shipped : OrderRow → OrderRow
  shipped r = record r { status = OrderStatus.shipped; updated_at = env.now }

  abbrev new_shipment : Shipment
  new_shipment = record {
    id = env.new_id 0;
    order_id = id;
    status = ShipmentStatus.preparing;
    carrier = default_to atlas_freight input.carrier;
    tracking_no = default_to (env.new_id 1) input.tracking_no;
    created_at = env.now;
  }

  abbrev after_shipping : OrderRow → OrdersDb → OrdersDb
  after_shipping r s = record s {
    orders = replace_order (shipped r) s.orders;
    shipments = new_shipment ∷ s.shipments;
  }

  -- The order was confirmed without a shipment; now its row is shipped and a shipment in preparation
  -- stands first in the table.
  abbrev pub ShipsOrder : OrdersDb → ShipOrderResult → OrdersDb → Type 0
  ShipsOrder s o t =
      (r : OrderRow) × IsOpenFor id r s
      × (o ≡ record { order = load_order (shipped r) s; shipment = new_shipment })
      × (t ≡ after_shipping r s)

  pub ship_order_ok :
      (r : OrderRow) (s : OrdersDb)
      → IsOpenFor id r s
      → ship_order env id input s ≡ (
        ok (record { order = load_order (shipped r) s; shipment = new_shipment }),
        after_shipping r s,
      )
  unfolding ship_order create_shipment mark_shipped update_status load_order
  ship_order_ok r s h =
      rw (confirmed_order_ok Code.order_not_shippable Code.shipment_already_exists id r s h) (
        rw
          (update_order_hit id shipped (OrderStatus.confirmed ∷ [])
            (record s { shipments = new_shipment ∷ s.shipments }) r h.0 (rw h.1 refl))
          refl)

  -- Shipping returns for exactly the confirmed orders without a shipment: then the row is shipped
  -- and the shipment is there. For any other order it throws and changes nothing.
  pub ship_order_lem :
      (s : OrdersDb)
      → Holds
          (ShipsOrder s)
          (λ _ t. (t ≡ s) × ((r : OrderRow) → ¬ IsOpenFor id r s))
          (ship_order env id input s)
  unfolding ship_order
  ship_order_lem s =
      elim (confirmed_order_cases Code.order_not_shippable Code.shipment_already_exists id s) [
        | inl (r, h, _) ↦ rw (ship_order_ok r s h) (r, h, refl, refl)
        | inr (e, eq) ↦ rw eq (
          refl,
          λ r h.
              (let both =
                  sym eq
                  ∙ confirmed_order_ok Code.order_not_shippable Code.shipment_already_exists id r s
                      h in
                cc),
        )
      ]

  -- After shipping, a second `shipOrder` is refused with `ORDER_NOT_SHIPPABLE` and `cancelOrder` with
  -- `ORDER_NOT_CANCELLABLE`, and neither changes anything, at the other services included.
  pub ship_order_once :
      {R : Type 0} (apis : Apis R) (later : Env) (again : ShipOrderInput) (s t : OrdersDb)
      (o : ShipOrderResult) (u : R)
      → ship_order env id input s ≡ (ok o, t)
      → (ship_order later id again t ≡ (err (order_conflict_error Code.order_not_shippable), t))
        × (cancel_order apis later id (t, u)
            ≡ (err (order_conflict_error Code.order_not_cancellable), (t, u)))
  unfolding ship_order cancel_order
  ship_order_once apis later again s t o u h =
      let (r, was, _, now) =
        subst (Holds (ShipsOrder s) (λ _ t. (t ≡ s) × ((r : OrderRow) → ¬ IsOpenFor id r s))) h
          (ship_order_lem s) in
      let found : find_order id t.orders ≡ some (shipped r) =
        rw now (
          find_order-written id (shipped r) r s.orders was.0 (find_order-id id s.orders r was.0)) in
      (
        rw
            ((confirmed_order_err Code.order_not_shippable Code.shipment_already_exists id
                (shipped r) t).0
              found refl)
            refl,
        rw
            ((confirmed_order_err Code.order_not_cancellable Code.order_already_shipped id
                (shipped r) t).0
              found refl)
            refl,
      )
