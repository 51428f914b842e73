-- ===== src/CrossService.antt =====
-- The orders service (services/orders) beside the inventory service (services/inventory), which it
-- calls over HTTP. The catalog and the payments are any other services.
pub mod Tests
use atlas_commerce.Inventory
use atlas_commerce.Orders
use atlas_commerce.Prelude.{ℕ, ◌≡◌, refl, subst, Option, none, some, List, map}
use atlas_commerce.Shared.Errors.{Code, AppError, app_error, upstream_error}
use atlas_commerce.Shared.Tx.{
  Action, Result, ok, err, ◌>>=◌, ◌>>◌, pure, on_first, on_second, map_error, renamed, and_then,
}
use atlas_commerce.Shared.Post.{Ensures, Ensures-renamed}
use atlas_commerce.Inventory.Types.{
  InventoryDb, Reservation, ReservationStatus, ReservationResult, RequestedLine,
  CreateReservationInput,
}
use atlas_commerce.Inventory.Reservations.{find_reservation}
use atlas_commerce.Inventory.Service.{already_committed}
use atlas_commerce.Inventory.Repeat.{on_committed, commit_reservation-committed}
use atlas_commerce.Orders.Types.{Customer, Order, OrdersDb, LineInput, PricedLine}
use atlas_commerce.Orders.Repository.{load_order, find_by_order_id}
use atlas_commerce.Orders.Clients.{Apis}
use atlas_commerce.Orders.Place.{place_created}
use atlas_commerce.Orders.Rows.{RowIs}
use atlas_commerce.Orders.Attempt.{IsPending, IsConfirmed}
use atlas_commerce.Orders.Settled.{Settles, place_created-Settles_with}
use atlas_commerce.Orders.Fulfil.{cancel_order}
use atlas_commerce.Orders.Cancel.{confirmed_order_ok}

-- `errorHandler` answers an error with its status, and the service client throws an `UpstreamError`
-- with the status of the answer.
abbrev pub served {ℓ κ} : {S : Type ℓ} {A : Type κ} → Action S A → Action S A
served m = map_error (λ e. upstream_error e.status) m

abbrev pub requested : LineInput → RequestedLine
requested l = record { product_id = l.product_id; qty = l.qty }

-- The endpoints of the other services, with the inventory's in place.
abbrev pub with_inventory : {P : Type 0} → Inventory.Types.Env → ℕ → Apis P → Apis (InventoryDb × P)
with_inventory env ttl_sec others = record {
  get_product = λ id. on_second (others.get_product id);
  get_price = λ id tier currency qty. on_second (others.get_price id tier currency qty);
  reserve = λ order lines. served (
      on_first (
        Inventory.Service.create_reservation env ttl_sec
          (record { order_id = order; lines = map requested lines })
        >>= (λ r. pure r.id)));
  commit = λ id. served (on_first (Inventory.Service.commit_reservation env id >> pure tt));
  release = λ id. served (on_first (Inventory.Service.release_reservation id >> pure tt));
  create_intent = λ i. on_second (others.create_intent i);
  capture = λ id key. on_second (others.capture id key);
  void = λ id. on_second (others.void id);
}

-- The reservation is there and committed.
abbrev IsCommitted : {P : Type 0} → ℕ → InventoryDb × P → Type 0
IsCommitted res v =
    (r : Reservation) × (find_reservation res v.0.reservations ≡ some r)
    × (r.status ≡ ReservationStatus.committed)

module _ {P : Type 0} (env : Inventory.Types.Env) (ttl_sec : ℕ) (others : Apis P) where
  abbrev apis : Apis (InventoryDb × P)
  apis = with_inventory env ttl_sec others

  lifted :
      (res : ℕ) (other : P) (x : Result ReservationResult × InventoryDb)
      → Ensures
          (λ _ t.
            (r : Reservation) × (find_reservation res t.reservations ≡ some r)
            × (r.status ≡ ReservationStatus.committed))
          x
      → Ensures {0, 0, 0} {S = InventoryDb × P}
          (λ (_ : Unit {0}) v. IsCommitted res v)
          (
            (and_then {B = Unit {0}} x (λ _. pure tt)).0,
            ((and_then {B = Unit {0}} x (λ _. pure tt)).1, other),
          )
  lifted res other (ok a, t) h = h
  lifted res other (err e, t) h = tt

  commit-IsCommitted :
      (res : ℕ) (u : InventoryDb × P) → Ensures (λ _ v. IsCommitted res v) (apis.commit res u)
  commit-IsCommitted res u =
      Ensures-renamed (λ _ v. IsCommitted res v) (λ e. upstream_error e.status) _
        (lifted res u.1 (Inventory.Service.commit_reservation env res u.0)
          (commit_reservation-committed env res u.0))

  -- After a pending order was placed and while it has no shipment, cancelling it fails with
  -- `INVENTORY_RELEASE_UPSTREAM_ERROR` and changes nothing, whatever the catalog and the payments do:
  -- placing committed the reservation, and the inventory refuses to release it.
  pub cancel_order_after_place :
      (now later : Orders.Types.Env) (id : ℕ) (c : Customer) (lines : List PricedLine)
      (w w' : OrdersDb × (InventoryDb × P)) (o : Order)
      → RowIs id IsPending w.0
      → place_created apis now id c lines w ≡ (ok o, w')
      → find_by_order_id id w'.0 ≡ (ok none, w'.0)
      → cancel_order apis later id w'
        ≡ (err (app_error Code.inventory_release_upstream_error 502), w')
  unfolding cancel_order load_order
  cancel_order_after_place now later id c lines w w' o pending placed free =
      let (row, _) =
        subst (Settles id IsCommitted) placed (
          place_created-Settles_with id IsCommitted apis now c lines w commit-IsCommitted
            pending) in
      let (r, found, (was, (res, reserved, (x, there, is)), _)) = row in
      rw
        (confirmed_order_ok Code.order_not_cancellable Code.order_already_shipped id r w'.0
          (found, was, free))
        (rw reserved (rw (on_committed env res x w'.1.0 there is).1 refl))
