-- ===== src/Orders/Clients.antt =====
-- services/orders/src/clients: the other services as this one calls them. An api is what the HTTP
-- endpoints do to the rest of the system `R`; a client renames what they throw.
use atlas_commerce.Prelude.{ℕ, Bool, true, false, List, ◌==◌, if◌then◌else◌}
use atlas_commerce.Shared.Errors.{Code, AppError, app_error}
use atlas_commerce.Shared.Tx.{Action, map_error}
use atlas_commerce.Shared.Retry.{with_retry}
use atlas_commerce.Orders.Types.{Tier, LineInput}

pub record Price : Type 0 where
  pub unit_price_cents : ℕ
  pub line_total_cents : ℕ

pub record IntentInput : Type 0 where
  pub order_id : ℕ
  pub amount_cents : ℕ
  pub currency : ℕ
  pub idempotency_key : ℕ

-- The endpoints that the service calls. An answer outside 2xx is an `UpstreamError`; what else the
-- transport throws is any other error.
pub record Apis (R : Type 0) : Type 0 where
  pub get_product : ℕ → Action R (Unit {0})
  pub get_price : ℕ → Tier → ℕ → ℕ → Action R Price
  pub reserve : ℕ → List LineInput → Action R ℕ
  pub commit : ℕ → Action R (Unit {0})
  pub release : ℕ → Action R (Unit {0})
  pub create_intent : IntentInput → Action R ℕ
  pub capture : ℕ → ℕ → Action R (Unit {0})
  pub void : ℕ → Action R (Unit {0})

-- `isUpstreamError`
abbrev pub is_upstream : Code → Bool
is_upstream Code.upstream = true
is_upstream _ = false

-- `logAndMapUpstream` behind `isUpstreamError`
abbrev pub map_upstream : Code → AppError → AppError
map_upstream code e = if is_upstream e.code then app_error code 502 else e

-- `insufficientStockError`
abbrev pub insufficient_stock_error : AppError
insufficient_stock_error = app_error Code.insufficient_stock 422

-- What `createReservation` of the inventory client throws for what the endpoint threw.
abbrev pub map_reservation_error : AppError → AppError
map_reservation_error e =
    if is_upstream e.code
    then if e.status == 409
      then insufficient_stock_error
      else app_error Code.inventory_reservation_upstream_error 502
    else e

abbrev pub product_not_found : AppError
product_not_found = app_error Code.product_not_found 422

-- What the catalog client throws for what an endpoint threw.
abbrev pub map_catalog_error : Code → AppError → AppError
map_catalog_error code e =
    if is_upstream e.code
    then if e.status == 404 then product_not_found else app_error code 502
    else e

module _ {R : Type 0} (apis : Apis R) where
  abbrev pub get_product : ℕ → Action R (Unit {0})
  get_product id =
      map_error (map_catalog_error Code.catalog_upstream_error)
        (with_retry 2 (λ _. true) (apis.get_product id))

  abbrev pub get_price : ℕ → Tier → ℕ → ℕ → Action R Price
  get_price id tier currency qty =
      map_error (map_catalog_error Code.catalog_price_upstream_error)
        (with_retry 2 (λ _. true) (apis.get_price id tier currency qty))

  abbrev pub create_reservation : ℕ → List LineInput → Action R ℕ
  create_reservation order lines = map_error map_reservation_error (apis.reserve order lines)

  abbrev pub commit_reservation : ℕ → Action R (Unit {0})
  commit_reservation id =
      map_error (map_upstream Code.inventory_commit_upstream_error) (apis.commit id)

  abbrev pub release_reservation : ℕ → Action R (Unit {0})
  release_reservation id =
      map_error (map_upstream Code.inventory_release_upstream_error) (apis.release id)

  abbrev pub create_intent : IntentInput → Action R ℕ
  create_intent i =
      map_error (map_upstream Code.payment_intent_upstream_error) (apis.create_intent i)

  abbrev pub capture_intent : ℕ → ℕ → Action R (Unit {0})
  capture_intent id key =
      map_error (map_upstream Code.payment_capture_upstream_error) (apis.capture id key)

  abbrev pub void_intent : ℕ → Action R (Unit {0})
  void_intent id = map_error (map_upstream Code.payment_void_upstream_error) (apis.void id)
