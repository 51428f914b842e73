-- ===== src/CrossService/Tests.antt =====
-- An order that is placed over a real inventory, and its cancellation.
use atlas_commerce.Inventory
use atlas_commerce.Orders
use atlas_commerce.Prelude.{ℕ, ◌+◌, ◌≡◌, refl, none, some, [], ◌∷◌}
use atlas_commerce.Shared.Errors.{Code, app_error}
use atlas_commerce.Shared.Tx.{ok, err}
use atlas_commerce.Prelude.Int.{negsuc}
use atlas_commerce.Inventory.Allocation.{
  normalize_reservation_lines, merge_lines, add_total, plan_allocations, allocate,
}
use atlas_commerce.Inventory.Levels.{
  list_available_for_product, available_rows, reserve_available, commit_reserved, update_level,
  find_level, replace_level,
}
use atlas_commerce.Inventory.Reservations.{
  insert_line, lines_of, list_lines, find_reservation, insert_movement, set_status, replace_status,
}
use atlas_commerce.Inventory.Service.{
  create_body, reserve_lines, reserve_allocations, reservation_result, commit_body,
  commit_by_status, commit_lines,
}
use atlas_commerce.Inventory.Types.{ReservationStatus, RefType, StockLevel, InventoryDb}
use atlas_commerce.Orders.Types.{OrderStatus, Tier, Customer, OrderRow, Order, OrdersDb, PricedLine}
use atlas_commerce.Orders.Clients.{Apis}
use atlas_commerce.Orders.Repository.{
  find_order, find_by_order_id, attach_payment_intent, items_of, load_order, mark_confirmed,
  mark_reserved, replace_order, update_order, update_status,
}
use atlas_commerce.Orders.Place.{place_created, place_body, calculate_subtotal}
use atlas_commerce.Orders.Fulfil.{cancel_order}
use atlas_commerce.CrossService.{with_inventory, cancel_order_after_place}

abbrev env : Inventory.Types.Env
env = record { clock = 5000; db_now = 5000; new_id = λ k. 900 + k }

abbrev now : Orders.Types.Env
now = record { now = 5000; new_id = λ k. 700 + k }

abbrev stock : InventoryDb
stock = record {
  warehouses = 1 ∷ [];
  levels = record { warehouse_id = 1; product_id = 7; on_hand = 10; reserved = 4 } ∷ [];
  reservations = [];
  lines = [];
  movements = [];
}

abbrev buyer : Customer
buyer = record { id = 1; tier = Tier.gold; currency = 0 }

abbrev line : PricedLine
line = record { id = 31; product_id = 7; qty = 2; unit_price_cents = 150; line_total_cents = 300 }

abbrev fresh : OrderRow
fresh = record {
  id = 20;
  customer_id = 1;
  status = OrderStatus.pending;
  currency = 0;
  subtotal_cents = 300;
  total_cents = 300;
  reservation_id = none;
  payment_intent_id = none;
  placed_at = 4000;
  updated_at = 4000;
}

abbrev orders : OrdersDb
orders = record { customers = buyer ∷ []; orders = fresh ∷ []; items = []; shipments = [] }

-- The catalog and the payments take every call; the state counts the calls.
abbrev others : Apis ℕ
others = record {
  get_product = λ _ n. (ok tt, n + 1);
  get_price =
      λ _ _ _ q n. (ok (record { unit_price_cents = 150; line_total_cents = 150 + q }), n + 1);
  reserve = λ _ _ n. (ok 0, n);
  commit = λ _ n. (ok tt, n);
  release = λ _ n. (ok tt, n);
  create_intent = λ _ n. (ok 500, n + 1);
  capture = λ _ _ n. (ok tt, n + 1);
  void = λ _ n. (ok tt, n + 1);
}

abbrev apis : Apis (InventoryDb × ℕ)
apis = with_inventory env 900 others

abbrev confirmed : Order
confirmed = record {
  row = record fresh {
    status = OrderStatus.confirmed;
    reservation_id = some 900;
    payment_intent_id = some 500;
    updated_at = 5000;
  };
  items = [];
}

abbrev placed : OrdersDb × (InventoryDb × ℕ)
placed = (
  record orders { orders = confirmed.row ∷ [] },
  (
    record {
      warehouses = 1 ∷ [];
      levels = record { warehouse_id = 1; product_id = 7; on_hand = 8; reserved = 4 } ∷ [];
      reservations =
          record {
            id = 900;
            order_id = 20;
            status = ReservationStatus.committed;
            expires_at = 905000;
            created_at = 5000;
          }
          ∷ [];
      lines =
          record { id = 901; reservation_id = 900; product_id = 7; warehouse_id = 1; qty = 2 } ∷ [];
      movements =
          record {
            id = 900;
            warehouse_id = 1;
            product_id = 7;
            delta = negsuc 1;
            reason = "reservation_commit";
            ref_type = RefType.reservation;
            ref_id = 900;
          }
          ∷ [];
    },
    2,
  ),
)

place_created_runs :
    place_created apis now 20 buyer (line ∷ []) (orders, (stock, 0)) ≡ (ok confirmed, placed)
unfolding place_created place_body atlas_commerce.Inventory.Service.create_reservation
    normalize_reservation_lines merge_lines add_total create_body
    atlas_commerce.Inventory.Reservations.create_pending reserve_lines list_available_for_product
    plan_allocations allocate available_rows reserve_allocations reserve_available update_level
    find_level insert_line replace_level lines_of list_lines reservation_result calculate_subtotal
    attach_payment_intent find_order items_of load_order mark_confirmed mark_reserved replace_order
    update_order update_status atlas_commerce.Inventory.Service.commit_reservation commit_body
    atlas_commerce.Inventory.Reservations.find_by_id find_reservation commit_by_status commit_lines
    commit_reserved insert_movement set_status replace_status
place_created_runs = refl

no_shipment : find_by_order_id 20 placed.0 ≡ (ok none, placed.0)
unfolding find_by_order_id
no_shipment = refl

cancel_order_after_place_example :
    cancel_order apis now 20 placed
    ≡ (err (app_error Code.inventory_release_upstream_error 502), placed)
unfolding find_order
cancel_order_after_place_example =
    cancel_order_after_place env 900 others now now 20 buyer (line ∷ []) (orders, (stock, 0)) placed
      confirmed (fresh, refl, refl) place_created_runs no_shipment
