-- ===== src/Orders/Tests.antt =====
-- A confirmed order and services that always answer, runs on them, and the theorems at them.
use atlas_commerce.Prelude.{ℕ, ◌+◌, ◌≡◌, refl, none, some, [], ◌∷◌}
use atlas_commerce.Shared.Tx.{ok}
use atlas_commerce.Shared.Post.{Holds}
use atlas_commerce.Orders.Types.{
  PlaceOrderInput, OrderStatus, ShipmentStatus, Tier, Customer, OrderRow, Shipment, OrdersDb,
  PricedLine, Env,
}
use atlas_commerce.Orders.Repository.{
  update_status, update_order, find_by_order_id, mark_shipped, find_by_id, items_of,
  create_shipment, find_order, load_order,
}
use atlas_commerce.Orders.Clients.{Apis}
use atlas_commerce.Orders.Placed.{Places, place_order-Places}
use atlas_commerce.Orders.Place.{place_order}
use atlas_commerce.Orders.Fulfil.{
  confirmed_order, ShipOrderInput, ShipOrderResult, ship_order, cancel_order,
  run_shipment_progress_tick,
}
use atlas_commerce.Orders.Cancel.{IsOpenFor, Cancels, cancel_order_lem}
use atlas_commerce.Orders.Ship.{ShipsOrder, ship_order_lem}
use atlas_commerce.Orders.Export.{Text, OrderExportItem, csv_header, to_csv, item_cells}
use atlas_commerce.Orders.Csv.{IsPlain, Mode, read_csv, to_csv_reads}
use atlas_commerce.Orders.Progress.{Advances, run_shipment_progress_tick-Advances}

abbrev env : Env
env = record { now = 90000; new_id = λ k. 700 + k }

abbrev buyer : Customer
buyer = record { id = 1; tier = Tier.gold; currency = 0 }

abbrev line : PricedLine
line = record { id = 31; product_id = 7; qty = 2; unit_price_cents = 150; line_total_cents = 300 }

abbrev fresh : OrderRow
fresh = record {
  id = 20;
  customer_id = 1;
  status = OrderStatus.pending;
  currency = 0;
  subtotal_cents = 300;
  total_cents = 300;
  reservation_id = none;
  payment_intent_id = none;
  placed_at = 80000;
  updated_at = 80000;
}

abbrev paid : OrderRow
paid = record fresh {
  id = 21;
  status = OrderStatus.confirmed;
  reservation_id = some 100;
  payment_intent_id = some 500;
}

abbrev parcel : Shipment
parcel = record {
  id = 60;
  order_id = 19;
  status = ShipmentStatus.preparing;
  carrier = 0;
  tracking_no = 4;
  created_at = 80000;
}

abbrev db : OrdersDb
db = record {
  customers = buyer ∷ [];
  orders = fresh ∷ paid ∷ [];
  items = [];
  shipments = parcel ∷ [];
}

-- Services that take every call; the state counts the calls.
abbrev willing : Apis ℕ
willing = record {
  get_product = λ _ n. (ok tt, n + 1);
  get_price =
      λ _ _ _ q n. (ok (record { unit_price_cents = 150; line_total_cents = 150 + q }), n + 1);
  reserve = λ _ _ n. (ok 100, n + 1);
  commit = λ _ n. (ok tt, n + 1);
  release = λ _ n. (ok tt, n + 1);
  create_intent = λ _ n. (ok 500, n + 1);
  capture = λ _ _ n. (ok tt, n + 1);
  void = λ _ n. (ok tt, n + 1);
}

cancel_order_lem_example :
    Holds (Cancels willing env 21 (db, 0)) (λ _ u. u.0 ≡ db) (cancel_order willing env 21 (db, 0))
cancel_order_lem_example = cancel_order_lem willing env 21 (db, 0)

abbrev by_default : ShipOrderInput
by_default = record { carrier = none; tracking_no = some 9 }

ship_order_lem_example :
    Holds
      (ShipsOrder env 21 by_default db)
      (λ _ t. (t ≡ db) × ((r : OrderRow) → ¬ IsOpenFor 21 r db))
      (ship_order env 21 by_default db)
ship_order_lem_example = ship_order_lem env 21 by_default db

abbrev shipped_db : OrdersDb
shipped_db = (ship_order env 21 by_default db).1

abbrev sent : ShipOrderResult
sent = record {
  order = record {
    row = record paid { status = OrderStatus.shipped; updated_at = 90000 };
    items = [];
  };
  shipment = record {
    id = 700;
    order_id = 21;
    status = ShipmentStatus.preparing;
    carrier = 0;
    tracking_no = 9;
    created_at = 90000;
  };
}

ship_order_runs : ship_order env 21 by_default db ≡ (ok sent, shipped_db)
unfolding ship_order confirmed_order find_by_id find_order load_order find_by_order_id
    create_shipment mark_shipped update_status update_order items_of
ship_order_runs = refl

run_shipment_progress_tick-Advances_example : Advances db (run_shipment_progress_tick env db).1
run_shipment_progress_tick-Advances_example = run_shipment_progress_tick-Advances env db

abbrev wanted : PlaceOrderInput
wanted = record { customer_id = 1; lines = record { product_id = 7; qty = 2 } ∷ [] }

place_order-Places_example : Places willing env 1 (db, 0) (place_order willing env wanted (db, 0))
place_order-Places_example = place_order-Places willing env wanted (db, 0)

abbrev digit : ℕ → Text
digit n = (48 + n) ∷ []

-- A text that is a comma, a quote and a line feed
abbrev awkward : Text
awkward = 44 ∷ 34 ∷ 10 ∷ []

abbrev exported : OrderExportItem
exported = record {
  id = awkward;
  customer_id = 34 ∷ [];
  status = OrderStatus.shipped;
  currency = 85 ∷ 83 ∷ 68 ∷ [];
  subtotal_cents = 5;
  total_cents = 5;
  item_count = 1;
  placed_at = 50 ∷ [];
  updated_at = [];
}

exported-IsPlain : IsPlain (item_cells digit exported)
exported-IsPlain = (refl, (refl, (refl, (refl, (refl, (refl, (refl, (refl, (refl, tt)))))))))

to_csv_reads_example :
    read_csv Mode.start (to_csv digit (exported ∷ exported ∷ []))
    ≡ csv_header ∷ item_cells digit exported ∷ item_cells digit exported ∷ []
to_csv_reads_example =
    to_csv_reads digit (exported ∷ exported ∷ []) (exported-IsPlain, (exported-IsPlain, tt))
