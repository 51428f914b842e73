-- ===== src/Returns/Tests.antt =====
-- An order of two products, a return of one of them and its approval, and the theorems at them.
use atlas_commerce.Prelude.{ℕ, suc, sum_by, ◌≤◌, ◌≡◌, ◌⊎◌, refl, none, some, List, [], ◌∷◌}
use atlas_commerce.Shared.Errors.{upstream_error}
use atlas_commerce.Shared.Retry.{with_retry}
use atlas_commerce.Shared.Tx.{Action, ok, err, pure}
use atlas_commerce.Orders.Types.{OrderStatus}
use atlas_commerce.Returns.Approve.{Stored, IsRefunded}
use atlas_commerce.Returns.Create.{with_return, Created, create_return_request_stores}
use atlas_commerce.Returns.Moves.{Advanced}
use atlas_commerce.Returns.Refund.{
  cost, OrderLineSnapshot, CreateReturnInputLine, CalculatedReturn, order_line, refund_lines,
  calculate_refund_lines, calculate_refund_lines_le,
}
use atlas_commerce.Returns.Repository.{
  CreateReturnRecordInput, new_row, load_lines, load_from_row, find_by_id, find_by_id_or_throw,
  update_and_load, mark_approved, mark_inventory_restored, create,
}
use atlas_commerce.Returns.Resume.{
  Returns, with_stock, approve_return_once_completes, approve_return_once_resumes,
}
use atlas_commerce.Returns.Saga.{return_operations_advance}
use atlas_commerce.Returns.Service.{
  CreateReturnInput, create_return_request, restock, approve_return_once, reject_return_request,
}
use atlas_commerce.Returns.Types.{
  ReturnStatus, ReturnLine, ReturnRow, ReturnRequest, ReturnsDb, Env, OrderSnapshot, StockSnapshot,
  InventoryAdjustmentInput, LedgerEntryInput, Outside, post_ledger_entry, choose_restock_warehouse,
}

abbrev items : List OrderLineSnapshot
items =
    record { product_id = 7; qty = 3; unit_price_cents = 150 }
    ∷ record { product_id = 9; qty = 1; unit_price_cents = 2000 }
    ∷ []

abbrev request : List CreateReturnInputLine
request = record { product_id = 7; qty = 2 } ∷ []

abbrev calculated : CalculatedReturn
calculated = record {
  lines = record { product_id = 7; qty = 2; refund_amount_cents = 300 } ∷ [];
  total_refund_cents = 300;
}

calculate_refund_lines_runs : calculate_refund_lines items request ≡ ok calculated
unfolding calculate_refund_lines refund_lines order_line
calculate_refund_lines_runs = refl

calculate_refund_lines_le_example :
    (calculated.total_refund_cents ≡ sum_by (λ r. r.refund_amount_cents) calculated.lines)
    × (calculated.total_refund_cents ≤ sum_by cost items)
calculate_refund_lines_le_example =
    calculate_refund_lines_le items request calculated calculate_refund_lines_runs

abbrev order : OrderSnapshot
order = record {
  id = 4;
  customer_id = 6;
  status = OrderStatus.shipped;
  currency = 1;
  items = items;
}

abbrev stock : StockSnapshot
stock = record {
  product_id = 7;
  total_on_hand = 12;
  total_reserved = 0;
  by_warehouse =
      record { warehouse_id = 1; on_hand = 4; reserved = 0 }
      ∷ record { warehouse_id = 2; on_hand = 8; reserved = 0 }
      ∷ [];
}

choose_restock_warehouse_runs : choose_restock_warehouse stock ≡ ok 2
unfolding choose_restock_warehouse
choose_restock_warehouse_runs = refl

-- The rest of the system counts the adjustments.
abbrev services : Outside ℕ
services = record {
  orders = λ id. pure order;
  stock = λ product. pure stock;
  adjustments = λ input w. (ok tt, suc w);
  ledger_entries = λ entry. pure tt;
}

abbrev without_ledger : Outside ℕ
without_ledger = record services { ledger_entries = λ entry w. (err (upstream_error 503), w) }

abbrev row : ReturnRow
row = record {
  id = 1;
  order_id = 4;
  customer_id = 6;
  status = ReturnStatus.requested;
  reason = 0;
  decision_reason = none;
  total_refund_cents = 300;
  currency = 1;
  inventory_restored_at = none;
  ledger_recorded_at = none;
  created_at = 100;
  updated_at = 100;
}

abbrev db : ReturnsDb
db = record {
  requests = row ∷ [];
  lines = record { id = 2; return_id = 1; product_id = 7; qty = 2; refund_amount_cents = 300 } ∷ [];
}

abbrev env : Env
env = record { now = 200; new_id = λ n. suc (suc (suc n)) }

abbrev input : CreateReturnInput
input = record { order_id = 4; lines = request; reason = 0 }

return_operations_advance_example :
    Advanced db (approve_return_once services env 1 (db, 0)).1.0
    × Advanced db (reject_return_request env 1 none db).1
    × Advanced db (create_return_request services env input (db, 0)).1.0
return_operations_advance_example = return_operations_advance services env 1 none input db 0 refl

restock-services : (ls : List ReturnLine) → Returns (restock services ls)
unfolding restock with_retry choose_restock_warehouse
restock-services [] w = (tt, w, refl)
restock-services (l ∷ ls) w = restock-services ls (suc w)

post_services : (entry : LedgerEntryInput) → Returns (post_ledger_entry services entry)
unfolding with_retry
post_services entry w = (tt, w, refl)

approve_return_once_completes_example :
    (q : ReturnRequest) × (u : ReturnsDb × ℕ) × (approve_return_once services env 1 (db, 0)
      ≡ (ok q, u))
    × Stored 1 IsRefunded q u
approve_return_once_completes_example =
    approve_return_once_completes services env 1 row db 0 restock-services post_services refl tt

-- The stock is back and the ledger threw.
abbrev left : ReturnsDb
left = record db {
  requests =
      record row {
        status = ReturnStatus.approved;
        inventory_restored_at = some 200;
        updated_at = 200;
      }
      ∷ [];
}

approve_fails :
    approve_return_once without_ledger env 1 (db, 0) ≡ (err (upstream_error 503), (left, 1))
unfolding approve_return_once find_by_id_or_throw find_by_id load_from_row load_lines restock
    with_retry choose_restock_warehouse mark_approved update_and_load mark_inventory_restored
approve_fails = refl

approve_return_once_resumes_example :
    ((ls : List ReturnLine) × (w : ℕ) × (restock without_ledger ls w
        ≡ (err (upstream_error 503), 1)))
    ⊎ (((entry : LedgerEntryInput) × (w : ℕ) × (post_ledger_entry without_ledger entry w
            ≡ (err (upstream_error 503), 1)))
        × ((stock : ℕ → Action ℕ StockSnapshot)
              (adjustments : InventoryAdjustmentInput → Action ℕ (Unit {0})) (v : ℕ)
            → approve_return_once (with_stock without_ledger stock adjustments) env 1 (left, v)
              ≡ approve_return_once without_ledger env 1 (left, v)))
approve_return_once_resumes_example =
    approve_return_once_resumes without_ledger env env 1 row (upstream_error 503) db left 0 1 refl
      tt approve_fails

abbrev created_input : CreateReturnRecordInput
created_input = record {
  order_id = 4;
  customer_id = 6;
  reason = 0;
  total_refund_cents = 300;
  currency = 1;
  lines = calculated.lines;
}

abbrev created : ReturnRequest
created = load_from_row (with_return env created_input db) (new_row env created_input)

create_return_request_runs :
    create_return_request services env input (db, 0)
    ≡ (ok created, (with_return env created_input db, 0))
unfolding create_return_request calculate_refund_lines refund_lines order_line create
    find_by_id_or_throw find_by_id load_from_row load_lines with_retry
create_return_request_runs = refl

create_return_request_stores_example :
    Created services input 0 created (with_return env created_input db, 0)
create_return_request_stores_example =
    create_return_request_stores services env input created db (with_return env created_input db) 0
      0 (refl, tt) create_return_request_runs
