-- ===== src/Returns/Service.antt =====
-- services/returns/src/domain/returnService.ts
use atlas_commerce.Prelude.{ℕ, Option, none, some, List, [], ◌∷◌}
use atlas_commerce.Shared.Errors.{Code}
use atlas_commerce.Shared.Idempotency.{Store, Round, run}
use atlas_commerce.Shared.Tx.{Action, ◌>>=◌, ◌>>◌, pure, throw, and_then, on_first, on_second}
use atlas_commerce.Returns.Refund.{
  CreateReturnInputLine, CalculatedReturn, assert_order_refundable, calculate_refund_lines,
}
use atlas_commerce.Returns.Repository.{
  find_by_id_or_throw, mark_approved, mark_inventory_restored, mark_ledger_recorded, mark_refunded,
  mark_rejected, create,
}
use atlas_commerce.Returns.Types.{
  ReturnStatus, ReturnLine, ReturnRequest, ReturnsDb, Env, OrderSnapshot, StockSnapshot, Outside,
  get_order, get_stock, create_adjustment, post_ledger_entry, return_conflict_error,
  choose_restock_warehouse,
}

pub record CreateReturnInput : Type 0 where
  pub order_id : ℕ
  pub lines : List CreateReturnInputLine
  pub reason : ℕ

abbrev pub create_calculated :
    Env → CreateReturnInput → OrderSnapshot → CalculatedReturn → Action ReturnsDb ReturnRequest
create_calculated env i order c = create env (record {
  order_id = order.id;
  customer_id = order.customer_id;
  reason = i.reason;
  total_refund_cents = c.total_refund_cents;
  currency = order.currency;
  lines = c.lines;
})

-- `rejectReturnRequest`, after the return was read.
abbrev pub reject_by_status : Env → ℕ → Option ℕ → ReturnStatus → Action ReturnsDb ReturnRequest
reject_by_status env id reason ReturnStatus.requested = mark_rejected env reason id
reject_by_status env id reason _ = throw (return_conflict_error Code.return_status_conflict)

-- `rejectReturnRequest`
unfoldable pub reject_return_request : Env → ℕ → Option ℕ → Action ReturnsDb ReturnRequest
reject_return_request env id reason = do
  r ← find_by_id_or_throw id
  reject_by_status env id reason r.row.status

-- `getReturnRequest`
unfoldable pub get_return_request : ℕ → Action ReturnsDb ReturnRequest
get_return_request id = find_by_id_or_throw id

module _ {W : Type 0} (out : Outside W) where
  abbrev pub create_for_order :
      Env → CreateReturnInput → OrderSnapshot → Action (ReturnsDb × W) ReturnRequest
  create_for_order env i order s =
      and_then (assert_order_refundable order.status, s)
        (λ _ s.
          and_then (calculate_refund_lines order.items i.lines, s)
            (λ c. on_first (create_calculated env i order c)))

  -- `createReturnRequest`
  unfoldable pub create_return_request :
      Env → CreateReturnInput → Action (ReturnsDb × W) ReturnRequest
  create_return_request env i = do
    order ← on_second (get_order out i.order_id)
    create_for_order env i order

  abbrev pub restock_line : ReturnLine → StockSnapshot → Action W (Unit {0})
  restock_line l stock w =
      and_then (choose_restock_warehouse stock, w)
        (λ warehouse.
          create_adjustment out
            (record { warehouse_id = warehouse; product_id = l.product_id; delta = l.qty }))

  -- The loop over `request.lines`
  unfoldable pub restock : List ReturnLine → Action W (Unit {0})
  restock [] = pure tt
  restock (l ∷ ls) = do stock ← get_stock out l.product_id; restock_line l stock; restock ls

  -- `if (request.inventoryRestoredAt === null) { ... }`
  abbrev pub restore_inventory :
      Env → ℕ → ReturnRequest → Option ℕ → Action (ReturnsDb × W) ReturnRequest
  restore_inventory env id r (some at) = pure r
  restore_inventory env id r none = do
    on_second (restock r.lines)
    on_first (mark_inventory_restored env id)

  -- `if (request.ledgerRecordedAt === null) { ... }`
  abbrev pub record_ledger :
      Env → ℕ → ReturnRequest → Option ℕ → Action (ReturnsDb × W) ReturnRequest
  record_ledger env id r (some at) = pure r
  record_ledger env id r none = do
    on_second (
        post_ledger_entry out (record {
          order_id = r.row.order_id;
          amount_cents = r.row.total_refund_cents;
          currency = r.row.currency;
          external_ref = r.row.id;
        }))
    on_first (mark_ledger_recorded env id)

  abbrev pub finish_refund :
      Env → ℕ → ReturnRequest → ReturnStatus → Action (ReturnsDb × W) ReturnRequest
  finish_refund env id r ReturnStatus.refunded = pure r
  finish_refund env id r _ = on_first (mark_refunded env id)

  -- What follows the tests of the status.
  abbrev pub settle_return : Env → ℕ → ReturnRequest → Action (ReturnsDb × W) ReturnRequest
  settle_return env id r = do
    restored ← restore_inventory env id r r.row.inventory_restored_at
    recorded ← record_ledger env id restored restored.row.ledger_recorded_at
    finish_refund env id recorded recorded.row.status

  abbrev pub approve_by_status :
      Env → ℕ → ReturnRequest → ReturnStatus → Action (ReturnsDb × W) ReturnRequest
  approve_by_status env id r ReturnStatus.refunded = pure r
  approve_by_status env id r ReturnStatus.rejected =
      throw (return_conflict_error Code.return_already_rejected)
  approve_by_status env id r ReturnStatus.requested = do
    approved ← on_first (mark_approved env id)
    settle_return env id approved
  approve_by_status env id r ReturnStatus.approved = settle_return env id r

  -- `approveReturnOnce`
  unfoldable pub approve_return_once : Env → ℕ → Action (ReturnsDb × W) ReturnRequest
  approve_return_once env id = do
    r ← on_first (find_by_id_or_throw id)
    approve_by_status env id r r.row.status

  -- `approveReturnRequest`; the key is `returns:approve:` and the id.
  unfoldable pub approve_return_request :
      Env
      → ℕ
      → Round ReturnRequest (ReturnsDb × W)
      → List (Round ReturnRequest (ReturnsDb × W))
      → Action (Store ReturnRequest × (ReturnsDb × W)) ReturnRequest
  approve_return_request env id r rest = do
    (result, replayed) ← run id (approve_return_once env id) r rest
    pure result
