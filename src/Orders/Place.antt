-- ===== src/Orders/Place.antt =====
-- services/orders/src/domain: priceLines.ts, placeOrder.ts and compensation.ts. The state is the
-- service's database beside the rest of the system. Cache entries, which the functions delete after
-- each write, are not part of it.
use atlas_commerce.Prelude.{
  ℕ, suc, Bool, true, false, ◌||◌, Option, none, some, List, [], ◌∷◌, map, ltb, ◌==◌, length,
  if◌then◌else◌, sum_by,
}
use atlas_commerce.Shared.Errors.{Code, AppError, app_error}
use atlas_commerce.Shared.Tx.{
  Action, Result, ok, err, ◌>>=◌, ◌>>◌, pure, throw, or_throw, on_first, on_second, try_catch,
}
use atlas_commerce.Orders.Types.{
  Customer, Order, OrdersDb, LineInput, PlaceOrderInput, PricedLine, Env,
}
use atlas_commerce.Orders.Repository.{
  find_customer, create_pending, mark_reserved, attach_payment_intent, mark_confirmed, mark_failed,
}
use atlas_commerce.Orders.Clients.{
  Apis, get_product, get_price, create_reservation, commit_reservation, release_reservation,
  create_intent, capture_intent, void_intent,
}

-- `orderValidationError(code)`
abbrev pub order_validation_error : Code → AppError
order_validation_error c = app_error c 422

abbrev pub contains : ℕ → List ℕ → Bool
contains x [] = false
contains x (y ∷ ys) = x == y || contains x ys

-- The loop of `validateOrderLines` over the lines; `seen` holds the products so far.
unfoldable pub validate_lines : List ℕ → List LineInput → Result (Unit {0})
validate_lines seen [] = ok tt
validate_lines seen (l ∷ ls) =
    let rest = validate_lines (l.product_id ∷ seen) ls in
    if ltb l.qty 1
    then err (order_validation_error Code.order_line_qty_invalid)
    else if contains l.product_id seen
    then err (order_validation_error Code.duplicate_order_line)
    else rest

-- `validateOrderLines`
unfoldable pub validate_order_lines : List LineInput → Result (Unit {0})
validate_order_lines [] = err (order_validation_error Code.order_lines_required)
validate_order_lines (l ∷ ls) = validate_lines [] (l ∷ ls)

-- `calculateSubtotal`
unfoldable pub calculate_subtotal : List PricedLine → ℕ
calculate_subtotal = sum_by λ l. l.line_total_cents

-- `CompensationState`: what the failed attempt has to undo.
pub record Compensation : Type 0 where
  pub reservation_id : Option ℕ
  pub payment_intent_id : Option ℕ

-- `isErrorCode(err, "INSUFFICIENT_STOCK")`
abbrev pub is_insufficient_stock : AppError → Bool
is_insufficient_stock e = elim (e.code) [ Code.insufficient_stock ↦ true | _ ↦ false ]

-- The payments key `order:<id>`; keys are numbers here.
abbrev pub payment_key : ℕ → ℕ
payment_key order = order

abbrev pub input_of : PricedLine → LineInput
input_of l = record { product_id = l.product_id; qty = l.qty }

module _ {R : Type 0} where
  -- Assignments to the compensation state, which stands beside the world and keeps what was assigned before
  -- a throw.
  abbrev pub set_reservation : ℕ → Action ((OrdersDb × R) × Compensation) (Unit {0})
  set_reservation id (w, c) = (ok tt, (w, record c { reservation_id = some id }))

  abbrev pub set_intent : ℕ → Action ((OrdersDb × R) × Compensation) (Unit {0})
  set_intent id (w, c) = (ok tt, (w, record c { payment_intent_id = some id }))

  -- The order becomes failed, and the error is thrown on.
  abbrev pub fail_order : Env → ℕ → AppError → Action (OrdersDb × R) Order
  fail_order env order e = on_first (mark_failed env order) >> throw e

module _ {R : Type 0} (apis : Apis R) where
  -- The loop of `priceLines`; `k` counts the ids drawn so far.
  unfoldable pub price_each :
      Env → ℕ → Customer → List LineInput → Action (OrdersDb × R) (List PricedLine)
  price_each env k c [] = pure []
  price_each env k c (l ∷ ls) = do
    on_second (get_product apis l.product_id)
    price ← on_second (get_price apis l.product_id c.tier c.currency l.qty)
    rest ← price_each env (suc k) c ls
    pure (
        record {
          id = env.new_id k;
          product_id = l.product_id;
          qty = l.qty;
          unit_price_cents = price.unit_price_cents;
          line_total_cents = price.line_total_cents;
        }
        ∷ rest)

  -- `priceLines`
  unfoldable pub price_lines :
      Env → Customer → List LineInput → Action (OrdersDb × R) (List PricedLine)
  price_lines env c lines = do λ s. (validate_order_lines lines, s); price_each env 0 c lines

  -- `compensateOrderFailure`: the release comes first, and a release that throws ends the
  -- compensation; a void that throws is only logged.
  abbrev pub undo_reservation : Option ℕ → Action (OrdersDb × R) (Unit {0})
  undo_reservation none = pure tt
  undo_reservation (some id) = on_second (release_reservation apis id)

  abbrev pub undo_intent : Option ℕ → Action (OrdersDb × R) (Unit {0})
  undo_intent none = pure tt
  undo_intent (some id) = try_catch (on_second (void_intent apis id)) (λ _. pure tt)

  unfoldable pub compensate : Compensation → Action (OrdersDb × R) (Unit {0})
  compensate c = do undo_reservation c.reservation_id; undo_intent c.payment_intent_id

  -- The `try` block.
  unfoldable pub place_body :
      Env → ℕ → Customer → List PricedLine → Action ((OrdersDb × R) × Compensation) Order
  place_body env order c lines = do
    reservation ← on_first (on_second (create_reservation apis order (map input_of lines)))
    set_reservation reservation
    on_first (on_first (mark_reserved env order reservation))
    intent ← on_first (
        on_second (
          create_intent apis (record {
            order_id = order;
            amount_cents = calculate_subtotal lines;
            currency = c.currency;
            idempotency_key = payment_key order;
          })))
    set_intent intent
    on_first (on_first (attach_payment_intent env order intent))
    on_first (on_second (capture_intent apis intent (payment_key order)))
    on_first (on_second (commit_reservation apis reservation))
    on_first (on_first (mark_confirmed env order))

  -- After the compensation: its own error wins over the one that led to it.
  abbrev pub after_compensation :
      Env → ℕ → AppError → Result (Unit {0}) × (OrdersDb × R) → Result Order × (OrdersDb × R)
  after_compensation env order e (ok _, w) = fail_order env order e w
  after_compensation env order e (err e', w) = fail_order env order e' w

  -- The `catch` block.
  unfoldable pub place_failed : Env → ℕ → Compensation → AppError → Action (OrdersDb × R) Order
  place_failed env order c e w =
      if is_insufficient_stock e
      then fail_order env order e w
      else after_compensation env order e (compensate c w)

  abbrev pub settle :
      Env → ℕ → Result Order × ((OrdersDb × R) × Compensation) → Result Order × (OrdersDb × R)
  settle env order (ok o, (w, c)) = (ok o, w)
  settle env order (err e, (w, c)) = place_failed env order c e w

  -- `try { … } catch { … }` of `placeOrder`, from a state without reservation and intent.
  unfoldable pub place_created : Env → ℕ → Customer → List PricedLine → Action (OrdersDb × R) Order
  place_created env order c lines w =
      settle env order (
        place_body env order c lines
          (w, record { reservation_id = none; payment_intent_id = none }))

  -- `placeOrder`
  unfoldable pub place_order : Env → PlaceOrderInput → Action (OrdersDb × R) Order
  place_order env input = do
    found ← on_first (λ s. (ok (find_customer input.customer_id s.customers), s))
    customer ← or_throw found (order_validation_error Code.customer_not_found)
    lines ← price_lines env customer input.lines
    let order = env.new_id (length lines)
    on_first (
        create_pending env (record {
          id = order;
          customer_id = customer.id;
          currency = customer.currency;
          subtotal_cents = calculate_subtotal lines;
          total_cents = calculate_subtotal lines;
          items = lines;
        }))
    place_created env order customer lines
