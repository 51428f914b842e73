-- ===== src/Shared/Errors.antt =====
-- packages/shared/src/errors.ts and the error constructors of the services: an error is its code
-- and its HTTP status. Messages and contexts are for the log and the reader, and are left out.
use atlas_commerce.Prelude.{ℕ}

-- The `code` of an `AppError`, one constructor to each string that the services use.
pub data Code : Type 0 where
  not_found conflict validation upstream internal : Code
  -- inventory
  insufficient_stock reservation_not_found stock_level_not_found stock_adjustment_negative
        reservation_already_released reservation_already_committed empty_reservation
        transfer_same_warehouse transfer_stock_unavailable cycle_count_rejected :
      Code
  -- orders
  order_not_found order_not_cancellable order_already_shipped order_not_shippable
        shipment_already_exists order_status_conflict customer_not_found order_lines_required
        order_line_qty_invalid duplicate_order_line order_confirmation_missing product_not_found
        catalog_upstream_error catalog_price_upstream_error inventory_reservation_upstream_error
        inventory_commit_upstream_error inventory_release_upstream_error
        payment_intent_upstream_error payment_capture_upstream_error payment_void_upstream_error :
      Code
  -- payments
  capture_declined ledger_post_failed : Code
  -- returns
  order_not_refundable duplicate_return_line return_line_not_in_order return_qty_exceeds_ordered
        return_not_found return_already_rejected return_status_conflict
        return_stock_location_not_found :
      Code

-- `class AppError`
pub record AppError : Type 0 where
  pub code : Code
  pub status : ℕ

abbrev pub app_error : Code → ℕ → AppError
app_error c s = record { code = c; status = s }

-- `class NotFoundError`
abbrev pub not_found_error : AppError
not_found_error = app_error Code.not_found 404

-- `class ConflictError`
abbrev pub conflict_error : AppError
conflict_error = app_error Code.conflict 409

-- `class ValidationError`
abbrev pub validation_error : AppError
validation_error = app_error Code.validation 400

-- `class UpstreamError`: the status is the upstream's.
abbrev pub upstream_error : ℕ → AppError
upstream_error s = app_error Code.upstream s

-- What `errorHandler` answers to a throw that is no `AppError`, such as a TypeError.
abbrev pub internal_error : AppError
internal_error = app_error Code.internal 500
