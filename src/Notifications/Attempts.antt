-- ===== src/Notifications/Attempts.antt =====
-- What becomes of a delivery of services/notifications when it is retried: `retryDelivery` of
-- domain/notificationService.ts.
use atlas_commerce.Prelude.{ℕ, ◌≤◌, ◌≡◌, List, All}
use atlas_commerce.Shared.Rows.{replace_row}
use atlas_commerce.Notifications.Deliveries.{
  NotificationDelivery, NotificationsDb, Env, delivery_id_of, requeued,
}

-- Every row of the id has used up its attempts.
abbrev pub IsExhausted : ℕ → ℕ → List NotificationDelivery → Type 0
IsExhausted max_attempts id rows = All (λ d. d.id ≡ id → max_attempts ≤ d.attempts) rows

-- The table after a retry.
abbrev retried : Env → NotificationDelivery → NotificationsDb → NotificationsDb
retried env r s = record s { deliveries = replace_row delivery_id_of (requeued env r) s.deliveries }
