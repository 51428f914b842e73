-- ===== src/Notifications/Outcome.antt =====
-- What becomes of a delivery of services/notifications when the worker sends it: the body of the loop of
-- jobs/deliveryWorker.ts.
use atlas_commerce.Prelude.{ℕ, ◌+◌, ◌≤◌, ◌<◌, ◌≡◌, ◌≢◌, Bool, true, false, Option, none, some}
use atlas_commerce.Shared.Post.{Holds}
use atlas_commerce.Shared.Rows.{find_row}
use atlas_commerce.Shared.Tx.{Result, ok, err}
use atlas_commerce.Notifications.Deliveries.{
  DeliveryStatus, NotificationDelivery, NotificationsDb, Env, delivery_id_of, next_attempt_at,
}
use atlas_commerce.Notifications.Service.{WorkerConfig}

-- The row `r` after it was delivered, and after it failed with a text.
abbrev pub IsDelivered : NotificationDelivery → NotificationDelivery → Type 0
IsDelivered r r' =
    (r'.status ≡ DeliveryStatus.delivered)
    × (r'.attempts ≡ r.attempts)
    × (r'.last_error ≡ none)
    × (r'.next_attempt_at ≡ none)

abbrev pub IsFailed : ℕ → NotificationDelivery → NotificationDelivery → Type 0
IsFailed text r r' =
    (r'.status ≡ DeliveryStatus.failed)
    × (r'.attempts ≡ r.attempts + 1)
    × (r'.last_error ≡ some text)

module _ {W : Type 0} (config : WorkerConfig W) where
  -- What the row `r` of the claimed delivery `d` becomes, by whether its endpoint is active and how the
  -- send ended.
  abbrev pub Outcome :
      Env
      → NotificationDelivery
      → Bool
      → Result (Unit {0})
      → NotificationDelivery
      → NotificationDelivery
      → Type 0
  Outcome env d false x r r' = IsFailed config.inactive_message r r' × (r'.next_attempt_at ≡ none)
  Outcome env d true (ok _) r r' = IsDelivered r r'
  Outcome env d true (err e) r r' =
      IsFailed (config.message_of e) r r'
      × (config.max_attempts ≤ r.attempts + 1 → r'.next_attempt_at ≡ none)
      × (r.attempts ≡ d.attempts
          → r.attempts + 1 < config.max_attempts
          → r'.next_attempt_at ≡ some (next_attempt_at env.now (r.attempts + 1)))

-- A call returned the row of the delivery `id`, as it is then stored and is described, wrote no other
-- row, and left the rest of the system as `v`.
abbrev pub EndsAs :
    {W : Type 0}
    → ℕ
    → NotificationsDb
    → (NotificationDelivery → Type 0)
    → W
    → Result (Option NotificationDelivery) × (NotificationsDb × W)
    → Type 0
EndsAs id s P v x =
    Holds
      (λ o u.
        ((r' : NotificationDelivery) × (o ≡ some r')
          × (find_row delivery_id_of id u.0.deliveries ≡ some r')
          × P r')
        × ((j : ℕ)
            → j ≢ id
            → find_row delivery_id_of j u.0.deliveries ≡ find_row delivery_id_of j s.deliveries)
        × (u.1 ≡ v))
      (λ _ _. ⊥) x
