-- ===== src/Notifications/Service.antt =====
-- services/notifications/src: domain/notificationService.ts, domain/enqueueEvent.ts and the tick of
-- jobs/deliveryWorker.ts. The webhook client is what sending does to the rest of the system `W`.
use atlas_commerce.Prelude.{
  ℕ, ◌+◌, Bool, true, false, Option, none, some, List, [], ◌∷◌, map, leb, if◌then◌else◌,
}
use atlas_commerce.Shared.Errors.{AppError, not_found_error, validation_error}
use atlas_commerce.Shared.Idempotency.{Store, Round, run}
use atlas_commerce.Shared.Retry.{with_retry}
use atlas_commerce.Shared.Rows.{find_row}
use atlas_commerce.Shared.Tx.{
  Action, Result, ok, err, ◌>>=◌, ◌>>◌, pure, throw_if, or_throw, on_first, on_second,
}
use atlas_commerce.Notifications.Deliveries.{
  DeliveryStatus, WebhookEndpoint, NotificationDelivery, ClaimedDelivery, NotificationsDb, Env,
  DeliveryInput, next_attempt_at, endpoint_id_of, find_active_by_event_type, deactivate, enqueue,
  find_delivery, requeue_failed, mark_delivered, record_failure, fail_permanently,
}
use atlas_commerce.Notifications.Due.{claim_due_for_processing}

-- `getEndpoint`
unfoldable pub get_endpoint : ℕ → Action NotificationsDb WebhookEndpoint
get_endpoint id s = or_throw (find_row endpoint_id_of id s.endpoints) not_found_error s

-- `deleteEndpoint`
unfoldable pub delete_endpoint : ℕ → Action NotificationsDb WebhookEndpoint
delete_endpoint id = do endpoint ← deactivate id; or_throw endpoint not_found_error

abbrev pub is_not_failed : DeliveryStatus → Bool
is_not_failed DeliveryStatus.failed = false
is_not_failed _ = true

-- `retryDelivery`
unfoldable pub retry_delivery : Env → ℕ → Action NotificationsDb NotificationDelivery
retry_delivery env id s =
    (do
      d ← or_throw (find_delivery id s) not_found_error
      throw_if (is_not_failed d.status) validation_error
      requeued ← requeue_failed env id
      or_throw requeued validation_error)
      s

abbrev pub delivery_to : ℕ → ℕ → WebhookEndpoint → DeliveryInput
delivery_to event payload e = record { endpoint_id = e.id; event_type = event; payload = payload }

-- What `enqueueNotificationEvent` hands to `idempotency.run`: how many were enqueued.
unfoldable pub enqueue_event : Env → ℕ → ℕ → Action NotificationsDb ℕ
enqueue_event env event payload s =
    enqueue env (map (delivery_to event payload) (find_active_by_event_type event s)) s

-- `enqueueNotificationEvent`, `publishEvent`; the key is made of the event type and a hash of the
-- payload.
unfoldable pub publish_event :
    (ℕ → ℕ → ℕ)
    → Env
    → ℕ
    → ℕ
    → Round ℕ NotificationsDb
    → List (Round ℕ NotificationsDb)
    → Action (Store ℕ × NotificationsDb) (ℕ × Bool)
publish_event key_of env event payload r rest =
    run (key_of event payload) (enqueue_event env event payload) r rest

-- The configuration of the worker; `messageOf` is the text of an error.
pub record WorkerConfig (W : Type 0) : Type 0 where
  pub batch_size : ℕ
  pub max_attempts : ℕ
  pub lease_ms : ℕ
  pub send : WebhookEndpoint → NotificationDelivery → Action W (Unit {0})
  pub message_of : AppError → ℕ
  pub inactive_message : ℕ

module _ {W : Type 0} (config : WorkerConfig W) where
  -- `retryAt`
  abbrev pub retry_at : Env → ℕ → Option ℕ
  retry_at env attempts =
      if leb config.max_attempts attempts then none else some (next_attempt_at env.now attempts)

  abbrev pub failure :
      Env → NotificationDelivery → AppError → Action NotificationsDb (Option NotificationDelivery)
  failure env d e =
      record_failure env d.id (config.message_of e) config.max_attempts
        (retry_at env (d.attempts + 1))

  -- What follows the send.
  abbrev pub sent :
      Env
      → NotificationDelivery
      → Result (Unit {0}) × (NotificationsDb × W)
      → Result (Option NotificationDelivery) × (NotificationsDb × W)
  sent env d (ok _, s) = on_first (mark_delivered env d.id) s
  sent env d (err e, s) = on_first (failure env d e) s

  abbrev pub send_if :
      Env → ClaimedDelivery → Bool → Action (NotificationsDb × W) (Option NotificationDelivery)
  send_if env c false s = on_first (fail_permanently env c.delivery.id config.inactive_message) s
  send_if env c true s =
      sent env c.delivery
        (on_second (with_retry 2 (λ _. true) (config.send c.endpoint c.delivery)) s)

  -- The body of the loop
  unfoldable pub process :
      Env → ClaimedDelivery → Action (NotificationsDb × W) (Option NotificationDelivery)
  process env c = send_if env c c.endpoint.active

  unfoldable pub process_all : Env → List ClaimedDelivery → Action (NotificationsDb × W) (Unit {0})
  process_all env [] = pure tt
  process_all env (c ∷ cs) = do process env c; process_all env cs

  -- `tick`, of a worker that is not running.
  unfoldable pub tick : Env → Action (NotificationsDb × W) (Unit {0})
  tick env = do
    deliveries ← on_first (
        claim_due_for_processing env config.batch_size config.max_attempts
          (env.now + config.lease_ms))
    process_all env deliveries
