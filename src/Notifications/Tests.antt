-- ===== src/Notifications/Tests.antt =====
-- Two deliveries to one endpoint, and the theorems at them.
use atlas_commerce.Prelude.{ℕ, ◌+◌, ◌≡◌, refl, true, none, some, [], ◌∷◌, All}
use atlas_commerce.Shared.Errors.{upstream_error}
use atlas_commerce.Shared.Post.{Holds}
use atlas_commerce.Shared.Tx.{err}
use atlas_commerce.Notifications.Outcome.{Outcome}
use atlas_commerce.Notifications.Claims.{IsRightly, claim_due_for_processing-IsRightly}
use atlas_commerce.Notifications.Deliveries.{
  DeliveryStatus, WebhookEndpoint, NotificationDelivery, ClaimedDelivery, NotificationsDb, Env,
  calculate_backoff_ms, requeued,
}
use atlas_commerce.Notifications.Due.{picked_ids, claim_due_for_processing}
use atlas_commerce.Notifications.Service.{WorkerConfig}

backoff_runs : calculate_backoff_ms 3 30_000 900_000 ≡ 120_000
unfolding calculate_backoff_ms
backoff_runs = refl

abbrev endpoint : WebhookEndpoint
endpoint = record {
  id = 1;
  customer_id = 2;
  url = 3;
  event_types = 4 ∷ [];
  secret = none;
  active = true;
  created_at = 10;
}

-- It has used its five attempts.
abbrev used : NotificationDelivery
used = record {
  id = 7;
  endpoint_id = 1;
  event_type = 4;
  payload = 0;
  status = DeliveryStatus.failed;
  attempts = 5;
  last_error = some 0;
  next_attempt_at = none;
  created_at = 20;
  updated_at = 90;
}

abbrev fresh : NotificationDelivery
fresh = record used {
  id = 8;
  status = DeliveryStatus.pending;
  attempts = 0;
  next_attempt_at = some 30;
  created_at = 30;
}

abbrev db : NotificationsDb
db = record { endpoints = endpoint ∷ []; deliveries = used ∷ fresh ∷ [] }

abbrev env : Env
env = record { now = 100; new_id = λ n. n + 50 }

picked_runs : picked_ids 100 10 5 db.deliveries ≡ 8 ∷ []
unfolding picked_ids
picked_runs = refl

claim_due_for_processing-IsRightly_example :
    Holds
      (λ cs t. All (λ c. IsRightly 5 db.deliveries c.delivery.id) cs)
      (λ _ _. ⊥)
      (claim_due_for_processing env 10 5 400 db)
claim_due_for_processing-IsRightly_example = claim_due_for_processing-IsRightly env 10 5 400 db

abbrev after : NotificationsDb
after = record db { deliveries = requeued env used ∷ fresh ∷ [] }

abbrev config : WorkerConfig ℕ
config = record {
  batch_size = 10;
  max_attempts = 5;
  lease_ms = 300;
  send = λ endpoint delivery w. (err (upstream_error 503), w);
  message_of = λ e. 1;
  inactive_message = 2;
}

abbrev claimed : ClaimedDelivery
claimed = record { delivery = fresh; endpoint = endpoint }
