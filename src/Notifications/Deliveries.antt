-- ===== src/Notifications/Deliveries.antt =====
-- services/notifications/src: domain/types.ts, domain/backoff.ts and the two repositories, but for the
-- claim of due deliveries, which is in Due. A uuid and a
-- text are numbers, and so is a time, in milliseconds; a payload is one too.
use atlas_commerce.Prelude.{
  ℕ, suc, ◌+◌, ◌-◌, ◌*◌, ◌^◌, min, Bool, true, false, Option, none, some, List, [], ◌∷◌, ◌==◌, leb,
  ◌&&◌, ◌||◌, if◌then◌else◌, keep_if, sort_by,
}
use atlas_commerce.Shared.Rows.{find_row, update_row}
use atlas_commerce.Shared.Tx.{Action, ok, with_tx}

pub data DeliveryStatus : Type 0 where
  pending delivered failed : DeliveryStatus

pub record WebhookEndpoint : Type 0 where
  pub id : ℕ
  pub customer_id : ℕ
  pub url : ℕ
  pub event_types : List ℕ
  pub secret : Option ℕ
  pub active : Bool
  pub created_at : ℕ

pub record NotificationDelivery : Type 0 where
  pub id : ℕ
  pub endpoint_id : ℕ
  pub event_type : ℕ
  pub payload : ℕ
  pub status : DeliveryStatus
  pub attempts : ℕ
  pub last_error : Option ℕ
  pub next_attempt_at : Option ℕ
  pub created_at : ℕ
  pub updated_at : ℕ

pub record ClaimedDelivery : Type 0 where
  pub delivery : NotificationDelivery
  pub endpoint : WebhookEndpoint

pub record NotificationsDb : Type 0 where
  pub endpoints : List WebhookEndpoint
  pub deliveries : List NotificationDelivery

-- The database's now(), and the values of successive calls of randomUUID().
pub record Env : Type 0 where
  pub now : ℕ
  pub new_id : ℕ → ℕ

-- `calculateBackoffMs`; max(0, n - 1) is a subtraction that stops at 0.
unfoldable pub calculate_backoff_ms : ℕ → ℕ → ℕ → ℕ
calculate_backoff_ms attempts base_delay max_delay = min (base_delay * 2 ^ (attempts - 1)) max_delay

-- `nextAttemptAt`, with the default delays
unfoldable pub next_attempt_at : ℕ → ℕ → ℕ
next_attempt_at now attempts = now + calculate_backoff_ms attempts 30_000 (15 * 60_000)

abbrev pub endpoint_id_of : WebhookEndpoint → ℕ
endpoint_id_of e = e.id

abbrev pub delivery_id_of : NotificationDelivery → ℕ
delivery_id_of d = d.id

pub record EndpointInput : Type 0 where
  pub customer_id : ℕ
  pub url : ℕ
  pub event_types : List ℕ
  pub secret : Option ℕ

abbrev pub new_endpoint : Env → EndpointInput → WebhookEndpoint
new_endpoint env i = record {
  id = env.new_id 0;
  customer_id = i.customer_id;
  url = i.url;
  event_types = i.event_types;
  secret = i.secret;
  active = true;
  created_at = env.now;
}

-- `create` of the endpoints
unfoldable pub create_endpoint : Env → EndpointInput → Action NotificationsDb WebhookEndpoint
create_endpoint env i s =
    (ok (new_endpoint env i), record s { endpoints = new_endpoint env i ∷ s.endpoints })

-- $1 = ANY(event_types)
abbrev pub any_is : ℕ → List ℕ → Bool
any_is x [] = false
any_is x (y ∷ ys) = y == x || any_is x ys

abbrev pub endpoint_before : WebhookEndpoint → WebhookEndpoint → Bool
endpoint_before x y = leb x.created_at y.created_at

-- `findActiveByEventType`
unfoldable pub find_active_by_event_type : ℕ → NotificationsDb → List WebhookEndpoint
find_active_by_event_type event s =
    sort_by endpoint_before (keep_if (λ e. e.active && any_is event e.event_types) s.endpoints)

abbrev pub deactivated : WebhookEndpoint → WebhookEndpoint
deactivated e = record e { active = false }

-- `deactivate`
unfoldable pub deactivate : ℕ → Action NotificationsDb (Option WebhookEndpoint)
deactivate id s =
    let did = update_row endpoint_id_of (λ e. true) deactivated id s.endpoints in
    (ok (did.0), record s { endpoints = did.1 })

pub record DeliveryInput : Type 0 where
  pub endpoint_id : ℕ
  pub event_type : ℕ
  pub payload : ℕ

abbrev pub new_delivery : Env → ℕ → DeliveryInput → NotificationDelivery
new_delivery env n i = record {
  id = env.new_id n;
  endpoint_id = i.endpoint_id;
  event_type = i.event_type;
  payload = i.payload;
  status = DeliveryStatus.pending;
  attempts = 0;
  last_error = none;
  next_attempt_at = some env.now;
  created_at = env.now;
  updated_at = env.now;
}

-- The loop of `enqueue`, with its count
abbrev pub enqueue_from : Env → ℕ → List DeliveryInput → Action NotificationsDb ℕ
enqueue_from env n [] s = (ok n, s)
enqueue_from env n (i ∷ rest) s =
    enqueue_from env (suc n) rest (record s { deliveries = new_delivery env n i ∷ s.deliveries })

-- `enqueue`
unfoldable pub enqueue : Env → List DeliveryInput → Action NotificationsDb ℕ
enqueue env [] s = (ok 0, s)
enqueue env (i ∷ rest) s = with_tx (enqueue_from env 0 (i ∷ rest)) s

-- `findById`
unfoldable pub find_delivery : ℕ → NotificationsDb → Option NotificationDelivery
find_delivery id s = find_row delivery_id_of id s.deliveries

-- UPDATE notification_deliveries SET ... WHERE id = $1 AND ... RETURNING *
abbrev pub update_delivery :
    (NotificationDelivery → Bool)
    → (NotificationDelivery → NotificationDelivery)
    → ℕ
    → Action NotificationsDb (Option NotificationDelivery)
update_delivery where_ set id s =
    let did = update_row delivery_id_of where_ set id s.deliveries in
    (ok (did.0), record s { deliveries = did.1 })

abbrev pub is_failed : NotificationDelivery → Bool
is_failed d = elim (d.status) [ DeliveryStatus.failed ↦ true | _ ↦ false ]

abbrev pub requeued : Env → NotificationDelivery → NotificationDelivery
requeued env d = record d {
  status = DeliveryStatus.pending;
  next_attempt_at = some env.now;
  updated_at = env.now;
}

-- `requeueFailed`
unfoldable pub requeue_failed : Env → ℕ → Action NotificationsDb (Option NotificationDelivery)
requeue_failed env = update_delivery is_failed (requeued env)

abbrev pub as_delivered : Env → NotificationDelivery → NotificationDelivery
as_delivered env d = record d {
  status = DeliveryStatus.delivered;
  last_error = none;
  next_attempt_at = none;
  updated_at = env.now;
}

-- `markDelivered`
unfoldable pub mark_delivered : Env → ℕ → Action NotificationsDb (Option NotificationDelivery)
mark_delivered env = update_delivery (λ d. true) (as_delivered env)

-- CASE WHEN attempts + 1 >= $3 THEN NULL ELSE $4 END
abbrev pub next_or_null : ℕ → ℕ → Option ℕ → Option ℕ
next_or_null attempts max_attempts next = if leb max_attempts (attempts + 1) then none else next

abbrev pub as_failed : Env → ℕ → ℕ → Option ℕ → NotificationDelivery → NotificationDelivery
as_failed env error max_attempts next d = record d {
  status = DeliveryStatus.failed;
  attempts = d.attempts + 1;
  last_error = some error;
  next_attempt_at = next_or_null d.attempts max_attempts next;
  updated_at = env.now;
}

-- `recordFailure`
unfoldable pub record_failure :
    Env → ℕ → ℕ → ℕ → Option ℕ → Action NotificationsDb (Option NotificationDelivery)
record_failure env id error max_attempts next =
    update_delivery (λ d. true) (as_failed env error max_attempts next) id

abbrev pub as_given_up : Env → ℕ → NotificationDelivery → NotificationDelivery
as_given_up env error d = record d {
  status = DeliveryStatus.failed;
  attempts = d.attempts + 1;
  last_error = some error;
  next_attempt_at = none;
  updated_at = env.now;
}

-- `failPermanently`
unfoldable pub fail_permanently : Env → ℕ → ℕ → Action NotificationsDb (Option NotificationDelivery)
fail_permanently env id error = update_delivery (λ d. true) (as_given_up env error) id
