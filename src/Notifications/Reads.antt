-- ===== src/Notifications/Reads.antt =====
-- The lists of services/notifications: `list` of the two repositories.
use atlas_commerce.Prelude.{
  ℕ, Bool, true, false, Option, none, some, List, ◌==◌, leb, ◌&&◌, keep_if, sort_by, length,
}
use atlas_commerce.Shared.Rows.{fits_id}
use atlas_commerce.Notifications.Deliveries.{
  DeliveryStatus, WebhookEndpoint, NotificationDelivery, NotificationsDb,
}

pub record ListResult (A : Type 0) : Type 0 where
  pub items : List A
  pub total : ℕ

abbrev pub delivery_status_code : DeliveryStatus → ℕ
delivery_status_code DeliveryStatus.pending = 0
delivery_status_code DeliveryStatus.delivered = 1
delivery_status_code DeliveryStatus.failed = 2

abbrev pub fits_delivery_status : Option DeliveryStatus → DeliveryStatus → Bool
fits_delivery_status none x = true
fits_delivery_status (some y) x = delivery_status_code x == delivery_status_code y

abbrev pub fits_active : Option Bool → Bool → Bool
fits_active none x = true
fits_active (some true) x = x
fits_active (some false) true = false
fits_active (some false) false = true

-- `list` of the deliveries
unfoldable pub list_deliveries :
    Option ℕ → Option DeliveryStatus → NotificationsDb → ListResult NotificationDelivery
list_deliveries endpoint status s =
    let rows =
      sort_by (λ x y. leb y.created_at x.created_at)
        (keep_if (λ d. fits_id endpoint d.endpoint_id && fits_delivery_status status d.status)
          s.deliveries) in
    record { items = rows; total = length rows }

-- `list` of the endpoints
unfoldable pub list_endpoints :
    Option ℕ → Option Bool → NotificationsDb → ListResult WebhookEndpoint
list_endpoints customer active s =
    let rows =
      sort_by (λ x y. leb y.created_at x.created_at)
        (keep_if (λ e. fits_id customer e.customer_id && fits_active active e.active)
          s.endpoints) in
    record { items = rows; total = length rows }
