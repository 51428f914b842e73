-- ===== src/Notifications/Due.antt =====
-- services/notifications/src/repositories/notificationDeliveryRepository.ts: claimDueForProcessing, the
-- query that leases the deliveries a tick of the worker takes.
use atlas_commerce.Prelude.{
  ℕ, Bool, true, false, not, Option, none, some, List, [], ◌∷◌, ◌++◌, map, ◌==◌, ltb, leb, ◌&&◌,
  ◌||◌, if◌then◌else◌, keep_if, sort_by, take,
}
use atlas_commerce.Shared.Rows.{find_row}
use atlas_commerce.Shared.Tx.{Action, ok}
use atlas_commerce.Notifications.Deliveries.{
  DeliveryStatus, WebhookEndpoint, NotificationDelivery, ClaimedDelivery, NotificationsDb, Env,
  endpoint_id_of, any_is,
}

-- status IN ('pending', 'failed') AND attempts < $1
abbrev pub is_open : ℕ → NotificationDelivery → Bool
is_open max_attempts d = elim (d.status) [
  | DeliveryStatus.delivered ↦ false
  | _ ↦ ltb d.attempts max_attempts
]

-- The condition of the subquery, for `older` and `d`.
abbrev pub is_before : ℕ → NotificationDelivery → NotificationDelivery → Bool
is_before max_attempts d older =
    (older.endpoint_id == d.endpoint_id)
    && (is_open max_attempts older
        && (ltb older.created_at d.created_at
            || ((older.created_at == d.created_at) && ltb older.id d.id)))

abbrev pub any_before : ℕ → NotificationDelivery → List NotificationDelivery → Bool
any_before max_attempts d [] = false
any_before max_attempts d (x ∷ xs) = is_before max_attempts d x || any_before max_attempts d xs

-- next_attempt_at IS NULL OR next_attempt_at <= now()
abbrev pub is_time : ℕ → Option ℕ → Bool
is_time now none = true
is_time now (some t) = leb t now

-- The WHERE of `picked`
abbrev pub is_due : ℕ → ℕ → List NotificationDelivery → NotificationDelivery → Bool
is_due now max_attempts rows d =
    is_open max_attempts d
    && (is_time now d.next_attempt_at && not (any_before max_attempts d rows))

-- ORDER BY d.created_at ASC, d.id ASC
abbrev pub delivery_before : NotificationDelivery → NotificationDelivery → Bool
delivery_before x y =
    if x.created_at == y.created_at then leb x.id y.id else ltb x.created_at y.created_at

abbrev pub ids_of : List NotificationDelivery → List ℕ
ids_of ds = map (λ d. d.id) ds

-- `picked`; no row is locked by another transaction.
unfoldable pub picked_ids : ℕ → ℕ → ℕ → List NotificationDelivery → List ℕ
picked_ids now limit max_attempts rows =
    ids_of (take limit (sort_by delivery_before (keep_if (is_due now max_attempts rows) rows)))

abbrev pub leased : Env → ℕ → NotificationDelivery → NotificationDelivery
leased env until d = record d { next_attempt_at = some until; updated_at = env.now }

-- One row of the UPDATE: it is written, and answered, if its id is picked and its endpoint is there.
abbrev pub leased_if :
    Env → ℕ → Bool → Option WebhookEndpoint → NotificationDelivery → NotificationDelivery
leased_if env until true (some e) d = leased env until d
leased_if env until true none d = d
leased_if env until false o d = d

abbrev pub claimed_if :
    Env → ℕ → Bool → Option WebhookEndpoint → NotificationDelivery → List ClaimedDelivery
claimed_if env until true (some e) d = record { delivery = leased env until d; endpoint = e } ∷ []
claimed_if env until true none d = []
claimed_if env until false o d = []

abbrev pub leased_rows :
    Env → ℕ → List ℕ → List WebhookEndpoint → List NotificationDelivery → List NotificationDelivery
leased_rows env until ids es [] = []
leased_rows env until ids es (d ∷ ds) =
    leased_if env until (any_is d.id ids) (find_row endpoint_id_of d.endpoint_id es) d
    ∷ leased_rows env until ids es ds

abbrev pub claimed_rows :
    Env → ℕ → List ℕ → List WebhookEndpoint → List NotificationDelivery → List ClaimedDelivery
claimed_rows env until ids es [] = []
claimed_rows env until ids es (d ∷ ds) =
    claimed_if env until (any_is d.id ids) (find_row endpoint_id_of d.endpoint_id es) d
    ++ claimed_rows env until ids es ds

-- `claimDueForProcessing`; the answer has the order of the table.
unfoldable pub claim_due_for_processing :
    Env → ℕ → ℕ → ℕ → Action NotificationsDb (List ClaimedDelivery)
claim_due_for_processing env limit max_attempts until s =
    let ids = picked_ids env.now limit max_attempts s.deliveries in
    (
      ok (claimed_rows env until ids s.endpoints s.deliveries),
      record s { deliveries = leased_rows env until ids s.endpoints s.deliveries },
    )
