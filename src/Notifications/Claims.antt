-- ===== src/Notifications/Claims.antt =====
-- Which deliveries the worker of services/notifications claims, and what becomes of them:
-- `claimDueForProcessing` of repositories/notificationDeliveryRepository.ts, `retryDelivery` of
-- domain/notificationService.ts and jobs/deliveryWorker.ts.
use atlas_commerce.Prelude.{
  ℕ, ◌<◌, ◌≡◌, ◌≢◌, ◌∙◌, refl, sym, inl, inr, Bool, true, false, not, ◌&&◌, Option, none, some,
  List, [], ◌∷◌, ◌==◌, ==_iff, ltb, ltb→lt, keep_if, sort_by, take, All, All-append, Member,
  Bool-cases,
}
use atlas_commerce.Prelude.Sorted.{sort_by-Member, keep_if-Member, take-Member}
use atlas_commerce.Shared.Post.{Holds}
use atlas_commerce.Shared.Rows.{find_row}
use atlas_commerce.Notifications.Deliveries.{
  DeliveryStatus, WebhookEndpoint, NotificationDelivery, NotificationsDb, Env, endpoint_id_of,
  any_is,
}
use atlas_commerce.Notifications.Due.{
  ids_of, is_open, is_before, any_before, is_time, is_due, delivery_before, picked_ids, claimed_if,
  claimed_rows, claim_due_for_processing,
}

-- The delivery may be claimed: it is not delivered, has attempts left, and no delivery to the same
-- endpoint that is open too was created before it.
abbrev pub IsClaimable : ℕ → List NotificationDelivery → NotificationDelivery → Type 0
IsClaimable max_attempts rows d =
    (d.status ≢ DeliveryStatus.delivered)
    × (d.attempts < max_attempts)
    × All (λ older. is_before max_attempts d older ≡ false) rows

both : (a b : Bool) → (a && b) ≡ true → (a ≡ true) × (b ≡ true)
both true true h = (refl, refl)
both true false h = cc
both false b h = cc

eq_false_of : (b : Bool) → not b ≡ true → b ≡ false
eq_false_of true h = cc
eq_false_of false h = refl

is_open-attempts :
    (max_attempts : ℕ) (d : NotificationDelivery)
    → is_open max_attempts d ≡ true
    → (d.status ≢ DeliveryStatus.delivered) × (d.attempts < max_attempts)
is_open-attempts max_attempts d h = by d.status h
  where
    by :
        (st : DeliveryStatus)
        → (elim st [ DeliveryStatus.delivered ↦ false | _ ↦ ltb d.attempts max_attempts ]) ≡ true
        → (st ≢ DeliveryStatus.delivered) × (d.attempts < max_attempts)
    by DeliveryStatus.pending h = ((λ e. cc), ltb→lt d.attempts max_attempts h)
    by DeliveryStatus.failed h = ((λ e. cc), ltb→lt d.attempts max_attempts h)
    by DeliveryStatus.delivered h = cc

any_before-All :
    (max_attempts : ℕ) (d : NotificationDelivery) (rows : List NotificationDelivery)
    → any_before max_attempts d rows ≡ false
    → All (λ older. is_before max_attempts d older ≡ false) rows
any_before-All max_attempts d [] h = tt
any_before-All max_attempts d (x ∷ xs) h = elim (Bool-cases (is_before max_attempts d x)) [
  | inl hit ↦ (let no : true ≡ false = sym (rw hit refl) ∙ h in cc)
  | inr miss ↦
      (let later : any_before max_attempts d xs ≡ false = sym (rw miss refl) ∙ h in
        (miss, any_before-All max_attempts d xs later))
]

is_due-IsClaimable :
    (now max_attempts : ℕ) (rows : List NotificationDelivery) (d : NotificationDelivery)
    → is_due now max_attempts rows d ≡ true
    → IsClaimable max_attempts rows d
is_due-IsClaimable now max_attempts rows d h =
    let (opened, rest) =
      both (is_open max_attempts d)
        (is_time now d.next_attempt_at && not (any_before max_attempts d rows)) h in
    let (time, first) =
      both (is_time now d.next_attempt_at) (not (any_before max_attempts d rows)) rest in
    let (st, attempts) = is_open-attempts max_attempts d opened in
    (
      st,
      attempts,
      any_before-All max_attempts d rows (eq_false_of (any_before max_attempts d rows) first),
    )

any_is-ids_of :
    (x : ℕ) (ds : List NotificationDelivery)
    → any_is x (ids_of ds) ≡ true
    → (p : NotificationDelivery) × Member p ds × (p.id ≡ x)
any_is-ids_of x [] h = cc
any_is-ids_of x (d ∷ ds) h = elim (Bool-cases (d.id == x)) [
  | inl hit ↦ (d, inl refl, (==_iff d.id x).0 hit)
  | inr miss ↦
      (let later : any_is x (ids_of ds) ≡ true = sym (rw miss refl) ∙ h in
        let (p, m, is) = any_is-ids_of x ds later in (p, inr m, is))
]

-- A claimed id is that of a delivery in the table that may be claimed.
abbrev pub IsRightly : ℕ → List NotificationDelivery → ℕ → Type 0
IsRightly max_attempts rows id =
    (p : NotificationDelivery) × Member p rows × (p.id ≡ id) × IsClaimable max_attempts rows p

picked_ids-IsRightly :
    (now limit max_attempts : ℕ) (rows : List NotificationDelivery) (id : ℕ)
    → any_is id (picked_ids now limit max_attempts rows) ≡ true
    → IsRightly max_attempts rows id
unfolding picked_ids
picked_ids-IsRightly now limit max_attempts rows id h =
    let due = keep_if (is_due now max_attempts rows) rows in
    let (p, taken, is) = any_is-ids_of id (take limit (sort_by delivery_before due)) h in
    let (there, may) = keep_if-Member (is_due now max_attempts rows) p rows (
      sort_by-Member delivery_before p due
        (take-Member limit p (sort_by delivery_before due) taken)) in
    (p, there, is, is_due-IsClaimable now max_attempts rows p may)

claimed_rows-All :
    (P : ℕ → Type 0) (env : Env) (until : ℕ) (ids : List ℕ) (es : List WebhookEndpoint)
    (ds : List NotificationDelivery)
    → ((id : ℕ) → any_is id ids ≡ true → P id)
    → All (λ c. P c.delivery.id) (claimed_rows env until ids es ds)
claimed_rows-All P env until ids es [] h = tt
claimed_rows-All P env until ids es (d ∷ ds) h =
    All-append (λ c. P c.delivery.id)
      (claimed_if env until (any_is d.id ids) (find_row endpoint_id_of d.endpoint_id es) d)
      (claimed_rows env until ids es ds)
      (one (any_is d.id ids) refl (find_row endpoint_id_of d.endpoint_id es))
      (claimed_rows-All P env until ids es ds h)
  where
    one :
        (b : Bool)
        → any_is d.id ids ≡ b
        → (o : Option WebhookEndpoint) → All (λ c. P c.delivery.id) (claimed_if env until b o d)
    one true is (some e) = (h d.id is, tt)
    one true is none = tt
    one false is o = tt

-- The worker claims only deliveries that are not delivered and have attempts left, and to an endpoint
-- only the oldest of those: of two open deliveries the later waits for the earlier.
pub claim_due_for_processing-IsRightly :
    (env : Env) (limit max_attempts until : ℕ) (s : NotificationsDb)
    → Holds
        (λ cs t. All (λ c. IsRightly max_attempts s.deliveries c.delivery.id) cs)
        (λ _ _. ⊥)
        (claim_due_for_processing env limit max_attempts until s)
unfolding claim_due_for_processing
claim_due_for_processing-IsRightly env limit max_attempts until s =
    claimed_rows-All (IsRightly max_attempts s.deliveries) env until
      (picked_ids env.now limit max_attempts s.deliveries) s.endpoints s.deliveries
      (picked_ids-IsRightly env.now limit max_attempts s.deliveries)
