-- ===== src/Payments/Once.antt =====
-- Calls that follow the creation or the capture of a payment intent.
use atlas_commerce.Prelude.{
  ℕ, ◌≡◌, refl, sym, subst, inl, inr, true, none, some, Option-cases, ==_refl,
}
use atlas_commerce.Shared.Errors.{AppError, conflict_error}
use atlas_commerce.Shared.Tx.{Result, ok, err}
use atlas_commerce.Shared.Post.{Holds}
use atlas_commerce.Payments.Types.{
  CreateIntentInput, IntentStatus, PaymentIntent, CapturedIntent, PaymentsDb, PspResult, Env,
  Outside, post_ledger_entry,
}
use atlas_commerce.Payments.Capture.{Charged, succeeded_stays, capture_intent_lem}
use atlas_commerce.Payments.Intents.{
  find_intent, is_capturable, create_intent, insert_intent, find_by_key, get_by_id, void_intent,
  capture_intent, charge_of,
}

module _ {W : Type 0} (out : Outside W) where
  -- An intent that is returned by a capture is stored as succeeded.
  Charged-returned :
      (env : Env) (id : ℕ) (r : PaymentIntent) (psp : PspResult) (w : W)
      (x : Result CapturedIntent × (PaymentsDb × W))
      → Charged out env id r psp w x
      → Holds
          (λ i u.
            (find_intent id u.0.intents ≡ some i.intent)
            × (i.intent.status ≡ IntentStatus.succeeded))
          (λ _ _. Unit {0})
          x
  Charged-returned env id r psp w (ok i, u) (_, at, is, _, _) = (at, is)
  Charged-returned env id r psp w (err e, u) h = tt

  capture_by_status-returned :
      (env : Env) (id : ℕ) (r : PaymentIntent) (st : IntentStatus) (s : PaymentsDb) (w : W)
      → find_intent id s.intents ≡ some r
      → r.status ≡ st
      → Holds
          (λ i u.
            (find_intent id u.0.intents ≡ some i.intent)
            × (i.intent.status ≡ IntentStatus.succeeded))
          (λ _ _. Unit {0})
          (capture_intent out env id (s, w))
  unfolding capture_intent get_by_id
  capture_by_status-returned env id r IntentStatus.succeeded s w found is =
      subst
        (Holds
          (λ i u.
            (find_intent id u.0.intents ≡ some i.intent)
            × (i.intent.status ≡ IntentStatus.succeeded))
          (λ _ _. Unit {0}))
        (sym (succeeded_stays out env id r s w found is).0) (found, is)
  capture_by_status-returned env id r IntentStatus.failed s w found is = rw found (rw is tt)
  capture_by_status-returned env id r IntentStatus.voided s w found is = rw found (rw is tt)
  capture_by_status-returned env id r IntentStatus.requires_capture s w found is =
      Charged-returned env id r (out.provider r.id env.requested_at r.amount_cents r.currency) w
        (capture_intent out env id (s, w)) (capture_intent_lem out env id r s w found (rw is refl))
  capture_by_status-returned env id r IntentStatus.processing s w found is =
      Charged-returned env id r (out.provider r.id env.requested_at r.amount_cents r.currency) w
        (capture_intent out env id (s, w)) (capture_intent_lem out env id r s w found (rw is refl))

  capture_intent-returned :
      (env : Env) (id : ℕ) (s : PaymentsDb) (w : W)
      → Holds
          (λ i u.
            (find_intent id u.0.intents ≡ some i.intent)
            × (i.intent.status ≡ IntentStatus.succeeded))
          (λ _ _. Unit {0})
          (capture_intent out env id (s, w))
  unfolding capture_intent get_by_id
  capture_intent-returned env id s w = elim (Option-cases (find_intent id s.intents)) [
    | inl miss ↦ rw miss tt
    | inr (r, found) ↦ capture_by_status-returned env id r r.status s w found refl
  ]

  -- When, for a stored capturable intent, the ledger throws after the provider accepted, the capture
  -- throws and yet the intent is succeeded: capturing again then returns it, writes nothing and posts
  -- nothing, and a void is refused.
  pub capture_intent_loses_entry :
      (env later : Env) (id : ℕ) (r : PaymentIntent) (s : PaymentsDb) (w v : W) (e : AppError)
      → find_intent id s.intents ≡ some r
      → is_capturable r.status ≡ true
      → (out.provider r.id env.requested_at r.amount_cents r.currency).is_ok ≡ true
      → post_ledger_entry out
          (charge_of r (out.provider r.id env.requested_at r.amount_cents r.currency))
          w
        ≡ (err e, v)
      → (i : PaymentIntent) × (t : PaymentsDb) × (capture_intent out env id (s, w)
          ≡ (err e, (t, v)))
        × (capture_intent out later id (t, v)
            ≡ (ok (record { intent = i; provider_ref = none }), (t, v)))
        × (void_intent later id t ≡ (err conflict_error, t))
  capture_intent_loses_entry env later id r s w v e found open_for good lost =
      go (capture_intent out env id (s, w)) (capture_intent_lem out env id r s w found open_for)
    where
      go :
          (x : Result CapturedIntent × (PaymentsDb × W))
          → Charged out env id r (out.provider r.id env.requested_at r.amount_cents r.currency) w x
          → (i : PaymentIntent) × (t : PaymentsDb) × (x ≡ (err e, (t, v)))
            × (capture_intent out later id (t, v)
                ≡ (ok (record { intent = i; provider_ref = none }), (t, v)))
            × (void_intent later id t ≡ (err conflict_error, t))
      go (ok i, (t, u)) (_, _, _, _, did) = cc
      go (err e', (t, u)) (inl (bad, _, _)) = cc
      go (err e', (t, u)) (inr (_, (r', at, is), did)) =
          let thrown : e' ≡ e = cc in
          let rest : u ≡ v = cc in
          let after = succeeded_stays out later id r' t v at is in
          (r', t, rw thrown (rw rest refl), after.0, after.1)

  -- After a capture that returned, capturing again returns the same intent, now without a provider
  -- reference, records no attempt, posts nothing to the ledger and writes nothing, and a void is refused.
  pub capture_intent_once :
      (env later : Env) (id : ℕ) (i : CapturedIntent) (s t : PaymentsDb) (w v : W)
      → capture_intent out env id (s, w) ≡ (ok i, (t, v))
      → (capture_intent out later id (t, v)
          ≡ (ok (record { intent = i.intent; provider_ref = none }), (t, v)))
        × (void_intent later id t ≡ (err conflict_error, t))
  capture_intent_once env later id i s t w v h =
      let (at, is) =
        subst
          (Holds
            (λ i u.
              (find_intent id u.0.intents ≡ some i.intent)
              × (i.intent.status ≡ IntentStatus.succeeded))
            (λ _ _. Unit {0}))
          h (capture_intent-returned env id s w) in
      succeeded_stays out later id i.intent t v at is

or_create-found :
    (env : Env) (i : CreateIntentInput) (s : PaymentsDb)
    → Holds
        (λ r t. find_by_key i.idempotency_key t.intents ≡ some r)
        (λ _ _. Unit {0})
        (create_intent env i s)
unfolding create_intent insert_intent find_by_key
or_create-found env i s = elim (Option-cases (find_by_key i.idempotency_key s.intents)) [
  | inl miss ↦ rw miss (rw (==_refl i.idempotency_key) refl)
  | inr (r, found) ↦ rw found found
]

-- Creating an intent again under the same idempotency key returns the first intent and writes
-- nothing, whatever else the second request says.
pub create_intent_once :
    (env later : Env) (i j : CreateIntentInput) (r : PaymentIntent) (s t : PaymentsDb)
    → j.idempotency_key ≡ i.idempotency_key
    → create_intent env i s ≡ (ok r, t)
    → create_intent later j t ≡ (ok r, t)
unfolding create_intent
create_intent_once env later i j r s t same h =
    let found =
      subst (Holds (λ r t. find_by_key i.idempotency_key t.intents ≡ some r) (λ _ _. Unit {0})) h
        (or_create-found env i s) in
    rw same (rw found refl)
