-- ===== src/Payments/Capture.antt =====
-- How the capture of a payment intent ends (services/payments/src/domain/captureIntent.ts).
use atlas_commerce.Prelude.{
  ℕ, ◌≡◌, refl, sym, subst, ◌⊎◌, inl, inr, Bool, true, false, none, some, List, [], ◌∷◌, ◌==◌,
  if◌then◌else◌, arith,
}
use atlas_commerce.Shared.Errors.{conflict_error}
use atlas_commerce.Shared.Tx.{Result, ok, err, pure, and_then}
use atlas_commerce.Shared.Post.{Holds}
use atlas_commerce.Payments.Types.{
  IntentStatus, PaymentIntent, CapturedIntent, PaymentsDb, PspResult, Env, Outside,
  post_ledger_entry,
}
use atlas_commerce.Payments.Intents.{
  find_intent, replace_intent, is_capturable, update_intent_status, record_attempt, get_by_id,
  void_intent, capture_intent, capture_by_status, charge, settle_capture, charge_of,
}

pub find_intent-replace_intent :
    (j : ℕ) (r old : PaymentIntent) (rs : List PaymentIntent)
    → find_intent r.id rs ≡ some old
    → find_intent j (replace_intent r rs) ≡ (if r.id == j then some r else find_intent j rs)
unfolding find_intent replace_intent
find_intent-replace_intent j r old [] h = cc
find_intent-replace_intent j r old (x ∷ rs) h =
    ground (arith, find_intent-replace_intent j r old rs)

pub find_intent-id :
    (id : ℕ) (rs : List PaymentIntent) (r : PaymentIntent) → find_intent id rs ≡ some r → r.id ≡ id
unfolding find_intent
find_intent-id id [] r h = cc
find_intent-id id (x ∷ rs) r h = ground (arith, find_intent-id id rs r)

-- The intent is there and stands in the status.
abbrev pub Stands : ℕ → IntentStatus → PaymentsDb → Type 0
Stands id st s = (r : PaymentIntent) × (find_intent id s.intents ≡ some r) × (r.status ≡ st)

update_hit :
    (env : Env) (id : ℕ) (to : IntentStatus) (s : PaymentsDb) (r : PaymentIntent)
    → find_intent id s.intents ≡ some r
    → is_capturable r.status ≡ true
    → (t : PaymentsDb) × (update_intent_status env r.id to s
        ≡ (ok (some (record r { status = to; updated_at = env.now })), t))
      × (find_intent id t.intents ≡ some (record r { status = to; updated_at = env.now }))
      × (t.attempts ≡ s.attempts)
unfolding update_intent_status
update_hit env id to s r found open_for =
    let r' : PaymentIntent = record r { status = to; updated_at = env.now } in
    let e : r.id ≡ id = find_intent-id id s.intents r found in
    let at : find_intent r.id s.intents ≡ some r =
      subst (λ i. find_intent i s.intents ≡ some r) (sym e) found in
    (
      record s { intents = replace_intent r' s.intents },
      rw at (rw open_for refl),
      ground (arith, find_intent-replace_intent id r' r s.intents at, e),
      refl,
    )

module _ {W : Type 0} (out : Outside W) where
  -- A captured intent: another capture returns it without a provider reference and posts nothing, and
  -- a void is refused; neither writes.
  pub succeeded_stays :
      (later : Env) (id : ℕ) (r : PaymentIntent) (s : PaymentsDb) (w : W)
      → find_intent id s.intents ≡ some r
      → r.status ≡ IntentStatus.succeeded
      → (capture_intent out later id (s, w)
          ≡ (ok (record { intent = r; provider_ref = none }), (s, w)))
        × (void_intent later id s ≡ (err conflict_error, s))
  unfolding capture_intent void_intent get_by_id update_intent_status
  succeeded_stays later id r s w found was =
      (rw found (rw was refl), rw found (rw was (rw found (rw was refl))))

  pub voided_stays :
      (later : Env) (id : ℕ) (r : PaymentIntent) (s : PaymentsDb) (w : W)
      → find_intent id s.intents ≡ some r
      → r.status ≡ IntentStatus.voided
      → (void_intent later id s ≡ (ok r, s))
        × (capture_intent out later id (s, w) ≡ (err conflict_error, (s, w)))
  unfolding capture_intent void_intent get_by_id
  voided_stays later id r s w found was = (rw found (rw was refl), rw found (rw was refl))

  module _ (env : Env) (id : ℕ) (r : PaymentIntent) (psp : PspResult) where
    -- How a charge ends: declined, with the intent failed and the ledger not called, or accepted,
    -- with the intent succeeded and the answer of the ledger.
    abbrev pub Charged : W → Result CapturedIntent × (PaymentsDb × W) → Type 0
    Charged w =
        Holds
          (λ i u.
            (psp.is_ok ≡ true)
            × (find_intent id u.0.intents ≡ some i.intent)
            × (i.intent.status ≡ IntentStatus.succeeded)
            × (i.provider_ref ≡ some psp.provider_ref)
            × (post_ledger_entry out (charge_of r psp) w ≡ (ok tt, u.1)))
          (λ e u.
            ((psp.is_ok ≡ false) × Stands id IntentStatus.failed u.0 × (u.1 ≡ w))
            ⊎ ((psp.is_ok ≡ true)
                × Stands id IntentStatus.succeeded u.0
                × (post_ledger_entry out (charge_of r psp) w ≡ (err e, u.1))))

    posted :
        (i : PaymentIntent) (t : PaymentsDb) (w : W) (x : Result (Unit {0}) × W)
        → psp.is_ok ≡ true
        → find_intent id t.intents ≡ some i
        → i.status ≡ IntentStatus.succeeded
        → post_ledger_entry out (charge_of r psp) w ≡ x
        → Charged w (
            and_then
              (x.0, (t, x.1))
              (λ _. pure (record { intent = i; provider_ref = some psp.provider_ref })))
    posted i t w (ok _, v) good at is did = (good, at, is, refl, did)
    posted i t w (err e, v) good at is did = inr (good, (i, at, is), did)

    settle_capture-Charged :
        (b : Bool) (s : PaymentsDb) (w : W)
        → psp.is_ok ≡ b
        → find_intent id s.intents ≡ some r
        → is_capturable r.status ≡ true
        → Charged w (settle_capture out env r psp b (s, w))
    settle_capture-Charged true s w good found open_for =
        let (t, e, at, _) = update_hit env id IntentStatus.succeeded s r found open_for in
        let r' : PaymentIntent = record r {
          status = IntentStatus.succeeded;
          updated_at = env.now;
        } in
        rw e (posted r' t w (post_ledger_entry out (charge_of r psp) w) good at refl refl)
    settle_capture-Charged false s w bad found open_for =
        let (t, e, at, _) = update_hit env id IntentStatus.failed s r found open_for in
        rw e (
          inl (
            bad,
            (record r { status = IntentStatus.failed; updated_at = env.now }, at, refl),
            refl,
          ))

  capturable_charges :
      (env : Env) (r : PaymentIntent) (st : IntentStatus)
      → is_capturable st ≡ true
      → capture_by_status out env r st
        ≡ charge out env r (out.provider r.id env.requested_at r.amount_cents r.currency)
  capturable_charges env r IntentStatus.requires_capture h = refl
  capturable_charges env r IntentStatus.processing h = refl
  capturable_charges env r IntentStatus.succeeded h = cc
  capturable_charges env r IntentStatus.failed h = cc
  capturable_charges env r IntentStatus.voided h = cc

  -- A charge of a stored capturable intent ends in one of three ways. It returns: the provider accepted,
  -- the intent is succeeded, as it is answered with the provider's reference, and the ledger took the
  -- entry. Or it throws: either the provider declined, the intent is failed and the ledger was not
  -- called; or the provider accepted, the intent is succeeded, and the ledger threw.
  pub capture_intent_lem :
      (env : Env) (id : ℕ) (r : PaymentIntent) (s : PaymentsDb) (w : W)
      → find_intent id s.intents ≡ some r
      → is_capturable r.status ≡ true
      → Charged env id r
          (out.provider r.id env.requested_at r.amount_cents r.currency)
          w
          (capture_intent out env id (s, w))
  unfolding capture_intent get_by_id record_attempt
  capture_intent_lem env id r s w found open_for =
      let psp = out.provider r.id env.requested_at r.amount_cents r.currency in
      let settled =
        settle_capture-Charged env id r psp psp.is_ok (record_attempt env r.id psp s).1 w refl found
          open_for in
      rw found (rw (capturable_charges env r r.status open_for) settled)
