-- ===== src/Payments/Tests.antt =====
-- Two intents, a ledger that answers and one that does not, and the theorems at them.
use atlas_commerce.Shared.Retry.{with_retry}
use atlas_commerce.Prelude.{ℕ, ◌+◌, ◌≡◌, refl, none, some, [], ◌∷◌}
use atlas_commerce.Shared.Errors.{conflict_error, internal_error}
use atlas_commerce.Shared.Tx.{ok, err}
use atlas_commerce.Payments.Types.{
  IntentStatus, PaymentIntent, CapturedIntent, PaymentsDb, CreateIntentInput, PspResult, Env,
  Outside, post_ledger_entry, psp_capture,
}
use atlas_commerce.Payments.Intents.{
  update_intent_status, get_by_id, record_attempt, insert_intent, find_intent, find_by_key,
  create_intent, void_intent, capture_intent,
}
use atlas_commerce.Payments.Capture.{Charged, capture_intent_lem}
use atlas_commerce.Payments.Once.{
  create_intent_once, capture_intent_once, capture_intent_loses_entry,
}

abbrev env : Env
env = record { now = 9000; requested_at = 9001; new_id = λ k. 800 + k }

abbrev open_intent : PaymentIntent
open_intent = record {
  id = 500;
  order_id = 20;
  amount_cents = 300;
  currency = 0;
  status = IntentStatus.requires_capture;
  idempotency_key = 20;
  created_at = 8000;
  updated_at = 8000;
}

abbrev db : PaymentsDb
db = record { intents = open_intent ∷ []; attempts = [] }

abbrev provider : ℕ → ℕ → ℕ → ℕ → PspResult
provider =
    psp_capture (λ intent at amount currency. intent + at + amount + currency)
      (λ intent at. intent + at) 0

-- A ledger that takes every entry and counts the calls, and one that refuses them.
abbrev willing : Outside ℕ
willing = record { provider = provider; post = λ _ n. (ok tt, n + 1) }

abbrev down : Outside ℕ
down = record { provider = provider; post = λ _ n. (err internal_error, n + 1) }

capture_intent_lem_example :
    Charged willing env 500 open_intent
      (provider 500 9001 300 0)
      0
      (capture_intent willing env 500 (db, 0))
unfolding find_intent
capture_intent_lem_example = capture_intent_lem willing env 500 open_intent db 0 refl refl

abbrev captured_db : PaymentsDb
captured_db = (capture_intent willing env 500 (db, 0)).1.0

abbrev captured : CapturedIntent
captured = record {
  intent = record open_intent { status = IntentStatus.succeeded; updated_at = 9000 };
  provider_ref = some (500 + 9001);
}

capture_intent_runs : capture_intent willing env 500 (db, 0) ≡ (ok captured, (captured_db, 1))
unfolding capture_intent get_by_id find_intent record_attempt psp_capture update_intent_status
    post_ledger_entry with_retry
capture_intent_runs = refl

capture_intent_once_example :
    (capture_intent willing env 500 (captured_db, 1)
      ≡ (ok (record captured { provider_ref = none }), (captured_db, 1)))
    × (void_intent env 500 captured_db ≡ (err conflict_error, captured_db))
capture_intent_once_example =
    capture_intent_once willing env env 500 captured db captured_db 0 1 capture_intent_runs

capture_intent_loses_entry_example :
    (i : PaymentIntent) × (t : PaymentsDb) × (capture_intent down env 500 (db, 0)
      ≡ (err internal_error, (t, 4)))
    × (capture_intent down env 500 (t, 4)
        ≡ (ok (record { intent = i; provider_ref = none }), (t, 4)))
    × (void_intent env 500 t ≡ (err conflict_error, t))
unfolding find_intent psp_capture post_ledger_entry with_retry
capture_intent_loses_entry_example =
    capture_intent_loses_entry down env env 500 open_intent db 0 4 internal_error refl refl refl
      refl

abbrev request : CreateIntentInput
request = record { order_id = 20; amount_cents = 300; currency = 0; idempotency_key = 77 }

abbrev created_db : PaymentsDb
created_db = (create_intent env request db).1

abbrev created : PaymentIntent
created = record {
  id = 800;
  order_id = 20;
  amount_cents = 300;
  currency = 0;
  status = IntentStatus.requires_capture;
  idempotency_key = 77;
  created_at = 9000;
  updated_at = 9000;
}

create_intent_runs : create_intent env request db ≡ (ok created, created_db)
unfolding create_intent find_by_key insert_intent
create_intent_runs = refl

create_intent_once_example :
    create_intent env (record request { amount_cents = 1 }) created_db ≡ (ok created, created_db)
create_intent_once_example =
    create_intent_once env env request (record request { amount_cents = 1 }) created db created_db
      refl create_intent_runs
