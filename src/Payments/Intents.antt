-- ===== src/Payments/Intents.antt =====
-- services/payments/src: intentsRepo.ts and attemptsRepo.ts of repositories, intentService.ts and
-- captureIntent.ts of domain. `create` and `captureIntent` are what they hand to `idempotency.run`;
-- captureIntent's key holds the time of the call, so its run never replays.
use atlas_commerce.Prelude.{
  ℕ, ◌+◌, Bool, true, false, Option, none, some, List, [], ◌∷◌, ◌==◌, ltb, if◌then◌else◌,
}
use atlas_commerce.Shared.Errors.{Code, AppError, app_error, not_found_error, conflict_error}
use atlas_commerce.Shared.Tx.{Action, ok, ◌>>=◌, ◌>>◌, pure, throw, or_throw, on_first, on_second}
use atlas_commerce.Payments.Types.{
  IntentStatus, PaymentIntent, CapturedIntent, PaymentAttempt, PaymentsDb, CreateIntentInput,
  PspResult, LedgerEntryInput, Env, Outside, post_ledger_entry,
}

unfoldable pub find_intent : ℕ → List PaymentIntent → Option PaymentIntent
find_intent id [] = none
find_intent id (r ∷ rs) = if r.id == id then some r else find_intent id rs

unfoldable pub find_by_key : ℕ → List PaymentIntent → Option PaymentIntent
find_by_key key [] = none
find_by_key key (r ∷ rs) = if r.idempotency_key == key then some r else find_by_key key rs

unfoldable pub replace_intent : PaymentIntent → List PaymentIntent → List PaymentIntent
replace_intent r [] = []
replace_intent r (x ∷ xs) = if x.id == r.id then r ∷ xs else x ∷ replace_intent r xs

-- `create` of the repository
unfoldable pub insert_intent : Env → CreateIntentInput → Action PaymentsDb PaymentIntent
insert_intent env i s =
    let r : PaymentIntent = record {
      id = env.new_id 0;
      order_id = i.order_id;
      amount_cents = i.amount_cents;
      currency = i.currency;
      status = IntentStatus.requires_capture;
      idempotency_key = i.idempotency_key;
      created_at = env.now;
      updated_at = env.now;
    } in
    (ok r, record s { intents = r ∷ s.intents })

abbrev pub is_capturable : IntentStatus → Bool
is_capturable IntentStatus.requires_capture = true
is_capturable IntentStatus.processing = true
is_capturable _ = false

abbrev pub updated_intent :
    Env → IntentStatus → Option PaymentIntent → Action PaymentsDb (Option PaymentIntent)
updated_intent env to none s = (ok none, s)
updated_intent env to (some r) s =
    let r' : PaymentIntent = record r { status = to; updated_at = env.now } in
    if is_capturable r.status
    then (ok (some r'), record s { intents = replace_intent r' s.intents })
    else (ok none, s)

-- `updateStatus` from `["requires_capture", "processing"]`, as every caller has it.
unfoldable pub update_intent_status :
    Env → ℕ → IntentStatus → Action PaymentsDb (Option PaymentIntent)
update_intent_status env id to s = updated_intent env to (find_intent id s.intents) s

-- COALESCE(MAX(attempt_no), 0) of one intent
unfoldable pub last_attempt : ℕ → List PaymentAttempt → ℕ
last_attempt id [] = 0
last_attempt id (a ∷ rest) =
    let last = last_attempt id rest in
    if a.intent_id == id then (if ltb last a.attempt_no then a.attempt_no else last) else last

-- `record` of the attempts
unfoldable pub record_attempt : Env → ℕ → PspResult → Action PaymentsDb (Unit {0})
record_attempt env intent psp s = (
  ok tt,
  record s {
    attempts =
        record {
          id = env.new_id 0;
          intent_id = intent;
          attempt_no = last_attempt intent s.attempts + 1;
          succeeded = psp.is_ok;
          provider_ref = psp.provider_ref;
          error_code = psp.error_code;
          created_at = env.now;
        }
        ∷ s.attempts;
  },
)

abbrev pub or_create :
    Env → CreateIntentInput → Option PaymentIntent → Action PaymentsDb PaymentIntent
or_create env i none = insert_intent env i
or_create env i (some r) = pure r

-- `create`
unfoldable pub create_intent : Env → CreateIntentInput → Action PaymentsDb PaymentIntent
create_intent env i s = or_create env i (find_by_key i.idempotency_key s.intents) s

-- `getById`
unfoldable pub get_by_id : ℕ → Action PaymentsDb PaymentIntent
get_by_id id s = or_throw (find_intent id s.intents) not_found_error s

abbrev pub void_by_status : Env → ℕ → PaymentIntent → IntentStatus → Action PaymentsDb PaymentIntent
void_by_status env id r IntentStatus.voided = pure r
void_by_status env id r _ = do
  updated ← update_intent_status env id IntentStatus.voided
  or_throw updated conflict_error

-- `void`
unfoldable pub void_intent : Env → ℕ → Action PaymentsDb PaymentIntent
void_intent env id = do r ← get_by_id id; void_by_status env id r r.status

-- The rest of the ledger entry is fixed: account "merchant_receivable" and type "charge".
abbrev pub charge_of : PaymentIntent → PspResult → LedgerEntryInput
charge_of r psp = record {
  order_id = r.order_id;
  payment_intent_id = r.id;
  amount_cents = r.amount_cents;
  currency = r.currency;
  external_ref = psp.provider_ref;
}

abbrev pub capture_declined : AppError
capture_declined = app_error Code.capture_declined 402

-- `updated ?? { ...intent, status: "succeeded" }`
abbrev pub or_succeeded : PaymentIntent → Option PaymentIntent → PaymentIntent
or_succeeded r none = record r { status = IntentStatus.succeeded }
or_succeeded r (some r') = r'

module _ {W : Type 0} (out : Outside W) where
  -- After the attempt was recorded.
  abbrev pub settle_capture :
      Env → PaymentIntent → PspResult → Bool → Action (PaymentsDb × W) CapturedIntent
  settle_capture env r psp false = do
    on_first (update_intent_status env r.id IntentStatus.failed)
    throw capture_declined
  settle_capture env r psp true = do
    updated ← on_first (update_intent_status env r.id IntentStatus.succeeded)
    on_second (post_ledger_entry out (charge_of r psp))
    pure (record { intent = or_succeeded r updated; provider_ref = some psp.provider_ref })

  abbrev pub charge : Env → PaymentIntent → PspResult → Action (PaymentsDb × W) CapturedIntent
  charge env r psp = do on_first (record_attempt env r.id psp); settle_capture env r psp psp.is_ok

  abbrev pub capture_by_status :
      Env → PaymentIntent → IntentStatus → Action (PaymentsDb × W) CapturedIntent
  capture_by_status env r IntentStatus.succeeded = pure (record { intent = r; provider_ref = none })
  capture_by_status env r IntentStatus.requires_capture =
      charge env r (out.provider r.id env.requested_at r.amount_cents r.currency)
  capture_by_status env r IntentStatus.processing =
      charge env r (out.provider r.id env.requested_at r.amount_cents r.currency)
  capture_by_status env r _ = throw conflict_error

  -- `captureIntent`
  unfoldable pub capture_intent : Env → ℕ → Action (PaymentsDb × W) CapturedIntent
  capture_intent env id = do r ← on_first (get_by_id id); capture_by_status env r r.status
