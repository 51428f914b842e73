-- ===== src/Payments/Types.antt =====
-- services/payments/src/types.ts, and what the service calls: provider/pspProvider.ts and the
-- settlement of clients/settlementClient.ts. A uuid and a text are numbers.
use atlas_commerce.Prelude.{
  ℕ, Bool, true, false, Option, none, some, List, ltb, ◌&&◌, if◌then◌else◌, ◌%◌,
}
use atlas_commerce.Shared.Errors.{Code, AppError, app_error}
use atlas_commerce.Shared.Tx.{Action, map_error}
use atlas_commerce.Shared.Retry.{with_retry}

pub data IntentStatus : Type 0 where
  requires_capture processing succeeded failed voided : IntentStatus

pub record PaymentIntent : Type 0 where
  pub id : ℕ
  pub order_id : ℕ
  pub amount_cents : ℕ
  pub currency : ℕ
  pub status : IntentStatus
  pub idempotency_key : ℕ
  pub created_at : ℕ
  pub updated_at : ℕ

pub record PaymentAttempt : Type 0 where
  pub id : ℕ
  pub intent_id : ℕ
  pub attempt_no : ℕ
  pub succeeded : Bool
  pub provider_ref : ℕ
  pub error_code : Option ℕ
  pub created_at : ℕ

-- What a capture answers: the intent, and the provider's reference when this call charged.
pub record CapturedIntent : Type 0 where
  pub intent : PaymentIntent
  pub provider_ref : Option ℕ

pub record PaymentsDb : Type 0 where
  pub intents : List PaymentIntent
  pub attempts : List PaymentAttempt

pub record CreateIntentInput : Type 0 where
  pub order_id : ℕ
  pub amount_cents : ℕ
  pub currency : ℕ
  pub idempotency_key : ℕ

pub record PspResult : Type 0 where
  pub is_ok : Bool
  pub provider_ref : ℕ
  pub error_code : Option ℕ

pub record LedgerEntryInput : Type 0 where
  pub order_id : ℕ
  pub payment_intent_id : ℕ
  pub amount_cents : ℕ
  pub currency : ℕ
  pub external_ref : ℕ

-- The database's now(), `requestedAt`, and the values of successive calls of randomUUID().
pub record Env : Type 0 where
  pub now : ℕ
  pub requested_at : ℕ
  pub new_id : ℕ → ℕ

-- "card_declined"
abbrev pub card_declined : ℕ
card_declined = 0

-- `pspProvider`, over the hash that it takes from node:crypto and the reference that it forms from
-- the hash; the failure rate is in thousandths.
unfoldable pub psp_capture : (ℕ → ℕ → ℕ → ℕ → ℕ) → (ℕ → ℕ → ℕ) → ℕ → ℕ → ℕ → ℕ → ℕ → PspResult
psp_capture stable_hash ref_of fail_rate intent requested_at amount currency =
    if ltb 0 fail_rate && ltb (stable_hash intent requested_at amount currency % 1000) fail_rate
    then record {
      is_ok = false;
      provider_ref = ref_of intent requested_at;
      error_code = some card_declined;
    }
    else record { is_ok = true; provider_ref = ref_of intent requested_at; error_code = none }

-- What the capture calls: the provider, by intent, time, amount and currency, and the endpoint that
-- posts a ledger entry in the rest of the system.
pub record Outside (W : Type 0) : Type 0 where
  pub provider : ℕ → ℕ → ℕ → ℕ → PspResult
  pub post : LedgerEntryInput → Action W (Unit {0})

abbrev pub map_ledger_error : AppError → AppError
map_ledger_error e = elim (e.code) [ Code.upstream ↦ app_error Code.ledger_post_failed 502 | _ ↦ e ]

-- `postLedgerEntry`
unfoldable pub post_ledger_entry : {W : Type 0} → Outside W → LedgerEntryInput → Action W (Unit {0})
post_ledger_entry out entry = map_error map_ledger_error (with_retry 3 (λ _. true) (out.post entry))
