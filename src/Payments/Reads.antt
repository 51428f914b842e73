-- ===== src/Payments/Reads.antt =====
-- The reads of services/payments/src: `list` of repositories/intentQueriesRepo.ts, the two queries of
-- repositories/attemptQueriesRepo.ts, `list` of repositories/fxCatalogRepo.ts, and
-- domain/paymentReadService.ts over them.
use atlas_commerce.Prelude.{
  ℕ, ◌≡◌, refl, ◌+◌, ◌-◌, Bool, true, not, Option, none, some, List, [], ◌∷◌, ◌==◌, ltb, leb, ◌&&◌,
  if◌then◌else◌, keep_if, sort_by, take, drop, length, arith,
}
use atlas_commerce.Shared.Errors.{not_found_error}
use atlas_commerce.Shared.Rows.{fits_id}
use atlas_commerce.Shared.Tx.{Action, ok, throw}
use atlas_commerce.Payments.Intents.{find_intent}
use atlas_commerce.Payments.Rates.{FxRate, Rates}
use atlas_commerce.Payments.Types.{IntentStatus, PaymentIntent, PaymentAttempt, PaymentsDb}

pub record Page : Type 0 where
  pub limit : ℕ
  pub offset : ℕ

pub record ListResult (A : Type 0) : Type 0 where
  pub items : List A
  pub total : ℕ

pub record IntentListFilter : Type 0 where
  pub status : Option IntentStatus
  pub order_id : Option ℕ
  pub currency : Option ℕ

pub record AttemptSummary : Type 0 where
  pub total_attempts : ℕ
  pub succeeded_attempts : ℕ
  pub failed_attempts : ℕ
  pub last_provider_ref : Option ℕ
  pub last_attempt_at : Option ℕ

pub record CaptureSummary : Type 0 where
  pub intent_id : ℕ
  pub status : IntentStatus
  pub amount_cents : ℕ
  pub captured_cents : ℕ
  pub remaining_cents : ℕ
  pub attempts : AttemptSummary

abbrev pub intent_status_code : IntentStatus → ℕ
intent_status_code IntentStatus.requires_capture = 0
intent_status_code IntentStatus.processing = 1
intent_status_code IntentStatus.succeeded = 2
intent_status_code IntentStatus.failed = 3
intent_status_code IntentStatus.voided = 4

abbrev pub fits_intent_status : Option IntentStatus → IntentStatus → Bool
fits_intent_status none x = true
fits_intent_status (some y) x = intent_status_code x == intent_status_code y

-- `where`
abbrev pub fits_intent : IntentListFilter → PaymentIntent → Bool
fits_intent f r =
    fits_intent_status f.status r.status
    && (fits_id f.order_id r.order_id && fits_id f.currency r.currency)

-- ORDER BY created_at DESC, id DESC
abbrev pub intent_before : PaymentIntent → PaymentIntent → Bool
intent_before x y =
    if x.created_at == y.created_at then leb y.id x.id else ltb y.created_at x.created_at

-- `list` of the intents, and `listIntents`
unfoldable pub list_intents : IntentListFilter → Page → Action PaymentsDb (ListResult PaymentIntent)
list_intents f page s =
    let rows = keep_if (fits_intent f) s.intents in
    (
      ok (record {
        items = take page.limit (drop page.offset (sort_by intent_before rows));
        total = length rows;
      }),
      s,
    )

-- WHERE intent_id = $1
unfoldable pub attempts_of : ℕ → List PaymentAttempt → List PaymentAttempt
attempts_of intent_id = keep_if (λ a. a.intent_id == intent_id)

-- ORDER BY attempt_no DESC
abbrev pub attempt_before : PaymentAttempt → PaymentAttempt → Bool
attempt_before x y = leb y.attempt_no x.attempt_no

-- `listByIntent`
unfoldable pub list_by_intent : ℕ → Page → PaymentsDb → ListResult PaymentAttempt
list_by_intent intent_id page s =
    let rows = attempts_of intent_id s.attempts in
    record {
      items = take page.limit (drop page.offset (sort_by attempt_before rows));
      total = length rows;
    }

-- The reference of the first row
abbrev pub first_ref : List PaymentAttempt → Option ℕ
first_ref [] = none
first_ref (x ∷ xs) = some x.provider_ref

-- MAX(created_at)
abbrev pub max_with : ℕ → Option ℕ → ℕ
max_with x none = x
max_with x (some y) = if ltb x y then y else x

abbrev pub max_created_at : List PaymentAttempt → Option ℕ
max_created_at [] = none
max_created_at (x ∷ xs) = some (max_with x.created_at (max_created_at xs))

-- `summarizeByIntent`
unfoldable pub summarize_by_intent : ℕ → PaymentsDb → AttemptSummary
summarize_by_intent intent_id s =
    let rows = attempts_of intent_id s.attempts in
    record {
      total_attempts = length rows;
      succeeded_attempts = length (keep_if (λ a. a.succeeded) rows);
      failed_attempts = length (keep_if (λ a. not a.succeeded) rows);
      last_provider_ref = first_ref (sort_by attempt_before rows);
      last_attempt_at = max_created_at rows;
    }

abbrev pub attempts_if_found :
    ℕ → Page → Option PaymentIntent → Action PaymentsDb (ListResult PaymentAttempt)
attempts_if_found intent_id page none s = throw not_found_error s
attempts_if_found intent_id page (some r) s = (ok (list_by_intent intent_id page s), s)

-- `listAttempts`
unfoldable pub list_attempts : ℕ → Page → Action PaymentsDb (ListResult PaymentAttempt)
list_attempts intent_id page s =
    attempts_if_found intent_id page (find_intent intent_id s.intents) s

-- `capturedCents`
abbrev pub captured_cents : PaymentIntent → ℕ
captured_cents r = elim (r.status) [ IntentStatus.succeeded ↦ r.amount_cents | _ ↦ 0 ]

abbrev pub summary_of : PaymentIntent → AttemptSummary → CaptureSummary
summary_of r summary = record {
  intent_id = r.id;
  status = r.status;
  amount_cents = r.amount_cents;
  captured_cents = captured_cents r;
  remaining_cents = r.amount_cents - captured_cents r;
  attempts = summary;
}

abbrev pub summary_if_found : ℕ → Option PaymentIntent → Action PaymentsDb CaptureSummary
summary_if_found intent_id none s = throw not_found_error s
summary_if_found intent_id (some r) s = (ok (summary_of r (summarize_by_intent intent_id s)), s)

-- `getCaptureSummary`; what is captured is 0 or the amount, so that the difference is not negative.
unfoldable pub get_capture_summary : ℕ → Action PaymentsDb CaptureSummary
get_capture_summary intent_id s = summary_if_found intent_id (find_intent intent_id s.intents) s

pub record FxListFilter : Type 0 where
  pub base : Option ℕ
  pub quote : Option ℕ

abbrev pub fits_rate : FxListFilter → FxRate → Bool
fits_rate f r = fits_id f.base r.base && fits_id f.quote r.quote

-- ORDER BY base, quote; the number of a currency has the place of its code.
abbrev pub rate_before : FxRate → FxRate → Bool
rate_before x y = if x.base == y.base then leb x.quote y.quote else ltb x.base y.base

-- `list` of the rates
unfoldable pub list_rates : FxListFilter → Page → Rates → ListResult FxRate
list_rates f page s =
    let rows = keep_if (fits_rate f) s.rows in
    record {
      items = take page.limit (drop page.offset (sort_by rate_before rows));
      total = length rows;
    }

-- Of a list, the attempts that succeeded and the others are all of it.
length-keep_if :
    (xs : List PaymentAttempt)
    → length (keep_if (λ a. a.succeeded) xs) + length (keep_if (λ a. not a.succeeded) xs)
      ≡ length xs
length-keep_if [] = refl
length-keep_if (x ∷ xs) = ground (arith, length-keep_if xs)

-- Every attempt of the summary succeeded or failed.
pub summarize_by_intent_adds :
    (id : ℕ) (s : PaymentsDb)
    → (summarize_by_intent id s).succeeded_attempts + (summarize_by_intent id s).failed_attempts
      ≡ (summarize_by_intent id s).total_attempts
unfolding summarize_by_intent
summarize_by_intent_adds id s = length-keep_if (attempts_of id s.attempts)
