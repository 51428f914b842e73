-- ===== src/Gateway/Access.antt =====
-- services/gateway/src: domain/apiKeyAuthenticator.ts and rateLimiter.ts, repositories/apiKeyRepository.ts
-- and rateLimitRepository.ts, and the two middlewares. A key, after the trim, is a number, which stands
-- for its hash too, and a time is in seconds.
use atlas_commerce.Prelude.{
  ℕ, ◌+◌, ◌-◌, Bool, false, Option, none, some, List, [], ◌∷◌, ◌==◌, ◌||◌, ltb, leb, if◌then◌else◌,
  length,
}
use atlas_commerce.Shared.Rows.{find_row, replace_row}

-- The entry of a key in Redis: its count, and when it expires.
pub record Counter : Type 0 where
  pub key : ℕ
  pub count : ℕ
  pub expires_at : ℕ

pub record GatewayDb : Type 0 where
  pub api_keys : List ℕ
  pub counters : List Counter

pub record RateLimitOptions : Type 0 where
  pub limit : ℕ
  pub window_sec : ℕ

pub record RateLimitCounter : Type 0 where
  pub count : ℕ
  pub ttl_sec : ℕ

pub record RateLimitDecision : Type 0 where
  pub allowed : Bool
  pub limit : ℕ
  pub remaining : ℕ
  pub retry_after_sec : ℕ
  pub reset_after_sec : ℕ

-- `seed`
unfoldable pub seed : List ℕ → GatewayDb → ℕ × GatewayDb
seed keys s = (length keys, record s { api_keys = keys })

-- `has`
unfoldable pub has_api_key : ℕ → List ℕ → Bool
has_api_key key [] = false
has_api_key key (k ∷ ks) = k == key || has_api_key key ks

pub data ApiKeyAuthResult : Type 0 where
  authenticated : ℕ → ApiKeyAuthResult
  missing unknown : ApiKeyAuthResult

-- `authenticate`; a key that is absent or blank is `none`.
unfoldable pub authenticate : Option ℕ → GatewayDb → ApiKeyAuthResult
authenticate none s = ApiKeyAuthResult.missing
authenticate (some key) s =
    if has_api_key key s.api_keys
    then ApiKeyAuthResult.authenticated key
    else ApiKeyAuthResult.unknown

abbrev pub counter_key : Counter → ℕ
counter_key c = c.key

-- INCR and, for the first of a window, EXPIRE, after an entry that has expired is gone.
abbrev pub counted : ℕ → ℕ → ℕ → Option Counter → Counter
counted now window key none = record { key = key; count = 1; expires_at = now + window }
counted now window key (some c) =
    if ltb now c.expires_at
    then record { key = key; count = c.count + 1; expires_at = c.expires_at }
    else record { key = key; count = 1; expires_at = now + window }

abbrev pub stored : Counter → Option Counter → List Counter → List Counter
stored c none cs = c ∷ cs
stored c (some old) cs = replace_row counter_key c cs

-- `increment`
unfoldable pub increment : ℕ → ℕ → ℕ → GatewayDb → RateLimitCounter × GatewayDb
increment now window key s =
    let found = find_row counter_key key s.counters in
    let c = counted now window key found in
    (
      record { count = c.count; ttl_sec = c.expires_at - now },
      record s { counters = stored c found s.counters },
    )

abbrev pub decision : RateLimitOptions → RateLimitCounter → RateLimitDecision
decision options c =
    let reset = if ltb 0 c.ttl_sec then c.ttl_sec else options.window_sec in
    record {
      allowed = leb c.count options.limit;
      limit = options.limit;
      remaining = options.limit - c.count;
      retry_after_sec = reset;
      reset_after_sec = reset;
    }

-- `check`
unfoldable pub check : RateLimitOptions → ℕ → ℕ → GatewayDb → RateLimitDecision × GatewayDb
check options now key s =
    let (c, t) = increment now options.window_sec key s in (decision options c, t)

-- How the two middlewares answer: 401, 429 with the time to wait, or on to the proxy.
pub data Answer : Type 0 where
  unauthorized : Answer
  rate_limited : ℕ → Answer
  passes : Answer

abbrev pub answer_of : RateLimitDecision → Answer
answer_of d = if d.allowed then Answer.passes else Answer.rate_limited d.retry_after_sec

abbrev pub limited : RateLimitOptions → ℕ → ApiKeyAuthResult → GatewayDb → Answer × GatewayDb
limited options now ApiKeyAuthResult.missing s = (Answer.unauthorized, s)
limited options now ApiKeyAuthResult.unknown s = (Answer.unauthorized, s)
limited options now (ApiKeyAuthResult.authenticated key) s =
    let (d, t) = check options now key s in (answer_of d, t)

-- `apiKeyAuthMiddleware`, then `rateLimitMiddleware`
unfoldable pub admit : RateLimitOptions → ℕ → Option ℕ → GatewayDb → Answer × GatewayDb
admit options now raw s = limited options now (authenticate raw s) s
