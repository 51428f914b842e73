-- ===== src/Gateway/Tests.antt =====
-- Three requests of one key, with a limit of two, and the theorem at them.
use atlas_commerce.Prelude.{◌-◌, ◌≤◌, ◌≡◌, refl, some, List, [], ◌∷◌, arith}
use atlas_commerce.Gateway.Access.{
  GatewayDb, RateLimitOptions, Answer, has_api_key, authenticate, increment, check, admit,
}
use atlas_commerce.Gateway.Limits.{Request, passed, passed_le}

abbrev options : RateLimitOptions
options = record { limit = 2; window_sec = 10 }

abbrev db : GatewayDb
db = record {
  api_keys = 7 ∷ 8 ∷ [];
  counters = record { key = 7; count = 1; expires_at = 20 } ∷ [];
}

abbrev requests : List Request
requests =
    record { time = 12; raw_key = some 7 }
    ∷ record { time = 13; raw_key = some 8 }
    ∷ record { time = 14; raw_key = some 7 }
    ∷ []

admit_runs : (admit options 12 (some 9) db).0 ≡ Answer.unauthorized
unfolding admit authenticate has_api_key
admit_runs = refl

passed_runs : passed options 7 requests db ≡ 1
unfolding passed admit authenticate has_api_key check increment
passed_runs = refl

passed_le_example : passed options 7 requests db ≤ 2 - 1
passed_le_example =
    passed_le options 7 1 20 requests db refl (omega arith, (omega arith, (omega arith, tt)))
