-- ===== src/Payments/Rates.antt =====
-- services/payments/src: `find` of repositories/fxRepo.ts and `getRate` of domain/fxService.ts, over
-- `withCache` of packages/shared/src/cache.ts. A currency is a number, and a rate too.
use atlas_commerce.Prelude.{ℕ, Option, none, some, List, [], ◌∷◌, ◌==◌, ◌&&◌, if◌then◌else◌}
use atlas_commerce.Shared.Errors.{not_found_error}
use atlas_commerce.Shared.Tx.{Action, ok, throw}

pub record FxRate : Type 0 where
  pub base : ℕ
  pub quote : ℕ
  pub rate : ℕ
  pub fetched_at : ℕ

-- The rows of `fx_rates`, and the rates in the cache.
pub record Rates : Type 0 where
  pub rows : List FxRate
  pub cached : List FxRate

-- `find`, and `cache.get` of the key of the two currencies
unfoldable pub find_rate : ℕ → ℕ → List FxRate → Option FxRate
find_rate base quote [] = none
find_rate base quote (r ∷ rs) =
    if (r.base == base) && (r.quote == quote) then some r else find_rate base quote rs

abbrev pub load_rate : Option FxRate → Action Rates FxRate
load_rate none s = throw not_found_error s
load_rate (some r) s = (ok r, record s { cached = r ∷ s.cached })

abbrev pub cached_or_load : ℕ → ℕ → Option FxRate → Action Rates FxRate
cached_or_load base quote (some r) s = (ok r, s)
cached_or_load base quote none s = load_rate (find_rate base quote s.rows) s

-- `getRate`, with the number that stands for the rate 1
unfoldable pub get_rate : ℕ → ℕ → ℕ → ℕ → Action Rates FxRate
get_rate one now base quote s =
    if base == quote
    then (ok (record { base = base; quote = quote; rate = one; fetched_at = now }), s)
    else cached_or_load base quote (find_rate base quote s.cached) s
