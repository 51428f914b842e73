-- ===== src/Shared/Retry.antt =====
-- packages/shared/src/retry.ts: `withRetry`. The waits between the attempts are left out.
use atlas_commerce.Prelude.{ℕ, zero, suc, Bool, if◌then◌else◌}
use atlas_commerce.Shared.Errors.{AppError}
use atlas_commerce.Shared.Tx.{Action, throw, try_catch}

-- `retries` more attempts after the first one; an error that `retry_on` refuses ends the loop.
unfoldable pub with_retry {ℓ κ} :
    {S : Type ℓ} {A : Type κ} → ℕ → (AppError → Bool) → Action S A → Action S A
with_retry zero retry_on m = m
with_retry (suc n) retry_on m =
    try_catch m (λ e. if retry_on e then with_retry n retry_on m else throw e)
