-- ===== src/Shared/Tx.antt =====
-- Effects. An asynchronous function of the services is an action: it runs on a state and throws or
-- returns, and what it wrote before a throw stays written. `with_tx` is `withTx` of
-- packages/shared/src/db.ts, which undoes the writes of a body that throws.
use atlas_commerce.Prelude.{Bool, Option, none, some, if◌then◌else◌}
use atlas_commerce.Shared.Errors.{AppError}

pub data Result {ℓ} (A : Type ℓ) : Type ℓ where
  ok : A → Result A
  err : AppError → Result A

abbrev pub Action {ℓ κ} : Type ℓ → Type κ → Type (ℓ ⊔ κ)
Action S A = S → Result A × S

infixl 5 ◌>>=◌ ◌>>◌
-- The continuation of an awaited call: skipped when the call threw.
abbrev pub and_then {ℓ κ μ} :
    {S : Type ℓ} {A : Type κ} {B : Type μ} → Result A × S → (A → Action S B) → Result B × S
and_then (ok a, s) f = f a s
and_then (err e, s) f = (err e, s)

abbrev pub ◌>>=◌ {ℓ κ μ} :
    {S : Type ℓ} {A : Type κ} {B : Type μ} → Action S A → (A → Action S B) → Action S B
◌>>=◌ m f s = and_then (m s) f

abbrev pub ◌>>◌ {ℓ κ μ} :
    {S : Type ℓ} {A : Type κ} {B : Type μ} → Action S A → Action S B → Action S B
◌>>◌ m k s = and_then (m s) (λ _. k)

module _ {ℓ κ} {S : Type ℓ} {A : Type κ} where
  abbrev pub pure : A → Action S A
  pure a s = (ok a, s)

  abbrev pub throw : AppError → Action S A
  throw e s = (err e, s)

  abbrev pub gets : (S → A) → Action S A
  gets f s = (ok (f s), s)

  -- `if (!row) throw e`
  abbrev pub or_throw : Option A → AppError → Action S A
  or_throw none e s = (err e, s)
  or_throw (some a) e s = (ok a, s)

  abbrev pub commit_or_rollback : S → Result A × S → Result A × S
  commit_or_rollback s (ok a, t) = (ok a, t)
  commit_or_rollback s (err e, t) = (err e, s)

  -- BEGIN, the body, then COMMIT; on a throw ROLLBACK and throw on.
  abbrev pub with_tx : Action S A → Action S A
  with_tx body s = commit_or_rollback s (body s)

-- `if (test) throw e`
abbrev pub throw_if {ℓ} : {S : Type ℓ} → Bool → AppError → Action S (Unit {0})
throw_if b e s = if b then (err e, s) else (ok tt, s)

-- An action of one part of a state.
module _ {ℓ κ μ} {S : Type ℓ} {T : Type κ} {A : Type μ} where
  abbrev pub on_first : Action S A → Action (S × T) A
  on_first m (s, t) = ((m s).0, ((m s).1, t))

  abbrev pub on_second : Action T A → Action (S × T) A
  on_second m (s, t) = ((m t).0, (s, (m t).1))

  -- A transaction on the first part; what the body did to the second part stays done.
  abbrev pub roll_first : S → Result A × (S × T) → Result A × (S × T)
  roll_first s (ok a, w) = (ok a, w)
  roll_first s (err e, (s', t)) = (err e, (s, t))

  abbrev pub with_first_tx : Action (S × T) A → Action (S × T) A
  with_first_tx body (s, t) = roll_first s (body (s, t))

module _ {ℓ κ} {S : Type ℓ} {A : Type κ} where
  -- `catch (err) { throw f(err) }`
  abbrev pub renamed : (AppError → AppError) → Result A × S → Result A × S
  renamed f (ok a, t) = (ok a, t)
  renamed f (err e, t) = (err (f e), t)

  abbrev pub map_error : (AppError → AppError) → Action S A → Action S A
  map_error f m s = renamed f (m s)

  -- `catch (err) { return handler(err) }`
  abbrev pub handled : (AppError → Action S A) → Result A × S → Result A × S
  handled h (ok a, t) = (ok a, t)
  handled h (err e, t) = h e t

  abbrev pub try_catch : Action S A → (AppError → Action S A) → Action S A
  try_catch m h s = handled h (m s)
