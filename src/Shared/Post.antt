-- ===== src/Shared/Post.antt =====
-- Postconditions of actions: what holds when the call returns, and the all-or-nothing of `with_tx`.
use atlas_commerce.Prelude.{◌≡◌, refl, sym, subst, Bool, true, false}
use atlas_commerce.Shared.Errors.{AppError}
use atlas_commerce.Shared.Tx.{
  renamed, Action, Result, ok, err, and_then, commit_or_rollback, with_tx, throw_if, ◌>>◌,
}

module _ {ℓ κ μ} {S : Type ℓ} {A : Type κ} where
  -- If the call returned `a` in the state `s`, then `Q a s`.
  abbrev pub Ensures : (A → S → Type μ) → Result A × S → Type μ
  Ensures Q (ok a, s) = Q a s
  Ensures Q (err e, s) = Unit

module _ {ℓ κ} {S : Type ℓ} {A : Type κ} where
  -- The call returned and `Q a t`, or it threw and left the state as it was.
  abbrev pub Atomically : S → (A → S → Type ℓ) → Result A × S → Type ℓ
  Atomically s Q (ok a, t) = Q a t
  Atomically s Q (err e, t) = t ≡ s

  pub with_tx-Atomically :
      (Q : A → S → Type ℓ) (body : Action S A) (s : S)
      → Ensures Q (body s)
      → Atomically s Q (with_tx body s)
  with_tx-Atomically Q body s h = go (body s) h
    where
      go : (r : Result A × S) → Ensures Q r → Atomically s Q (commit_or_rollback s r)
      go (ok a, t) h = h
      go (err e, t) h = refl

module _ {ℓ κ μ} {S : Type ℓ} {A : Type κ} where
  pub Ensures-with_tx :
      (Q : A → S → Type μ) (body : Action S A) (s : S)
      → Ensures Q (body s)
      → Ensures Q (with_tx body s)
  Ensures-with_tx Q body s h = go (body s) h
    where
      go : (r : Result A × S) → Ensures Q r → Ensures Q (commit_or_rollback s r)
      go (ok a, t) h = h
      go (err e, t) h = tt

  pub Ensures-renamed :
      (Q : A → S → Type μ) (f : AppError → AppError) (r : Result A × S)
      → Ensures Q r
      → Ensures Q (renamed f r)
  Ensures-renamed Q f (ok a, t) h = h
  Ensures-renamed Q f (err e, t) h = tt

module _ {ℓ κ} {S : Type ℓ} {A : Type κ} where
  pub Ensures-true : (r : Result A × S) → Ensures (λ _ _. Unit {0}) r
  Ensures-true (ok a, t) = tt
  Ensures-true (err e, t) = tt

module _ {ℓ κ μ ν} {S : Type ℓ} {A : Type κ} {B : Type μ} where
  -- The rule for an awaited call.
  pub Ensures-and_then :
      (P : A → S → Type ν) (Q : B → S → Type ν) (m : Result A × S) (f : A → Action S B)
      → Ensures P m
      → ((a : A) (t : S) → P a t → Ensures Q (f a t))
      → Ensures Q (and_then m f)
  Ensures-and_then P Q (ok a, t) f h k = k a t h
  Ensures-and_then P Q (err e, t) f h k = tt

module _ {ℓ κ μ} {S : Type ℓ} {A : Type κ} where
  pub Ensures-weaken :
      (P Q : A → S → Type μ) (r : Result A × S)
      → ((a : A) (t : S) → P a t → Q a t)
      → Ensures P r
      → Ensures Q r
  Ensures-weaken P Q (ok a, t) k h = k a t h
  Ensures-weaken P Q (err e, t) k h = tt

  -- A postcondition for every `x` is one postcondition.
  pub Ensures-all {ν} :
      {X : Type ν} (Q : X → A → S → Type μ) (r : Result A × S)
      → ((x : X) → Ensures (Q x) r)
      → Ensures (λ a t. (x : X) → Q x a t) r
  Ensures-all Q (ok a, t) h = h
  Ensures-all Q (err e, t) h = tt

module _ {ℓ κ μ ν} {S : Type ℓ} {A : Type κ} {B : Type μ} where
  -- The rule for a pure call that may throw.
  pub Ensures-pure_then :
      (Q : B → S → Type ν) (r : Result A) (s : S) (f : A → Action S B)
      → ((a : A) → r ≡ ok a → Ensures Q (f a s))
      → Ensures Q (and_then (r, s) f)
  Ensures-pure_then Q (ok a) s f k = k a refl
  Ensures-pure_then Q (err e) s f k = tt

module _ {ℓ κ} {S : Type ℓ} {A : Type κ} where
  -- What the body keeps and a rollback restores holds after every outcome.
  pub Atomically-keeps :
      (P : S → Type ℓ) (s : S) (r : Result A × S) → Atomically s (λ _ t. P t) r → P s → P r.1
  Atomically-keeps P s (ok a, t) h p = h
  Atomically-keeps P s (err e, t) h p = subst P (sym h) p

module _ {ℓ κ μ} {S : Type ℓ} {A : Type κ} (P : S → Type μ) where
  -- The rule for `if (test) throw e` before an action.
  pub throw_if-keeps :
      (b : Bool) (e : AppError) (m : Action S A) (s : S)
      → P s
      → P (m s).1
      → P ((throw_if b e >> m) s).1
  throw_if-keeps true e m s p h = p
  throw_if-keeps false e m s p h = h

module _ {ℓ κ μ ν} {S : Type ℓ} {A : Type κ} {B : Type μ} (P : S → Type ν) where
  -- The rule for an awaited call, for what holds after a throw too.
  pub and_then-keeps :
      (m : Result A × S) (f : A → Action S B)
      → P m.1
      → ((a : A) (t : S) → P t → P (f a t).1)
      → P (and_then m f).1
  and_then-keeps (ok a, t) f h k = k a t h
  and_then-keeps (err e, t) f h k = h

module _ {ℓ κ μ} {S : Type ℓ} {A : Type κ} where
  -- A postcondition for each way to end.
  abbrev pub Holds : (A → S → Type μ) → (AppError → S → Type μ) → Result A × S → Type μ
  Holds Q E (ok a, s) = Q a s
  Holds Q E (err e, s) = E e s

module _ {ℓ κ μ ν} {S : Type ℓ} {A : Type κ} {B : Type μ} where
  pub Holds-and_then :
      (P : A → S → Type ν) (Q : B → S → Type ν) (E : AppError → S → Type ν) (m : Result A × S)
      (f : A → Action S B)
      → Holds P E m
      → ((a : A) (t : S) → P a t → Holds Q E (f a t))
      → Holds Q E (and_then m f)
  Holds-and_then P Q E (ok a, t) f h k = k a t h
  Holds-and_then P Q E (err e, t) f h k = h

module _ {ℓ κ μ ν} {S : Type ℓ} {A : Type κ} {B : Type μ} {C : Type ν} where
  pub and_then_assoc :
      (m : Result A × S) (f : A → Action S B) (g : B → Action S C)
      → and_then (and_then m f) g ≡ and_then m (λ a s. and_then (f a s) g)
  and_then_assoc (ok a, s) f g = refl
  and_then_assoc (err e, s) f g = refl
