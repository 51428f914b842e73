-- ===== src/Shared/Replay.antt =====
-- What `run` of packages/shared/src/idempotency.ts leaves for the next call with the same key.
use atlas_commerce.Prelude.{
  ℕ, ◌≡◌, refl, subst, inl, inr, Bool, true, false, Option, none, some, List, [], ◌∷◌, ◌==◌,
  ==_refl, Bool-cases,
}
use atlas_commerce.Shared.Errors.{AppError, conflict_error}
use atlas_commerce.Shared.Idempotency.{
  Store, Round, lookup, remove_key, deleted_if, unlocked_if, unlocked, stored, settled, locked,
  replayed_or, if_free, wait_for, run,
}
use atlas_commerce.Shared.Post.{Ensures}
use atlas_commerce.Shared.Tx.{Action, Result, ok, err}

module _ {T S : Type 0} (key : ℕ) (fn : Action S T) where
  -- The result that was returned is stored under the key.
  abbrev pub IsStored : T × Bool → Store T × S → Type 0
  IsStored a u = lookup key u.0.results ≡ some (a.0)

  unlocked-results : (token : ℕ) (st : Store T) → (unlocked key fn token st).results ≡ st.results
  unlocked-results token st = by (lookup key st.locks)
    where
      deleted : (b : Bool) → (deleted_if key fn b st).results ≡ st.results
      deleted true = refl
      deleted false = refl

      by : (o : Option ℕ) → (unlocked_if key fn token o st).results ≡ st.results
      by none = refl
      by (some t) = deleted (t == token)

  settled-IsStored :
      (token : ℕ) (st : Store T) (x : Result T × S) → Ensures IsStored (settled key fn token st x)
  settled-IsStored token st (err e, s) = tt
  settled-IsStored token st (ok t, s) =
      rw (unlocked-results token (stored key fn t st)) (rw (==_refl key) refl)

  locked-IsStored :
      (token : ℕ) (busy : Action (Store T × S) (T × Bool)) (o : Option ℕ) (w : Store T × S)
      → Ensures IsStored (busy w)
      → Ensures IsStored (locked key fn token busy o w)
  locked-IsStored token busy none (st, s) h =
      settled-IsStored token (record st { locks = (key, token) ∷ st.locks }) (fn s)
  locked-IsStored token busy (some t) w h = h

  replayed_or-IsStored :
      (other : Action (Store T × S) (T × Bool)) (o : Option T) (w : Store T × S)
      → lookup key w.0.results ≡ o
      → Ensures IsStored (other w)
      → Ensures IsStored (replayed_or key fn other o w)
  replayed_or-IsStored other (some t) w found h = found
  replayed_or-IsStored other none w found h = h

  if_free-IsStored :
      (again wait : Action (Store T × S) (T × Bool)) (o : Option ℕ) (w : Store T × S)
      → Ensures IsStored (again w)
      → Ensures IsStored (wait w)
      → Ensures IsStored (if_free key fn again wait o w)
  if_free-IsStored again wait none w h k = h
  if_free-IsStored again wait (some t) w h k = k

  wait_for-IsStored :
      (again : Action (Store T × S) (T × Bool)) (pauses : List (Store T × S → Store T × S))
      (w : Store T × S)
      → ((w : Store T × S) → Ensures IsStored (again w))
      → Ensures IsStored (wait_for key fn again pauses w)
  wait_for-IsStored again [] w h = tt
  wait_for-IsStored again (others ∷ rest) w h =
      replayed_or-IsStored
        (if_free key fn again (wait_for key fn again rest) (lookup key (others w).0.locks))
        (lookup key (others w).0.results) (others w) refl
        (if_free-IsStored again (wait_for key fn again rest) (lookup key (others w).0.locks)
          (others w) (h (others w)) (wait_for-IsStored again rest (others w) h))

  run-IsStored :
      (r : Round T S) (rest : List (Round T S)) (w : Store T × S)
      → Ensures IsStored (run key fn r rest w)
  unfolding run
  run-IsStored r [] w =
      replayed_or-IsStored
        (locked key fn r.token (wait_for key fn (λ w. (err conflict_error, w)) r.pauses)
          (lookup key w.0.locks))
        (lookup key w.0.results) w refl
        (locked-IsStored r.token (wait_for key fn (λ w. (err conflict_error, w)) r.pauses)
          (lookup key w.0.locks) w
          (wait_for-IsStored (λ w. (err conflict_error, w)) r.pauses w (λ w. tt)))
  run-IsStored r (r' ∷ rest) w =
      replayed_or-IsStored
        (locked key fn r.token (wait_for key fn (run key fn r' rest) r.pauses)
          (lookup key w.0.locks))
        (lookup key w.0.results) w refl
        (locked-IsStored r.token (wait_for key fn (run key fn r' rest) r.pauses)
          (lookup key w.0.locks) w
          (wait_for-IsStored (run key fn r' rest) r.pauses w (λ w. run-IsStored r' rest w)))

  run_replayed :
      (r : Round T S) (rest : List (Round T S)) (t : T) (w : Store T × S)
      → lookup key w.0.results ≡ some t
      → run key fn r rest w ≡ (ok (t, true), w)
  unfolding run
  run_replayed r [] t w found = rw found refl
  run_replayed r (r' ∷ rest) t w found = rw found refl

-- When a call under a key returned, whatever the other processes did while it waited, a later call
-- under the key, of any function, returns the same result, says that it is a replay, does not run
-- its function and writes nothing.
pub run_replays :
    {T S : Type 0} (key : ℕ) (fn later : Action S T) (r r' : Round T S)
    (rest rest' : List (Round T S)) (t : T) (b : Bool) (w u : Store T × S)
    → run key fn r rest w ≡ (ok (t, b), u)
    → run key later r' rest' u ≡ (ok (t, true), u)
run_replays key fn later r r' rest rest' t b w u h =
    run_replayed key later r' rest' t u
      (subst (Ensures (IsStored key fn)) h (run-IsStored key fn r rest w))

-- Nothing is left under a key that was removed.
pub lookup-remove_key :
    {A : Type 0} (key : ℕ) (xs : List (ℕ × A)) → lookup key (remove_key key xs) ≡ none
lookup-remove_key key [] = refl
lookup-remove_key key (e ∷ es) = elim (Bool-cases (e.0 == key)) [
  | inl hit ↦ rw hit (lookup-remove_key key es)
  | inr other ↦ rw other (rw other (lookup-remove_key key es))
]

module _ {T S : Type 0} where
  -- When no result is stored, nobody holds the lock and the function throws, the call throws the same,
  -- the lock is free again and no result is stored, so that a later call runs its own function.
  pub run_releases :
      (key : ℕ) (fn : Action S T) (r : Round T S) (rest : List (Round T S)) (e : AppError)
      (st : Store T) (s s' : S)
      → lookup key st.results ≡ none
      → lookup key st.locks ≡ none
      → fn s ≡ (err e, s')
      → (st' : Store T) × (run key fn r rest (st, s) ≡ (err e, (st', s')))
        × (lookup key st'.locks ≡ none)
        × (lookup key st'.results ≡ none)
  unfolding run
  run_releases key fn r rest e st s s' fresh free threw = by rest
    where
      released : Store T
      released = record st { locks = remove_key key ((key, r.token) ∷ st.locks) }

      once : unlocked key fn r.token (record st { locks = (key, r.token) ∷ st.locks }) ≡ released
      once = rw (==_refl key) (rw (==_refl r.token) (rw (==_refl key) refl))

      gone : lookup key released.locks ≡ none
      gone = lookup-remove_key key ((key, r.token) ∷ st.locks)

      twice : unlocked key fn r.token released ≡ released
      twice = rw gone refl

      by :
          (rest : List (Round T S))
          → (st' : Store T) × (run key fn r rest (st, s) ≡ (err e, (st', s')))
            × (lookup key st'.locks ≡ none)
            × (lookup key st'.results ≡ none)
      by [] = (released, rw fresh (rw free (rw threw (rw once (rw twice refl)))), gone, fresh)
      by (r' ∷ rest) =
          (released, rw fresh (rw free (rw threw (rw once (rw twice refl)))), gone, fresh)
