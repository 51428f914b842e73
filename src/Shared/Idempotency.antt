-- ===== src/Shared/Idempotency.antt =====
-- packages/shared/src/idempotency.ts: `run`, over the cache's result and lock entries. The time to
-- live is longer than the runs that are looked at. A key is a number.
use atlas_commerce.Prelude.{
  ℕ, Bool, true, false, Option, none, some, List, [], ◌∷◌, ◌==◌, if◌then◌else◌,
}
use atlas_commerce.Shared.Errors.{conflict_error}
use atlas_commerce.Shared.Rows.{find_row}
use atlas_commerce.Shared.Tx.{Action, Result, ok, err}

-- The entries under `idempotency:result:` and `idempotency:lock:`, by key.
pub record Store (T : Type 0) : Type 0 where
  pub results : List (ℕ × T)
  pub locks : List (ℕ × ℕ)

-- A call of `run`: the token that it draws, and what the other processes do in each of its pauses
-- until its deadline.
pub record Round (T S : Type 0) : Type 0 where
  pub token : ℕ
  pub pauses : List (Store T × S → Store T × S)

abbrev pub entry_key {ℓ} : {A : Type ℓ} → ℕ × A → ℕ
entry_key e = e.0

abbrev pub entry_value {ℓ} : {A : Type ℓ} → Option (ℕ × A) → Option A
entry_value none = none
entry_value (some e) = some (e.1)

-- `cache.get`, `getRaw`
abbrev pub lookup {ℓ} : {A : Type ℓ} → ℕ → List (ℕ × A) → Option A
lookup key xs = entry_value (find_row entry_key key xs)

-- `delRaw`
abbrev pub remove_key {ℓ} : {A : Type ℓ} → ℕ → List (ℕ × A) → List (ℕ × A)
remove_key key [] = []
remove_key key (e ∷ es) = let rest = remove_key key es in if e.0 == key then rest else e ∷ rest

module _ {T S : Type 0} (key : ℕ) (fn : Action S T) where
  abbrev pub deleted_if : Bool → Store T → Store T
  deleted_if true st = record st { locks = remove_key key st.locks }
  deleted_if false st = st

  -- `if (currentToken === token) await internals.delRaw(lockKey)`
  abbrev pub unlocked_if : ℕ → Option ℕ → Store T → Store T
  unlocked_if token none st = st
  unlocked_if token (some t) st = deleted_if (t == token) st

  abbrev pub unlocked : ℕ → Store T → Store T
  unlocked token st = unlocked_if token (lookup key st.locks) st

  abbrev pub stored : T → Store T → Store T
  stored t st = record st { results = (key, t) ∷ st.results }

  -- The `try`, `catch` and `finally`, for what `fn` did.
  abbrev pub settled : ℕ → Store T → Result T × S → Result (T × Bool) × (Store T × S)
  settled token st (ok t, s) = (ok (t, false), (unlocked token (stored t st), s))
  settled token st (err e, s) = (err e, (unlocked token (unlocked token st), s))

  -- `setNx`, and what follows for either answer
  abbrev pub locked :
      ℕ → Action (Store T × S) (T × Bool) → Option ℕ → Action (Store T × S) (T × Bool)
  locked token busy none (st, s) =
      settled token (record st { locks = (key, token) ∷ st.locks }) (fn s)
  locked token busy (some t) w = busy w

  abbrev pub replayed_or :
      Action (Store T × S) (T × Bool) → Option T → Action (Store T × S) (T × Bool)
  replayed_or other (some t) w = (ok (t, true), w)
  replayed_or other none w = other w

  abbrev pub if_free :
      Action (Store T × S) (T × Bool)
      → Action (Store T × S) (T × Bool)
      → Option ℕ
      → Action (Store T × S) (T × Bool)
  if_free again wait none w = again w
  if_free again wait (some t) w = wait w

  -- The loop until the deadline; `again` is `this.run`.
  abbrev pub wait_for :
      Action (Store T × S) (T × Bool)
      → List (Store T × S → Store T × S)
      → Action (Store T × S) (T × Bool)
  wait_for again [] w = (err conflict_error, w)
  wait_for again (others ∷ rest) w =
      let w' = others w in
      replayed_or (if_free again (wait_for again rest) (lookup key w'.0.locks))
        (lookup key w'.0.results) w'

  -- `run`: its own round, and those of the calls of itself that it makes.
  unfoldable pub run : Round T S → List (Round T S) → Action (Store T × S) (T × Bool)
  run r [] w =
      replayed_or
        (locked r.token (wait_for (λ w. (err conflict_error, w)) r.pauses) (lookup key w.0.locks))
        (lookup key w.0.results) w
  run r (r' ∷ rest) w =
      replayed_or (locked r.token (wait_for (run r' rest) r.pauses) (lookup key w.0.locks))
        (lookup key w.0.results) w
