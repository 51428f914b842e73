-- ===== src/Gateway/Limits.antt =====
-- How many requests of one key pass in a window, for the middlewares of services/gateway.
use atlas_commerce.Prelude.{
  ℕ, ◌+◌, ◌-◌, ◌≤◌, ◌<◌, ◌≡◌, ◌∙◌, refl, sym, subst, inl, inr, ◌⊎◌, Bool, true, false, Option, none,
  some, List, [], ◌∷◌, ◌==◌, ==_iff, ==_refl, ne→==_false, lt→ltb, leb→le, if◌then◌else◌, All,
  arith, Bool-cases,
}
use atlas_commerce.Shared.Rows.{find_row, find_row-replace_row, find_row-replace_row_other}
use atlas_commerce.Gateway.Access.{
  Counter, GatewayDb, RateLimitOptions, RateLimitDecision, Answer, has_api_key, authenticate,
  counter_key, counted, stored, increment, decision, check, answer_of, admit,
}

-- A request: its time and its key.
pub record Request : Type 0 where
  pub time : ℕ
  pub raw_key : Option ℕ

abbrev pub is_of : ℕ → Option ℕ → Bool
is_of key none = false
is_of key (some k) = k == key

abbrev pub is_passed : Answer → Bool
is_passed Answer.passes = true
is_passed _ = false

-- How many of the requests, in their order, are of the key and pass.
unfoldable pub passed : RateLimitOptions → ℕ → List Request → GatewayDb → ℕ
passed options key [] s = 0
passed options key (r ∷ rs) s =
    let (answer, t) = admit options r.time r.raw_key s in
    let rest = passed options key rs t in
    if is_of key r.raw_key then (if is_passed answer then 1 + rest else rest) else rest

-- The key has made `n` requests in a window that ends at `e`.
abbrev pub HasMade : ℕ → ℕ → ℕ → GatewayDb → Type 0
HasMade key n e s =
    find_row counter_key key s.counters ≡ some (record { key = key; count = n; expires_at = e })

-- A request of the key before the end of the window.
increment_own :
    (now window key n e : ℕ) (s : GatewayDb)
    → now < e
    → HasMade key n e s
    → ((increment now window key s).0.count ≡ n + 1)
      × HasMade key (n + 1) e (increment now window key s).1
unfolding increment
increment_own now window key n e s early made =
    let c : Counter = record { key = key; count = n; expires_at = e } in
    let c' : Counter = record { key = key; count = n + 1; expires_at = e } in
    rw made (
      rw (lt→ltb now e early)
        (refl, find_row-replace_row counter_key key s.counters c c' refl made))

counted-key : (now window key : ℕ) (o : Option Counter) → (counted now window key o).key ≡ key
counted-key now window key none = refl
counted-key now window key (some c) = ground arith

-- A request of another key.
increment_other :
    (now window other key n e : ℕ) (s : GatewayDb)
    → (other ≡ key → ⊥)
    → HasMade key n e s
    → HasMade key n e (increment now window other s).1
unfolding increment
increment_other now window other key n e s differs made = by (find_row counter_key other s.counters)
  where
    by :
        (o : Option Counter)
        → find_row counter_key key (stored (counted now window other o) o s.counters)
          ≡ some (record { key = key; count = n; expires_at = e })
    by none = rw (ne→==_false other key differs) made
    by (some c) =
        find_row-replace_row_other counter_key key s.counters (counted now window other (some c))
          (λ same. differs (sym (counted-key now window other (some c)) ∙ same))
        ∙ made

answer_of-allowed : (d : RateLimitDecision) → is_passed (answer_of d) ≡ true → d.allowed ≡ true
answer_of-allowed d h = elim (Bool-cases d.allowed) [
  | inl yes_it ↦ yes_it
  | inr refused ↦ (let no_pass : false ≡ true = sym (rw refused refl) ∙ h in cc)
]

-- What a request does to the count of the key, and whether it passes: it counts and is within the limit,
-- or it does not count and is not one of the key that passes.
admit_lem :
    (options : RateLimitOptions) (key n e time : ℕ) (raw : Option ℕ) (s : GatewayDb)
    → time < e
    → HasMade key n e s
    → ((is_of key raw ≡ true)
        × HasMade key (n + 1) e (admit options time raw s).1
        × (is_passed (admit options time raw s).0 ≡ true → n + 1 ≤ options.limit))
      ⊎ (HasMade key n e (admit options time raw s).1
          × (is_of key raw ≡ true → is_passed (admit options time raw s).0 ≡ false))
unfolding admit authenticate check
admit_lem options key n e time none s early made = inr (made, λ h. refl)
admit_lem options key n e time (some k) s early made =
    elim (Bool-cases (has_api_key k s.api_keys)) [
      | inr unknown_it ↦ rw unknown_it (inr (made, λ h. refl))
      | inl known ↦ rw known (elim (Bool-cases (k == key)) [
        | inr other ↦ inr (
          increment_other time options.window_sec k key n e s
              (λ same. let hit = (==_iff k key).1 same in cc) made,
          λ h. cc,
        )
        | inl same ↦
            (let (count, made') = increment_own time options.window_sec key n e s early made in
              rw ((==_iff k key).0 same) (
                inl (
                  ==_refl key,
                  made',
                  λ p.
                      subst (λ c. c ≤ options.limit) count
                        (leb→le (increment time options.window_sec key s).0.count options.limit (
                          answer_of-allowed
                            (decision options (increment time options.window_sec key s).0) p)),
                )))
      ])
    ]

-- While a window of a key lasts, in which the key has made `n` requests, at most `limit - n` more of its
-- requests pass, however the requests of other keys come in between.
pub passed_le :
    (options : RateLimitOptions) (key n e : ℕ) (rs : List Request) (s : GatewayDb)
    → HasMade key n e s
    → All (λ r. r.time < e) rs
    → passed options key rs s ≤ options.limit - n
unfolding passed
passed_le options key n e [] s made early = omega arith
passed_le options key n e (r ∷ rs) s made (now, later) =
    let (answer, t) = admit options r.time r.raw_key s in
    elim (admit_lem options key n e r.time r.raw_key s now made) [
      | inl (mine, made', within) ↦
          (let ih =
              passed_le options key (n + 1) e rs (admit options r.time r.raw_key s).1 made' later in
            rw mine (elim (Bool-cases (is_passed (admit options r.time r.raw_key s).0)) [
              | inl did ↦ (let fits = within did in rw did (omega arith))
              | inr did_not ↦ rw did_not (omega arith)
            ]))
      | inr (made', refused) ↦
          (let ih = passed_le options key n e rs (admit options r.time r.raw_key s).1 made' later in
            elim (Bool-cases (is_of key r.raw_key)) [
              | inl mine ↦ rw mine (rw (refused mine) ih)
              | inr not_mine ↦ rw not_mine ih
            ])
    ]
