-- ===== src/Prelude/Lists.antt =====
-- Lists as rows and arrays: length, sums, `where` filters, stable sorting (Array.prototype.sort,
-- ORDER BY), and `All`.
use Prim.Native.Nat.{ℕ, zero, suc, ◌+◌, ◌≤◌, min}
use mathlib.Core.Path.{◌≡◌, refl, ap, subst}
use mathlib.Core.Logic.{◌⊎◌, inl, inr}
use mathlib.Core.Bool.{Bool, true}
use mathlib.Core.Option.{Option, none, some}
use mathlib.Core.List.{List, [], ◌∷◌, ◌++◌}
use native.Mathlib.Omega.{arith}
use atlas_commerce.Prelude.Tests.{if◌then◌else◌, Bool-cases}

-- `x` is in the list.
abbrev pub Member : {A : Type 0} → A → List A → Type 0
Member x [] = ⊥
Member x (y ∷ ys) = (x ≡ y) ⊎ Member x ys

module _ {ℓ} {A : Type ℓ} where
  abbrev pub length : List A → ℕ
  length [] = 0
  length (x ∷ xs) = suc (length xs)

  -- `rows[0] ?? null`
  abbrev pub first : List A → Option A
  first [] = none
  first (x ∷ xs) = some x

  -- `LIMIT n`
  abbrev pub take : ℕ → List A → List A
  take zero xs = []
  take (suc n) [] = []
  take (suc n) (x ∷ xs) = x ∷ take n xs

  -- `OFFSET n`
  abbrev pub drop : ℕ → List A → List A
  drop zero xs = xs
  drop (suc n) [] = []
  drop (suc n) (x ∷ xs) = drop n xs

  -- `xs.reduce((sum, x) => sum + f(x), 0)`, `SUM(f)`
  abbrev pub sum_by : (A → ℕ) → List A → ℕ
  sum_by f [] = 0
  sum_by f (x ∷ xs) = f x + sum_by f xs

  -- `xs.filter(p)`, `WHERE p`
  abbrev pub keep_if : (A → Bool) → List A → List A
  keep_if p [] = []
  keep_if p (x ∷ xs) = if p x then x ∷ keep_if p xs else keep_if p xs

  -- A stable sort: an element goes before those that it is `le` to.
  abbrev pub insert_by : (A → A → Bool) → A → List A → List A
  insert_by le x [] = x ∷ []
  insert_by le x (y ∷ ys) = if le x y then x ∷ y ∷ ys else y ∷ insert_by le x ys

  abbrev pub sort_by : (A → A → Bool) → List A → List A
  sort_by le [] = []
  sort_by le (x ∷ xs) = insert_by le x (sort_by le xs)

  abbrev pub All {κ} : (A → Type κ) → List A → Type κ
  All P [] = Unit
  All P (x ∷ xs) = P x × All P xs

  pub sum_by-append : (f : A → ℕ) (xs ys : List A) → sum_by f (xs ++ ys) ≡ sum_by f xs + sum_by f ys
  sum_by-append f [] ys = omega arith
  sum_by-append f (x ∷ xs) ys = omega (arith, sum_by-append f xs ys)

  pub sum_by-insert_by :
      (f : A → ℕ) (le : A → A → Bool) (x : A) (xs : List A)
      → sum_by f (insert_by le x xs) ≡ f x + sum_by f xs
  sum_by-insert_by f le x [] = refl
  sum_by-insert_by f le x (y ∷ ys) = ground (arith, sum_by-insert_by f le x ys)

  pub sum_by-sort_by :
      (f : A → ℕ) (le : A → A → Bool) (xs : List A) → sum_by f (sort_by le xs) ≡ sum_by f xs
  sum_by-sort_by f le [] = refl
  sum_by-sort_by f le (x ∷ xs) =
      omega (arith, sum_by-insert_by f le x (sort_by le xs), sum_by-sort_by f le xs)

  pub sum_by-keep_if :
      (f : A → ℕ) (p : A → Bool) (xs : List A)
      → sum_by f (keep_if p xs) ≡ sum_by (λ x. if p x then f x else 0) xs
  sum_by-keep_if f p [] = refl
  sum_by-keep_if f p (x ∷ xs) = ground (arith, sum_by-keep_if f p xs)

  pub append_assoc : (x y z : List A) → (x ++ y) ++ z ≡ x ++ (y ++ z)
  append_assoc [] y z = refl
  append_assoc (c ∷ cs) y z = ap (λ r. c ∷ r) (append_assoc cs y z)

  pub append_nil : (x : List A) → x ++ [] ≡ x
  append_nil [] = refl
  append_nil (c ∷ cs) = ap (λ r. c ∷ r) (append_nil cs)

  module _ {κ} (P : A → Type κ) where
    pub All-append : (xs ys : List A) → All P xs → All P ys → All P (xs ++ ys)
    All-append [] ys hx hy = hy
    All-append (x ∷ xs) ys hx hy = (hx.0, All-append xs ys hx.1 hy)

    pub All-keep_if : (p : A → Bool) (xs : List A) → All P xs → All P (keep_if p xs)
    All-keep_if p [] h = h
    All-keep_if p (x ∷ xs) h = ground (arith, All-keep_if p xs h.1)

    pub All-insert_by :
        (le : A → A → Bool) (x : A) (xs : List A) → P x → All P xs → All P (insert_by le x xs)
    All-insert_by le x [] h hs = (h, hs)
    All-insert_by le x (y ∷ ys) h hs = ground (arith, All-insert_by le x ys h hs.1)

    pub All-sort_by : (le : A → A → Bool) (xs : List A) → All P xs → All P (sort_by le xs)
    All-sort_by le [] h = h
    All-sort_by le (x ∷ xs) h = All-insert_by le x (sort_by le xs) h.0 (All-sort_by le xs h.1)

    pub All-take : (n : ℕ) (xs : List A) → All P xs → All P (take n xs)
    All-take zero xs h = tt
    All-take (suc n) [] h = tt
    All-take (suc n) (x ∷ xs) h = (h.0, All-take n xs h.1)

    -- Of the rows that a filter keeps, the test holds too.
    pub All-kept :
        (p : A → Bool) (xs : List A) → All P xs → All (λ x. P x × (p x ≡ true)) (keep_if p xs)
    All-kept p [] h = tt
    All-kept p (x ∷ xs) h = elim (Bool-cases (p x)) [
      | inl keeps ↦ rw keeps ((h.0, keeps), All-kept p xs h.1)
      | inr drops ↦ rw drops (All-kept p xs h.1)
    ]

    pub keep_if-All :
        (p : A → Bool) (xs : List A) → All P (keep_if p xs) → All (λ x. p x ≡ true → P x) xs
    keep_if-All p [] h = tt
    keep_if-All p (x ∷ xs) h = elim (Bool-cases (p x)) [
      | inl keeps ↦
          (let h' = subst (λ b. All P (if b then x ∷ keep_if p xs else keep_if p xs)) keeps h in
            ((λ _. h'.0), keep_if-All p xs h'.1))
      | inr drops ↦
          (let h' = subst (λ b. All P (if b then x ∷ keep_if p xs else keep_if p xs)) drops h in
            ((λ is. cc), keep_if-All p xs h'))
    ]

  pub take_all : (n : ℕ) (xs : List A) → length xs ≤ n → take n xs ≡ xs
  take_all zero [] h = refl
  take_all zero (x ∷ xs) h = absurd (omega arith)
  take_all (suc n) [] h = refl
  take_all (suc n) (x ∷ xs) h = ap (λ r. x ∷ r) (take_all n xs (omega arith))

  pub length-take : (n : ℕ) (xs : List A) → length (take n xs) ≡ min n (length xs)
  length-take zero xs = omega arith
  length-take (suc n) [] = omega arith
  length-take (suc n) (x ∷ xs) = omega (arith, length-take n xs)

  length-insert_by :
      (le : A → A → Bool) (x : A) (xs : List A) → length (insert_by le x xs) ≡ suc (length xs)
  length-insert_by le x [] = refl
  length-insert_by le x (y ∷ ys) = ground (arith, length-insert_by le x ys)

  pub length-sort_by : (le : A → A → Bool) (xs : List A) → length (sort_by le xs) ≡ length xs
  length-sort_by le [] = refl
  length-sort_by le (x ∷ xs) =
      omega (arith, length-insert_by le x (sort_by le xs), length-sort_by le xs)
