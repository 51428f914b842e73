-- ===== src/Shared/Rows.antt =====
-- A table with a primary key as a list of rows: the statements of the repositories that read or
-- update one row by its id.
use atlas_commerce.Prelude.{
  ℕ, ◌≡◌, refl, sym, ap, ◌∙◌, subst, inl, inr, Bool, true, Option, none, some, List, [], ◌∷◌, ◌==◌,
  if◌then◌else◌, Bool-cases, All, ==_iff, ne→==_false,
}

module _ {ℓ} {A : Type ℓ} (key : A → ℕ) where
  -- SELECT ... WHERE id = $1, and `rows[0] ?? null`
  abbrev pub find_row : ℕ → List A → Option A
  find_row id [] = none
  find_row id (x ∷ xs) = if key x == id then some x else find_row id xs

  abbrev pub replace_row : A → List A → List A
  replace_row r [] = []
  replace_row r (x ∷ xs) = if key x == key r then r ∷ xs else x ∷ replace_row r xs

  abbrev pub set_row : (A → Bool) → (A → A) → List A → Option A → Option A × List A
  set_row where_ set xs none = (none, xs)
  set_row where_ set xs (some r) =
      if where_ r then (some (set r), replace_row (set r) xs) else (none, xs)

  -- UPDATE ... SET ... WHERE id = $1 AND ... RETURNING *
  abbrev pub update_row : (A → Bool) → (A → A) → ℕ → List A → Option A × List A
  update_row where_ set id xs = set_row where_ set xs (find_row id xs)

  pub find_row-key : (id : ℕ) (xs : List A) (r : A) → find_row id xs ≡ some r → key r ≡ id
  find_row-key id [] r h = cc
  find_row-key id (x ∷ xs) r h = elim (Bool-cases (key x == id)) [
    | inl hit ↦
        (let it : some x ≡ some r =
            subst (λ b. (if b then some x else find_row id xs) ≡ some r) hit h in
          let same : x ≡ r = cc in ap key (sym same) ∙ (==_iff (key x) id).0 hit)
    | inr miss ↦
        find_row-key id xs r (subst (λ b. (if b then some x else find_row id xs) ≡ some r) miss h)
  ]

  pub find_row-replace_row :
      (id : ℕ) (xs : List A) (r r' : A)
      → key r' ≡ id
      → find_row id xs ≡ some r
      → find_row id (replace_row r' xs) ≡ some r'
  find_row-replace_row id [] r r' same h = cc
  find_row-replace_row id (x ∷ xs) r r' same h = rw same (elim (Bool-cases (key x == id)) [
    | inl hit ↦ rw hit (let at = (==_iff (key r') id).1 same in rw at refl)
    | inr miss ↦ rw miss (
        rw miss (
          find_row-replace_row id xs r r' same
            (subst (λ b. (if b then some x else find_row id xs) ≡ some r) miss h)))
  ])

  pub find_row-replace_row_other :
      (id : ℕ) (xs : List A) (r' : A)
      → (key r' ≡ id → ⊥)
      → find_row id (replace_row r' xs) ≡ find_row id xs
  find_row-replace_row_other id [] r' other = refl
  find_row-replace_row_other id (x ∷ xs) r' other = elim (Bool-cases (key x == key r')) [
    | inl hit ↦
        (let same = (==_iff (key x) (key r')).0 hit in
          rw hit (
            rw (ne→==_false (key r') id other) (rw same (rw (ne→==_false (key r') id other) refl))))
    | inr miss ↦ rw miss (rw (find_row-replace_row_other id xs r' other) refl)
  ]

  module _ {κ} (P : A → Type κ) where
    pub All-find_row : (id : ℕ) (xs : List A) (r : A) → All P xs → find_row id xs ≡ some r → P r
    All-find_row id [] r h e = cc
    All-find_row id (x ∷ xs) r (h, hs) e = elim (Bool-cases (key x == id)) [
      | inl hit ↦
          (let it : some x ≡ some r =
              subst (λ b. (if b then some x else find_row id xs) ≡ some r) hit e in
            let same : x ≡ r = cc in subst P same h)
      | inr miss ↦
          All-find_row id xs r hs
            (subst (λ b. (if b then some x else find_row id xs) ≡ some r) miss e)
    ]

    pub All-replace_row : (r : A) (xs : List A) → All P xs → P r → All P (replace_row r xs)
    All-replace_row r [] h p = tt
    All-replace_row r (x ∷ xs) (h, hs) p = elim (Bool-cases (key x == key r)) [
      | inl hit ↦ rw hit (p, hs)
      | inr miss ↦ rw miss (h, All-replace_row r xs hs p)
    ]

-- A condition that is there only when the filter has the field.
abbrev pub fits_id : Option ℕ → ℕ → Bool
fits_id none x = true
fits_id (some y) x = x == y
