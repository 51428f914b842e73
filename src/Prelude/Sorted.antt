-- ===== src/Prelude/Sorted.antt =====
-- The head of a list that was sorted by a total preorder.
use Prim.Native.Nat.{ℕ, zero, suc}
use mathlib.Core.Path.{◌≡◌, sym, subst}
use mathlib.Core.Logic.{◌⊎◌, inl, inr}
use mathlib.Core.Bool.{Bool, true}
use mathlib.Core.Option.{some}
use mathlib.Core.List.{List, [], ◌∷◌}
use atlas_commerce.Prelude.Tests.{if◌then◌else◌, Bool-cases}
use atlas_commerce.Prelude.Lists.{
  first, take, keep_if, insert_by, sort_by, All, All-insert_by, Member,
}

module _ {A : Type 0} (le : A → A → Bool) where
  -- The comparison is a total preorder.
  abbrev pub IsTotal : Type 0
  IsTotal =
      ((x y : A) → (le x y ≡ true) ⊎ (le y x ≡ true))
      × ((x y z : A) → le x y ≡ true → le y z ≡ true → le x z ≡ true)

  abbrev pub HasLeast : List A → Type 0
  HasLeast [] = Unit
  HasLeast (x ∷ xs) = All (λ y. le x y ≡ true) (x ∷ xs)

  le-All :
      (x y : A) (ys : List A)
      → ((z : A) → le y z ≡ true → le x z ≡ true)
      → All (λ z. le y z ≡ true) ys
      → All (λ z. le x z ≡ true) ys
  le-All x y [] t h = tt
  le-All x y (z ∷ zs) t (h, hs) = (t z h, le-All x y zs t hs)

  le_self : IsTotal → (x : A) → le x x ≡ true
  le_self (total, trans) x = elim (total x x) [ inl e ↦ e | inr e ↦ e ]

  insert_by-HasLeast : IsTotal → (x : A) (xs : List A) → HasLeast xs → HasLeast (insert_by le x xs)
  insert_by-HasLeast t x [] h = (le_self t x, tt)
  insert_by-HasLeast t x (y ∷ ys) h = elim (Bool-cases (le x y)) [
    | inl before ↦ rw before (le_self t x, le-All x y (y ∷ ys) (λ z r. t.1 x y z before r) h)
    | inr after ↦
        (let back : le y x ≡ true = elim (t.0 x y) [ inl e ↦ cc | inr e ↦ e ] in
          rw after (h.0, All-insert_by (λ z. le y z ≡ true) le x ys back h.1))
  ]

  sort_by-HasLeast : IsTotal → (xs : List A) → HasLeast (sort_by le xs)
  sort_by-HasLeast t [] = tt
  sort_by-HasLeast t (x ∷ xs) = insert_by-HasLeast t x (sort_by le xs) (sort_by-HasLeast t xs)

  insert_by-Member : (m x : A) (xs : List A) → Member m (insert_by le x xs) → Member m (x ∷ xs)
  insert_by-Member m x [] h = h
  insert_by-Member m x (y ∷ ys) h = elim (Bool-cases (le x y)) [
    | inl before ↦ subst (λ b. Member m (if b then x ∷ y ∷ ys else y ∷ insert_by le x ys)) before h
    | inr after ↦
        (let h' : Member m (y ∷ insert_by le x ys) =
            subst (λ b. Member m (if b then x ∷ y ∷ ys else y ∷ insert_by le x ys)) after h in
          elim h' [
            | inl e ↦ inr (inl e)
            | inr later ↦ elim (insert_by-Member m x ys later) [
              | inl e ↦ inl e
              | inr e ↦ inr (inr e)
            ]
          ])
  ]

  pub sort_by-Member : (m : A) (xs : List A) → Member m (sort_by le xs) → Member m xs
  sort_by-Member m [] h = h
  sort_by-Member m (x ∷ xs) h = elim (insert_by-Member m x (sort_by le xs) h) [
    | inl e ↦ inl e
    | inr later ↦ inr (sort_by-Member m xs later)
  ]

  insert_by-All :
      (P : A → Type 0) (x : A) (xs : List A) → All P (insert_by le x xs) → P x × All P xs
  insert_by-All P x [] h = h
  insert_by-All P x (y ∷ ys) h = elim (Bool-cases (le x y)) [
    | inl before ↦ subst (λ b. All P (if b then x ∷ y ∷ ys else y ∷ insert_by le x ys)) before h
    | inr after ↦
        (let h' : All P (y ∷ insert_by le x ys) =
            subst (λ b. All P (if b then x ∷ y ∷ ys else y ∷ insert_by le x ys)) after h in
          let (p, ps) = insert_by-All P x ys h'.1 in (p, (h'.0, ps)))
  ]

  pub sort_by-All : (P : A → Type 0) (xs : List A) → All P (sort_by le xs) → All P xs
  sort_by-All P [] h = tt
  sort_by-All P (x ∷ xs) h =
      let (p, ps) = insert_by-All P x (sort_by le xs) h in (p, sort_by-All P xs ps)

  -- The head of the sorted list is in the list and goes before everything in it.
  pub first-sort_by :
      (xs : List A) (m : A)
      → IsTotal
      → first (sort_by le xs) ≡ some m
      → Member m xs × All (λ y. le m y ≡ true) xs
  first-sort_by xs m t h = (
    sort_by-Member m xs (here (sort_by le xs) h),
    sort_by-All (λ y. le m y ≡ true) xs (least (sort_by le xs) (sort_by-HasLeast t xs) h),
  )
    where
      here : (ys : List A) → first ys ≡ some m → Member m ys
      here [] h = cc
      here (y ∷ ys) h = let it : m ≡ y = cc in inl it

      least : (ys : List A) → HasLeast ys → first ys ≡ some m → All (λ y. le m y ≡ true) ys
      least [] g h = tt
      least (y ∷ ys) g h =
          let it : y ≡ m = cc in subst (λ m. All (λ z. le m z ≡ true) (y ∷ ys)) it g

module _ {A : Type 0} where
  pub keep_if-Member :
      (p : A → Bool) (x : A) (xs : List A) → Member x (keep_if p xs) → Member x xs × (p x ≡ true)
  keep_if-Member p x [] m = elim m [ ]
  keep_if-Member p x (y ∷ ys) m = elim (Bool-cases (p y)) [
    | inl keeps ↦
        (let m' : Member x (y ∷ keep_if p ys) =
            subst (λ b. Member x (if b then y ∷ keep_if p ys else keep_if p ys)) keeps m in
          elim m' [
            | inl same ↦ (inl same, subst (λ z. p z ≡ true) (sym same) keeps)
            | inr later ↦ (let (in_it, is) = keep_if-Member p x ys later in (inr in_it, is))
          ])
    | inr drops ↦
        (let (in_it, is) =
            keep_if-Member p x ys
              (subst (λ b. Member x (if b then y ∷ keep_if p ys else keep_if p ys)) drops m) in
          (inr in_it, is))
  ]

  pub take-Member : (n : ℕ) (x : A) (xs : List A) → Member x (take n xs) → Member x xs
  take-Member zero x xs m = elim m [ ]
  take-Member (suc n) x [] m = elim m [ ]
  take-Member (suc n) x (y ∷ ys) (inl same) = inl same
  take-Member (suc n) x (y ∷ ys) (inr m) = inr (take-Member n x ys m)

  pub All-Member : (P : A → Type 0) (x : A) (xs : List A) → All P xs → Member x xs → P x
  All-Member P x [] h m = elim m [ ]
  All-Member P x (y ∷ ys) (h, hs) (inl same) = subst P (sym same) h
  All-Member P x (y ∷ ys) (h, hs) (inr m) = All-Member P x ys hs m
