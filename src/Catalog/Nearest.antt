-- ===== src/Catalog/Nearest.antt =====
-- Half-even rounding as a specification, for domain/rounding.ts of services/catalog.
use atlas_commerce.Prelude.{
  ℕ, suc, ◌+◌, ◌*◌, ◌%◌, ◌≤◌, ◌<◌, ◌≡◌, subst, inl, inr, ◌⊎◌, ltb, ltb→lt, ◌↔◌, if◌then◌else◌,
  arith, Bool-cases,
}
use native.Mathlib.Nat.{mul-le-mul_right, suc-mul, div-add-mod', mod-lt}
use atlas_commerce.Catalog.Rounding.{
  Double, floor, fraction, even_of, even_of_within, round_half_even,
}

-- `n` is a whole number nearest to the value, and even when the value lies half-way.
abbrev pub IsNearest : Double → ℕ → Type 0
IsNearest v n =
    (2 * (n * v.den) ≤ 2 * v.num + v.den)
    × (2 * v.num ≤ 2 * (n * v.den) + v.den)
    × ((2 * (n * v.den) ≡ 2 * v.num + v.den) ⊎ (2 * v.num ≡ 2 * (n * v.den) + v.den) → n % 2 ≡ 0)

rounded : ℕ → ℕ → ℕ → ℕ
rounded q r den = if ltb (2 * r) den then q else if ltb den (2 * r) then suc q else even_of q

even_of-cases : (q : ℕ) → (even_of q ≡ q) ⊎ (even_of q ≡ suc q)
even_of-cases q = ground arith

rounded-IsNearest :
    (num den q r : ℕ)
    → q * den + r ≡ num
    → r < den
    → IsNearest (record { num = num; den = den }) (rounded q r den)
unfolding rounded
rounded-IsNearest num den q r parts small = elim (Bool-cases (ltb (2 * r) den)) [
  | inl low ↦
      (let lt = ltb→lt (2 * r) den low in
        rw low
          (omega arith, omega arith, λ tie. elim tie [ inl e ↦ omega arith | inr e ↦ omega arith ]))
  | inr notlow ↦ elim (Bool-cases (ltb den (2 * r))) [
    | inl high ↦
        (let gt = ltb→lt den (2 * r) high in
          let more = suc-mul q den in
          rw notlow (
            rw high (
              omega arith,
              omega arith,
              λ tie. elim tie [ inl e ↦ omega arith | inr e ↦ omega arith ],
            )))
    | inr nothigh ↦
        (let half : 2 * r ≡ den = ground arith in
          let (_, _, even) = even_of_within q in
          let more = suc-mul q den in
          rw notlow (
            rw nothigh (elim (even_of-cases q) [
              | inl e ↦ (rw e (omega arith), rw e (omega arith), λ tie. even)
              | inr e ↦ (rw e (omega arith), rw e (omega arith), λ tie. even)
            ])))
  ]
]

-- Two whole numbers one apart cannot both be even.
pub IsNearest-le : (v : Double) (m n : ℕ) → 0 < v.den → IsNearest v m → IsNearest v n → m ≤ n
IsNearest-le v m n pos (a, b, c) (d, e, f) = elim (Bool-cases (ltb n m)) [
  | inr notless ↦ ground arith
  | inl less ↦
      (let lt = ltb→lt n m less in
        let step = mul-le-mul_right v.den lt in
        let more = suc-mul n v.den in
        let even_m : m % 2 ≡ 0 = c (inl (omega arith)) in
        let even_n : n % 2 ≡ 0 = f (inr (omega arith)) in
        elim (Bool-cases (ltb (suc n) m)) [
          | inl two ↦
              (let step' = mul-le-mul_right v.den (ltb→lt (suc n) m two) in
                let more' = suc-mul (suc n) v.den in omega arith)
          | inr one ↦ ground arith
        ])
]

pub round_half_even-IsNearest : (v : Double) → 0 < v.den → IsNearest v (round_half_even v)
unfolding round_half_even rounded
round_half_even-IsNearest v pos =
    rounded-IsNearest v.num v.den (floor v) (fraction v) (div-add-mod' v.num v.den)
      (mod-lt v.num pos)

-- `roundHalfEven` is half-even rounding: its result is the one whole number that is nearest to the
-- value and is even when the value lies half-way between two.
pub round_half_even_iff : (v : Double) (n : ℕ) → 0 < v.den → (round_half_even v ≡ n) ↔ IsNearest v n
round_half_even_iff v n pos =
    let nearest = round_half_even-IsNearest v pos in
    (
      (λ e. subst (IsNearest v) e nearest),
      (λ h.
          let up = IsNearest-le v (round_half_even v) n pos nearest h in
          let down = IsNearest-le v n (round_half_even v) pos h nearest in omega arith),
    )
