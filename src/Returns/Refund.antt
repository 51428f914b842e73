-- ===== src/Returns/Refund.antt =====
-- services/returns/src/domain/refundCalculator.ts: the lines of a return and their refund.
use atlas_commerce.Prelude.{
  subst, sym, ◌∙◌, inl, inr, ==_iff, ℕ, ◌+◌, ◌*◌, ◌≤◌, ◌≡◌, refl, Bool, true, false, ◌||◌, Option,
  none, some, List, [], ◌∷◌, ltb, ◌==◌, if◌then◌else◌, sum_by, arith, Option-cases, Bool-cases,
}
use native.Mathlib.Nat.{mul-le-mul_left}
use atlas_commerce.Shared.Errors.{Code, AppError, app_error}
use atlas_commerce.Shared.Tx.{Result, ok, err}
use atlas_commerce.Orders.Types.{OrderStatus}

pub record OrderLineSnapshot : Type 0 where
  pub product_id : ℕ
  pub qty : ℕ
  pub unit_price_cents : ℕ

pub record CreateReturnInputLine : Type 0 where
  pub product_id : ℕ
  pub qty : ℕ

pub record CalculatedReturnLine : Type 0 where
  pub product_id : ℕ
  pub qty : ℕ
  pub refund_amount_cents : ℕ

pub record CalculatedReturn : Type 0 where
  pub lines : List CalculatedReturnLine
  pub total_refund_cents : ℕ

-- `returnsValidationError(code)`
abbrev pub returns_validation_error : Code → AppError
returns_validation_error c = app_error c 422

-- `assertOrderRefundable`
abbrev pub assert_order_refundable : OrderStatus → Result (Unit {0})
assert_order_refundable OrderStatus.confirmed = ok tt
assert_order_refundable OrderStatus.shipped = ok tt
assert_order_refundable _ = err (returns_validation_error Code.order_not_refundable)

abbrev pub or_line : OrderLineSnapshot → ℕ → Option OrderLineSnapshot → Option OrderLineSnapshot
or_line x p (some y) = some y
or_line x p none = if x.product_id == p then some x else none

-- Reading the map that `set` filled: the last item of the product.
unfoldable pub order_line : ℕ → List OrderLineSnapshot → Option OrderLineSnapshot
order_line p [] = none
order_line p (x ∷ xs) = or_line x p (order_line p xs)

abbrev pub seen_before : ℕ → List ℕ → Bool
seen_before p [] = false
seen_before p (q ∷ qs) = p == q || seen_before p qs

abbrev pub refund_line : CreateReturnInputLine → OrderLineSnapshot → CalculatedReturnLine
refund_line l o = record {
  product_id = l.product_id;
  qty = l.qty;
  refund_amount_cents = o.unit_price_cents * l.qty;
}

-- The tests of one line, after the map was read.
abbrev pub checked_line :
    CreateReturnInputLine → Bool → Option OrderLineSnapshot → Result CalculatedReturnLine
checked_line l true o = err (returns_validation_error Code.duplicate_return_line)
checked_line l false none = err (returns_validation_error Code.return_line_not_in_order)
checked_line l false (some o) =
    if ltb o.qty l.qty
    then err (returns_validation_error Code.return_qty_exceeds_ordered)
    else ok (refund_line l o)

abbrev pub with_line :
    Result CalculatedReturnLine
    → Result (List CalculatedReturnLine)
    → Result (List CalculatedReturnLine)
with_line (err e) rest = err e
with_line (ok l) (err e) = err e
with_line (ok l) (ok ls) = ok (l ∷ ls)

-- The `map` over the requested lines, with the products so far.
unfoldable pub refund_lines :
    List OrderLineSnapshot
    → List ℕ
    → List CreateReturnInputLine
    → Result (List CalculatedReturnLine)
refund_lines items seen [] = ok []
refund_lines items seen (l ∷ ls) =
    with_line (checked_line l (seen_before l.product_id seen) (order_line l.product_id items))
      (refund_lines items (l.product_id ∷ seen) ls)

abbrev pub totalled : Result (List CalculatedReturnLine) → Result CalculatedReturn
totalled (err e) = err e
totalled (ok ls) =
    ok (record { lines = ls; total_refund_cents = sum_by (λ l. l.refund_amount_cents) ls })

-- `calculateRefundLines`
unfoldable pub calculate_refund_lines :
    List OrderLineSnapshot → List CreateReturnInputLine → Result CalculatedReturn
calculate_refund_lines items lines = totalled (refund_lines items [] lines)

some_inj : (x y : OrderLineSnapshot) → some x ≡ some y → x ≡ y
some_inj x y h = cc

-- What the items that are not in `seen` cost at their unit price.
abbrev pub cost_unless : List ℕ → OrderLineSnapshot → ℕ
cost_unless seen x = if seen_before x.product_id seen then 0 else x.unit_price_cents * x.qty

cost_unless-le :
    (p : ℕ) (seen : List ℕ) (xs : List OrderLineSnapshot)
    → sum_by (cost_unless (p ∷ seen)) xs ≤ sum_by (cost_unless seen) xs
cost_unless-le p seen [] = omega arith
cost_unless-le p seen (x ∷ xs) = ground (arith, cost_unless-le p seen xs)

cost_unless_one :
    (p : ℕ) (seen : List ℕ) (x : OrderLineSnapshot) → cost_unless (p ∷ seen) x ≤ cost_unless seen x
cost_unless_one p seen x = ground arith

-- The item of the product itself.
cost_unless_item :
    (p : ℕ) (seen : List ℕ) (x : OrderLineSnapshot)
    → x.product_id ≡ p
    → seen_before p seen ≡ false
    → x.unit_price_cents * x.qty + cost_unless (p ∷ seen) x ≤ cost_unless seen x
cost_unless_item p seen x same new =
    let unseen : seen_before x.product_id seen ≡ false =
      subst (λ q. seen_before q seen ≡ false) (sym same) new in
    let hit : (x.product_id == p) ≡ true = (==_iff x.product_id p).1 same in
    rw hit (rw unseen (omega arith))

-- Counting a product as seen takes the cost of its item off.
order_line-cost :
    (p : ℕ) (seen : List ℕ) (xs : List OrderLineSnapshot) (o : OrderLineSnapshot)
    → order_line p xs ≡ some o
    → seen_before p seen ≡ false
    → o.unit_price_cents * o.qty + sum_by (cost_unless (p ∷ seen)) xs ≤ sum_by (cost_unless seen) xs
unfolding order_line
order_line-cost p seen [] o h new = cc
order_line-cost p seen (x ∷ xs) o h new = elim (Option-cases (order_line p xs)) [
  | inr (y, e) ↦
      (let later : some y ≡ some o = subst (λ z. or_line x p z ≡ some o) e h in
        omega (arith, order_line-cost p seen xs o (e ∙ later) new, cost_unless_one p seen x))
  | inl e ↦
      (let here : (if x.product_id == p then some x else none) ≡ some o =
          subst (λ z. or_line x p z ≡ some o) e h in
        elim (Bool-cases (x.product_id == p)) [
          | inl same ↦
              (let it : x ≡ o =
                  some_inj x o (subst (λ b. (if b then some x else none) ≡ some o) same here) in
                subst
                  (λ q.
                    q.unit_price_cents * q.qty + sum_by (cost_unless (p ∷ seen)) (x ∷ xs)
                    ≤ sum_by (cost_unless seen) (x ∷ xs))
                  it
                  (omega (
                    arith,
                    cost_unless-le p seen xs,
                    cost_unless_item p seen x ((==_iff x.product_id p).0 same) new,
                  )))
          | inr other ↦
              (let no : none ≡ some o =
                  subst (λ b. (if b then some x else none) ≡ some o) other here in
                cc)
        ])
]

-- A line that passes the tests is of an item, new, and asks for no more than was ordered.
checked_line_ok :
    (l : CreateReturnInputLine) (b : Bool) (oo : Option OrderLineSnapshot)
    (r : CalculatedReturnLine)
    → checked_line l b oo ≡ ok r
    → (o : OrderLineSnapshot) × (oo ≡ some o)
      × (b ≡ false)
      × (r ≡ refund_line l o)
      × (l.qty ≤ o.qty)
checked_line_ok l true oo r h = cc
checked_line_ok l false none r h = cc
checked_line_ok l false (some o) r h = elim (Bool-cases (ltb o.qty l.qty)) [
  | inl more ↦
      (let no : err (returns_validation_error Code.return_qty_exceeds_ordered) ≡ ok r =
          subst
            (λ b.
              (if b
                then err (returns_validation_error Code.return_qty_exceeds_ordered)
                else ok (refund_line l o))
              ≡ ok r)
            more h in
        cc)
  | inr fits ↦
      (let yes : ok (refund_line l o) ≡ ok r =
          subst
            (λ b.
              (if b
                then err (returns_validation_error Code.return_qty_exceeds_ordered)
                else ok (refund_line l o))
              ≡ ok r)
            fits h in
        let it : r ≡ refund_line l o = cc in (o, refl, refl, it, ground arith))
]

-- A list of refund lines within what the items outside `seen` cost.
abbrev Capped : List OrderLineSnapshot → List ℕ → Result (List CalculatedReturnLine) → Type 0
Capped items seen (ok rs) = sum_by (λ r. r.refund_amount_cents) rs ≤ sum_by (cost_unless seen) items
Capped items seen (err e) = Unit

with_line-Capped :
    (items : List OrderLineSnapshot) (seen : List ℕ) (p : ℕ) (c : Result CalculatedReturnLine)
    (rest : Result (List CalculatedReturnLine))
    → ((r : CalculatedReturnLine)
        → c ≡ ok r
        → r.refund_amount_cents + sum_by (cost_unless (p ∷ seen)) items
          ≤ sum_by (cost_unless seen) items)
    → Capped items (p ∷ seen) rest
    → Capped items seen (with_line c rest)
with_line-Capped items seen p (err e) rest h k = tt
with_line-Capped items seen p (ok r) (err e) h k = tt
with_line-Capped items seen p (ok r) (ok rs) h k = omega (arith, h r refl, k)

refund_lines-Capped :
    (items : List OrderLineSnapshot) (seen : List ℕ) (ls : List CreateReturnInputLine)
    → Capped items seen (refund_lines items seen ls)
unfolding refund_lines
refund_lines-Capped items seen [] = omega arith
refund_lines-Capped items seen (l ∷ ls) =
    with_line-Capped items seen l.product_id
      (checked_line l (seen_before l.product_id seen) (order_line l.product_id items))
      (refund_lines items (l.product_id ∷ seen) ls)
      (λ r passed.
        let (o, found, new, is, fits) =
          checked_line_ok l (seen_before l.product_id seen) (order_line l.product_id items) r
            passed in
        rw is (
          omega (
            arith,
            order_line-cost l.product_id seen items o found new,
            mul-le-mul_left o.unit_price_cents fits,
          )))
      (refund_lines-Capped items (l.product_id ∷ seen) ls)

-- The cost of all items of the order at their unit price.
abbrev pub cost : OrderLineSnapshot → ℕ
cost x = x.unit_price_cents * x.qty

cost_unless_nothing : (xs : List OrderLineSnapshot) → sum_by (cost_unless []) xs ≡ sum_by cost xs
cost_unless_nothing [] = refl
cost_unless_nothing (x ∷ xs) = omega (arith, cost_unless_nothing xs)

-- The refund of a return is never more than the items of the order cost at their unit price, however
-- the request repeats products, and the total is the sum of its lines.
pub calculate_refund_lines_le :
    (items : List OrderLineSnapshot) (lines : List CreateReturnInputLine) (c : CalculatedReturn)
    → calculate_refund_lines items lines ≡ ok c
    → (c.total_refund_cents ≡ sum_by (λ r. r.refund_amount_cents) c.lines)
      × (c.total_refund_cents ≤ sum_by cost items)
unfolding calculate_refund_lines
calculate_refund_lines_le items lines c h =
    go (refund_lines items [] lines) (refund_lines-Capped items [] lines) h
  where
    go :
        (x : Result (List CalculatedReturnLine))
        → Capped items [] x
        → totalled x ≡ ok c
        → (c.total_refund_cents ≡ sum_by (λ r. r.refund_amount_cents) c.lines)
          × (c.total_refund_cents ≤ sum_by cost items)
    go (err e) k h = cc
    go (ok rs) k h =
        let built : CalculatedReturn = record {
          lines = rs;
          total_refund_cents = sum_by (λ l. l.refund_amount_cents) rs;
        } in
        let it : built ≡ c = cc in
        subst
          (λ c.
            (c.total_refund_cents ≡ sum_by (λ r. r.refund_amount_cents) c.lines)
            × (c.total_refund_cents ≤ sum_by cost items))
          it (refl, omega (arith, k, cost_unless_nothing items))
