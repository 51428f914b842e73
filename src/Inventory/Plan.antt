-- ===== src/Inventory/Plan.antt =====
-- The allocation plan and the merging of the requested lines (allocation.ts and stockMath.ts of
-- services/inventory).
use atlas_commerce.Prelude.{
  ℕ, ◌+◌, ◌-◌, ◌≤◌, ◌<◌, ◌≡◌, refl, inl, inr, List, [], ◌∷◌, arith, ◌==◌, leb, if◌then◌else◌, All,
  min, sum_by, keep_if, sort_by, insert_by, sum_by-sort_by, All-sort_by, All-insert_by, ◌≢◌,
  Bool-cases,
}
use atlas_commerce.Shared.Tx.{ok, err}
use atlas_commerce.Inventory.Types.{AllocationCandidate, AllocationLine, RequestedLine}
use atlas_commerce.Inventory.Allocation.{
  insufficient_stock, add_total, merge_lines, by_product, normalize_reservation_lines, by_available,
  is_candidate, allocate, plan_allocations,
}

abbrev pub qty_of : AllocationLine → ℕ
qty_of l = l.qty

abbrev pub available_of : AllocationCandidate → ℕ
available_of c = c.available

abbrev pub alloc_at : ℕ → AllocationLine → ℕ
alloc_at w l = if l.warehouse_id == w then l.qty else 0

abbrev pub available_at : ℕ → AllocationCandidate → ℕ
available_at w c = if c.warehouse_id == w then c.available else 0

allocate-sum :
    (p n : ℕ) (cs : List AllocationCandidate)
    → (sum_by qty_of (allocate p n cs).0 + (allocate p n cs).1 ≡ n)
      × ((allocate p n cs).1 ≡ n - sum_by available_of cs)
unfolding allocate
allocate-sum p n [] = (omega arith, omega arith)
allocate-sum p n (c ∷ cs) = ground (arith, allocate-sum p (n - min n c.available) cs)

allocate-within :
    (p n w : ℕ) (cs : List AllocationCandidate)
    → sum_by (alloc_at w) (allocate p n cs).0 ≤ sum_by (available_at w) cs
unfolding allocate
allocate-within p n w [] = omega arith
allocate-within p n w (c ∷ cs) = ground (arith, allocate-within p (n - min n c.available) w cs)

-- A line of the product with a positive quantity.
abbrev pub IsPart : ℕ → AllocationLine → Type 0
IsPart p l = (l.product_id ≡ p) × (0 < l.qty)

abbrev HasSome : AllocationCandidate → Type 0
HasSome c = 0 < c.available

allocate-IsPart :
    (p n : ℕ) (cs : List AllocationCandidate) → All HasSome cs → All (IsPart p) (allocate p n cs).0
unfolding allocate
allocate-IsPart p n [] h = tt
allocate-IsPart p n (c ∷ cs) h = elim (Bool-cases (n == 0)) [
  | inl e ↦ rw e tt
  | inr e ↦ rw e ((refl, ground arith), allocate-IsPart p (n - min n c.available) cs h.1)
]

candidates-HasSome :
    (p : ℕ) (cs : List AllocationCandidate) → All HasSome (keep_if (is_candidate p) cs)
candidates-HasSome p [] = tt
candidates-HasSome p (c ∷ cs) = ground (arith, candidates-HasSome p cs)

-- What the candidates of a product have available together.
abbrev pub total_available : ℕ → List AllocationCandidate → ℕ
total_available p cs = sum_by available_of (keep_if (is_candidate p) cs)

-- Both outcomes of a plan.
plan_allocations_lem :
    (p n : ℕ) (cs : List AllocationCandidate)
    → (n ≤ total_available p cs
        → (lines : List AllocationLine) × (plan_allocations p n cs ≡ ok lines)
          × (sum_by qty_of lines ≡ n)
          × All (IsPart p) lines
          × ((w : ℕ)
              → sum_by (alloc_at w) lines ≤ sum_by (available_at w) (keep_if (is_candidate p) cs)))
      × (total_available p cs < n → plan_allocations p n cs ≡ err insufficient_stock)
unfolding plan_allocations
plan_allocations_lem p n cs =
    let kept = keep_if (is_candidate p) cs in
    let sorted = sort_by by_available kept in
    let total = sum_by-sort_by available_of by_available kept in
    let sums = allocate-sum p n sorted in
    (
      (λ h.
          let done : (allocate p n sorted).1 ≡ 0 = omega (arith, sums, total) in
          (
            (allocate p n sorted).0,
            rw done refl,
            omega (arith, sums, done),
            allocate-IsPart p n sorted
                (All-sort_by HasSome by_available kept (candidates-HasSome p cs)),
            λ w. omega (
              arith,
              allocate-within p n w sorted,
              sum_by-sort_by (available_at w) by_available kept,
            ),
          )),
      λ h.
          let short : 0 < (allocate p n sorted).1 = omega (arith, sums, total) in
          ground (arith, short),
    )

abbrev pub requested_of : ℕ → RequestedLine → ℕ
requested_of p l = if l.product_id == p then l.qty else 0

add_total-sum :
    (p : ℕ) (l : RequestedLine) (ts : List RequestedLine)
    → sum_by (requested_of p) (add_total l ts) ≡ requested_of p l + sum_by (requested_of p) ts
unfolding add_total
add_total-sum p l [] = refl
add_total-sum p l (t ∷ ts) = ground (arith, add_total-sum p l ts)

merge_lines-sum :
    (p : ℕ) (ts ls : List RequestedLine)
    → sum_by (requested_of p) (merge_lines ts ls)
      ≡ sum_by (requested_of p) ts + sum_by (requested_of p) ls
unfolding merge_lines
merge_lines-sum p ts [] = omega arith
merge_lines-sum p ts (l ∷ ls) =
    omega (arith, merge_lines-sum p (add_total l ts) ls, add_total-sum p l ts)

-- The products rise strictly along the list.
abbrev pub Ascending : List RequestedLine → Type 0
Ascending [] = Unit {0}
Ascending (l ∷ ls) = All (λ m. l.product_id < m.product_id) ls × Ascending ls

-- No product stands twice.
abbrev Differs : ℕ → List RequestedLine → Type 0
Differs p = All (λ m. m.product_id ≢ p)

abbrev pub Distinct : List RequestedLine → Type 0
Distinct [] = Unit {0}
Distinct (l ∷ ls) = Differs l.product_id ls × Distinct ls

add_total-Differs :
    (p : ℕ) (l : RequestedLine) (ts : List RequestedLine)
    → l.product_id ≢ p
    → Differs p ts
    → Differs p (add_total l ts)
unfolding add_total
add_total-Differs p l [] h d = (h, tt)
add_total-Differs p l (t ∷ ts) h d = ground (arith, add_total-Differs p l ts h d.1)

add_total-Distinct :
    (l : RequestedLine) (ts : List RequestedLine) → Distinct ts → Distinct (add_total l ts)
unfolding add_total
add_total-Distinct l [] d = (tt, tt)
add_total-Distinct l (t ∷ ts) d = elim (Bool-cases (t.product_id == l.product_id)) [
  | inl e ↦ rw e d
  | inr e ↦ rw e (
    add_total-Differs t.product_id l ts (λ same. ground (arith, e, same)) d.0,
    add_total-Distinct l ts d.1,
  )
]

merge_lines-Distinct : (ts ls : List RequestedLine) → Distinct ts → Distinct (merge_lines ts ls)
unfolding merge_lines
merge_lines-Distinct ts [] d = d
merge_lines-Distinct ts (l ∷ ls) d =
    merge_lines-Distinct (add_total l ts) ls (add_total-Distinct l ts d)

above :
    (a b : ℕ) (ls : List RequestedLine)
    → a ≤ b
    → All (λ m. b < m.product_id) ls
    → All (λ m. a < m.product_id) ls
above a b [] h d = tt
above a b (l ∷ ls) h d = (omega arith, above a b ls h d.1)

insert-Ascending :
    (l : RequestedLine) (ls : List RequestedLine)
    → Differs l.product_id ls
    → Ascending ls
    → Ascending (insert_by by_product l ls)
insert-Ascending l [] d a = (tt, tt)
insert-Ascending l (m ∷ ms) d a = elim (Bool-cases (leb l.product_id m.product_id)) [
  | inl e ↦ rw e ((ground arith, above l.product_id m.product_id ms (ground arith) a.0), a)
  | inr e ↦ rw e (
    All-insert_by (λ x. m.product_id < x.product_id) by_product l ms (ground arith) a.0,
    insert-Ascending l ms d.1 a.1,
  )
]

sort-Ascending : (ls : List RequestedLine) → Distinct ls → Ascending (sort_by by_product ls)
sort-Ascending [] d = tt
sort-Ascending (l ∷ ls) d =
    insert-Ascending l (sort_by by_product ls)
      (All-sort_by (λ m. m.product_id ≢ l.product_id) by_product ls d.0) (sort-Ascending ls d.1)

-- The normalised lines ask for the same quantity of every product as the request, and name their
-- products once each, in rising order.
pub normalize_reservation_lines_lem :
    (ls : List RequestedLine)
    → ((p : ℕ)
        → sum_by (requested_of p) (normalize_reservation_lines ls) ≡ sum_by (requested_of p) ls)
      × Ascending (normalize_reservation_lines ls)
unfolding normalize_reservation_lines
normalize_reservation_lines_lem ls = (
  λ p. omega (
    arith,
    sum_by-sort_by (requested_of p) by_product (merge_lines [] ls),
    merge_lines-sum p [] ls,
  ),
  sort-Ascending (merge_lines [] ls) (merge_lines-Distinct [] ls tt),
)

-- With enough available in all, the plan succeeds and adds up to exactly the requested quantity,
-- every line is of the product and takes something, and no warehouse gives more than its candidates
-- have.
pub plan_allocations_fills :
    (p n : ℕ) (cs : List AllocationCandidate)
    → n ≤ total_available p cs
    → (lines : List AllocationLine) × (plan_allocations p n cs ≡ ok lines)
      × (sum_by qty_of lines ≡ n)
      × All (IsPart p) lines
      × ((w : ℕ)
          → sum_by (alloc_at w) lines ≤ sum_by (available_at w) (keep_if (is_candidate p) cs))
plan_allocations_fills p n cs enough = (plan_allocations_lem p n cs).0 enough

-- With less than the requested quantity available in all, the plan is refused as
-- `INSUFFICIENT_STOCK`.
pub plan_allocations_short :
    (p n : ℕ) (cs : List AllocationCandidate)
    → total_available p cs < n
    → plan_allocations p n cs ≡ err insufficient_stock
plan_allocations_short p n cs short = (plan_allocations_lem p n cs).1 short
