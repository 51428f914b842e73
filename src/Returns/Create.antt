-- ===== src/Returns/Create.antt =====
-- What createReturnRequest of domain/returnService.ts of services/returns stores.
use atlas_commerce.Prelude.{
  ℕ, suc, ◌+◌, ◌≤◌, ◌≡◌, ◌∙◌, refl, sym, subst, false, some, List, [], ◌∷◌, ◌==◌, if◌then◌else◌,
  arith, keep_if, sum_by, sum_by-sort_by, sum_by-keep_if, All, ==_refl,
}
use atlas_commerce.Shared.Post.{Ensures, Ensures-pure_then}
use atlas_commerce.Shared.Rows.{find_row}
use atlas_commerce.Shared.Tx.{Result, ok, err, and_then, on_first}
use atlas_commerce.Returns.Refund.{
  CalculatedReturnLine, cost, assert_order_refundable, calculate_refund_lines,
  calculate_refund_lines_le,
}
use atlas_commerce.Returns.Repository.{
  return_id_of, in_id_order, load_lines, load_from_row, insert_lines, new_line, new_row, create,
  CreateReturnRecordInput,
}
use atlas_commerce.Returns.Service.{
  CreateReturnInput, create_return_request, create_for_order, create_calculated, get_return_request,
}
use atlas_commerce.Returns.Types.{
  ReturnStatus, ReturnLine, ReturnRequest, ReturnsDb, Env, OrderSnapshot, Outside, get_order,
}
use atlas_commerce.Returns.Updates.{find_by_id_or_throw_hit}

-- The lines that the loop leaves.
abbrev pub added : Env → ℕ → ℕ → List CalculatedReturnLine → List ReturnLine → List ReturnLine
added env id n [] acc = acc
added env id n (l ∷ ls) acc = added env id (suc n) ls (new_line (env.new_id n) id l ∷ acc)

insert_lines_is :
    (env : Env) (id n : ℕ) (ls : List CalculatedReturnLine) (s : ReturnsDb)
    → insert_lines env id n ls s ≡ (ok tt, record s { lines = added env id n ls s.lines })
insert_lines_is env id n [] s = refl
insert_lines_is env id n (l ∷ ls) s =
    insert_lines_is env id (suc n) ls (record s { lines = new_line (env.new_id n) id l ∷ s.lines })

-- The database after a return was created.
abbrev pub with_return : Env → CreateReturnRecordInput → ReturnsDb → ReturnsDb
with_return env i s = record {
  requests = new_row env i ∷ s.requests;
  lines = added env (env.new_id 0) 1 i.lines s.lines;
}

pub with_return-found :
    (env : Env) (i : CreateReturnRecordInput) (s : ReturnsDb)
    → find_row return_id_of (env.new_id 0) (with_return env i s).requests ≡ some (new_row env i)
with_return-found env i s = rw (==_refl (env.new_id 0)) refl

pub create_is :
    (env : Env) (i : CreateReturnRecordInput) (s : ReturnsDb)
    → create env i s
      ≡ (ok (load_from_row (with_return env i s) (new_row env i)), with_return env i s)
unfolding create
create_is env i s =
    rw
      (insert_lines_is env (env.new_id 0) 1 i.lines
        (record s { requests = new_row env i ∷ s.requests }))
      (find_by_id_or_throw_hit (env.new_id 0) (with_return env i s) (new_row env i)
        (with_return-found env i s))

abbrev pub refund_of : ReturnLine → ℕ
refund_of l = l.refund_amount_cents

abbrev pub refund_within : ℕ → ReturnLine → ℕ
refund_within id l = if l.return_id == id then l.refund_amount_cents else 0

added-sum :
    (env : Env) (id n : ℕ) (ls : List CalculatedReturnLine) (acc : List ReturnLine)
    → sum_by (refund_within id) (added env id n ls acc)
      ≡ sum_by (λ l. l.refund_amount_cents) ls + sum_by (refund_within id) acc
added-sum env id n [] acc = omega arith
added-sum env id n (l ∷ ls) acc =
    let here : refund_within id (new_line (env.new_id n) id l) ≡ l.refund_amount_cents =
      rw (==_refl id) refl in
    omega (arith, added-sum env id (suc n) ls (new_line (env.new_id n) id l ∷ acc), here)

-- No line of an unused return id counts.
unused-sum :
    (id : ℕ) (ls : List ReturnLine)
    → All (λ l. (l.return_id == id) ≡ false) ls
    → sum_by (refund_within id) ls ≡ 0
unused-sum id [] h = refl
unused-sum id (l ∷ ls) (h, hs) = rw h (omega (arith, unused-sum id ls hs))

created-sum :
    (env : Env) (i : CreateReturnRecordInput) (s : ReturnsDb)
    → All (λ l. (l.return_id == env.new_id 0) ≡ false) s.lines
    → sum_by refund_of (load_lines (with_return env i s) (env.new_id 0))
      ≡ sum_by (λ l. l.refund_amount_cents) i.lines
unfolding load_lines
created-sum env i s unused =
    let id = env.new_id 0 in
    let ls = (with_return env i s).lines in
    omega (
      arith,
      sum_by-sort_by refund_of in_id_order (keep_if (λ l. l.return_id == id) ls),
      sum_by-keep_if refund_of (λ l. l.return_id == id) ls,
      added-sum env id 1 i.lines s.lines,
      unused-sum id s.lines unused,
    )

module _ {W : Type 0} (out : Outside W) where
  -- What a call that created a return leaves.
  abbrev pub Created : CreateReturnInput → W → ReturnRequest → ReturnsDb × W → Type 0
  Created i w q u =
      (get_return_request q.row.id u.0 ≡ (ok q, u.0))
      × (q.row.status ≡ ReturnStatus.requested)
      × (q.row.total_refund_cents ≡ sum_by refund_of q.lines)
      × ((order : OrderSnapshot) × (get_order out i.order_id w ≡ (ok order, u.1))
          × (q.row.total_refund_cents ≤ sum_by cost order.items))

  create_for_order-Created :
      (env : Env) (i : CreateReturnInput) (order : OrderSnapshot) (s : ReturnsDb) (w v : W)
      → All (λ l. (l.return_id == env.new_id 0) ≡ false) s.lines
      → get_order out i.order_id w ≡ (ok order, v)
      → Ensures (Created i w) (create_for_order out env i order (s, v))
  unfolding load_from_row get_return_request
  create_for_order-Created env i order s w v unused ordered =
      Ensures-pure_then (Created i w) (assert_order_refundable order.status) (s, v)
        (λ _ s.
          and_then (calculate_refund_lines order.items i.lines, s)
            (λ c. on_first (create_calculated env i order c)))
        (λ _ _.
          Ensures-pure_then (Created i w) (calculate_refund_lines order.items i.lines) (s, v)
            (λ c. on_first (create_calculated env i order c))
            (λ c calculated.
              let input : CreateReturnRecordInput = record {
                order_id = order.id;
                customer_id = order.customer_id;
                reason = i.reason;
                total_refund_cents = c.total_refund_cents;
                currency = order.currency;
                lines = c.lines;
              } in
              let (total, within) = calculate_refund_lines_le order.items i.lines c calculated in
              rw (create_is env input s) (
                find_by_id_or_throw_hit (env.new_id 0) (with_return env input s) (new_row env input)
                    (with_return-found env input s),
                refl,
                total ∙ sym (created-sum env input s unused),
                (order, ordered, within),
              )))

  -- A return that was created reads back as it was returned; it is requested, its total is the sum of
  -- the refunds of its lines, and no more than the items of the order that the orders service answered
  -- cost at their unit price. The id that was drawn for it was not in use for a line.
  pub create_return_request_stores :
      (env : Env) (i : CreateReturnInput) (q : ReturnRequest) (s t : ReturnsDb) (w v : W)
      → All (λ l. (l.return_id == env.new_id 0) ≡ false) s.lines
      → create_return_request out env i (s, w) ≡ (ok q, (t, v))
      → Created i w q (t, v)
  unfolding create_return_request
  create_return_request_stores env i q s t w v unused h =
      subst (Ensures (Created i w)) h (go (get_order out i.order_id w) refl)
    where
      go :
          (x : Result OrderSnapshot × W)
          → get_order out i.order_id w ≡ x
          → Ensures
              (Created i w)
              (and_then {S = ReturnsDb × W} (x.0, (s, x.1)) (create_for_order out env i))
      go (err e, v) h = tt
      go (ok order, v) h = create_for_order-Created env i order s w v unused h
