-- ===== src/Returns/Saga.antt =====
-- Approvals, rejections and new returns move the stored returns by the status machine:
-- domain/returnService.ts and repositories/returnsRepo.ts.
use atlas_commerce.Prelude.{
  ℕ, ◌≡◌, sym, subst, inl, inr, false, Option, none, some, ◌==◌, Option-cases, ne→==_false,
}
use atlas_commerce.Shared.Post.{and_then-keeps}
use atlas_commerce.Shared.Rows.{find_row}
use atlas_commerce.Shared.Tx.{Action, ◌>>=◌, Result, ok, err, and_then, on_first, on_second}
use atlas_commerce.Returns.Updates.{find_by_id_or_throw_hit, find_by_id_or_throw_miss}
use atlas_commerce.Returns.Create.{with_return, create_is}
use atlas_commerce.Returns.Refund.{
  assert_order_refundable, calculate_refund_lines, CalculatedReturn,
}
use atlas_commerce.Returns.Machine.{
  mark_approved-Advanced, mark_inventory_restored-Advanced, mark_ledger_recorded-Advanced,
  mark_refunded-Advanced, mark_rejected-Advanced,
}
use atlas_commerce.Returns.Moves.{Moved-refl, Advanced, Advanced-refl, Advanced-trans}
use atlas_commerce.Returns.Repository.{
  return_id_of, mark_approved, mark_inventory_restored, mark_ledger_recorded, find_by_id_or_throw,
  CreateReturnRecordInput,
}
use atlas_commerce.Returns.Service.{
  CreateReturnInput, create_return_request, create_for_order, create_calculated, reject_by_status,
  reject_return_request, restock, restore_inventory, record_ledger, finish_refund, settle_return,
  approve_by_status, approve_return_once,
}
use atlas_commerce.Returns.Types.{
  ReturnStatus, ReturnRequest, ReturnsDb, Env, Outside, post_ledger_entry, OrderSnapshot, get_order,
}

find_by_id_or_throw-Advanced : (id : ℕ) (s : ReturnsDb) → Advanced s (find_by_id_or_throw id s).1
find_by_id_or_throw-Advanced id s = elim (Option-cases (find_row return_id_of id s.requests)) [
  | inl miss ↦ rw (find_by_id_or_throw_miss id s miss) (Advanced-refl s)
  | inr (r, found) ↦ rw (find_by_id_or_throw_hit id s r found) (Advanced-refl s)
]

-- `rejectReturnRequest`
reject_return_request-Advanced :
    (env : Env) (id : ℕ) (reason : Option ℕ) (s : ReturnsDb)
    → Advanced s (reject_return_request env id reason s).1
unfolding reject_return_request
reject_return_request-Advanced env id reason s =
    and_then_keeps_on (find_by_id_or_throw id s) (find_by_id_or_throw-Advanced id s)
      (λ r t. by r.row.status t)
  where
    and_then_keeps_on :
        (m : Result ReturnRequest × ReturnsDb)
        → Advanced s m.1
        → ((r : ReturnRequest) (t : ReturnsDb)
            → Advanced t (reject_by_status env id reason r.row.status t).1)
        → Advanced s (and_then m (λ r. reject_by_status env id reason r.row.status)).1
    and_then_keeps_on m h k =
        and_then-keeps (λ t. Advanced s t) m (λ r. reject_by_status env id reason r.row.status) h
          (λ r t p. Advanced-trans s t (reject_by_status env id reason r.row.status t).1 p (k r t))

    by : (st : ReturnStatus) (t : ReturnsDb) → Advanced t (reject_by_status env id reason st t).1
    by ReturnStatus.requested t = mark_rejected-Advanced env reason id t
    by ReturnStatus.approved t = Advanced-refl t
    by ReturnStatus.rejected t = Advanced-refl t
    by ReturnStatus.refunded t = Advanced-refl t

module _ {W : Type 0} (out : Outside W) where
  -- The rule for an awaited call of an action that advances the returns.
  and_then-Advanced :
      {A B : Type 0} (s : ReturnsDb) (m : Result A × (ReturnsDb × W))
      (f : A → Action (ReturnsDb × W) B)
      → Advanced s m.1.0
      → ((a : A) (t : ReturnsDb) (v : W) → Advanced t (f a (t, v)).1.0)
      → Advanced s (and_then m f).1.0
  and_then-Advanced s m f h k =
      and_then-keeps (λ u. Advanced s u.0) m f h
        (λ a (t, v) p. Advanced-trans s t (f a (t, v)).1.0 p (k a t v))

  restore_inventory-Advanced :
      (env : Env) (id : ℕ) (q : ReturnRequest) (at : Option ℕ) (s : ReturnsDb) (w : W)
      → Advanced s (restore_inventory out env id q at (s, w)).1.0
  restore_inventory-Advanced env id q (some at) s w = Advanced-refl s
  restore_inventory-Advanced env id q none s w =
      and_then-Advanced s (on_second (restock out q.lines) (s, w))
        (λ _. on_first (mark_inventory_restored env id)) (Advanced-refl s)
        (λ _ t v. mark_inventory_restored-Advanced env id t)

  record_ledger-Advanced :
      (env : Env) (id : ℕ) (q : ReturnRequest) (at : Option ℕ) (s : ReturnsDb) (w : W)
      → Advanced s (record_ledger out env id q at (s, w)).1.0
  record_ledger-Advanced env id q (some at) s w = Advanced-refl s
  record_ledger-Advanced env id q none s w =
      and_then-Advanced s
        (on_second
          (post_ledger_entry out (record {
            order_id = q.row.order_id;
            amount_cents = q.row.total_refund_cents;
            currency = q.row.currency;
            external_ref = q.row.id;
          }))
          (s, w))
        (λ _. on_first (mark_ledger_recorded env id)) (Advanced-refl s)
        (λ _ t v. mark_ledger_recorded-Advanced env id t)

  finish_refund-Advanced :
      (env : Env) (id : ℕ) (q : ReturnRequest) (st : ReturnStatus) (s : ReturnsDb) (w : W)
      → Advanced s (finish_refund out env id q st (s, w)).1.0
  finish_refund-Advanced env id q ReturnStatus.refunded s w = Advanced-refl s
  finish_refund-Advanced env id q ReturnStatus.requested s w = mark_refunded-Advanced env id s
  finish_refund-Advanced env id q ReturnStatus.approved s w = mark_refunded-Advanced env id s
  finish_refund-Advanced env id q ReturnStatus.rejected s w = mark_refunded-Advanced env id s

  settle_return-Advanced :
      (env : Env) (id : ℕ) (q : ReturnRequest) (s : ReturnsDb) (w : W)
      → Advanced s (settle_return out env id q (s, w)).1.0
  settle_return-Advanced env id q s w =
      and_then-Advanced s (restore_inventory out env id q q.row.inventory_restored_at (s, w))
        (λ restored. do
          recorded ← record_ledger out env id restored restored.row.ledger_recorded_at
          finish_refund out env id recorded recorded.row.status)
        (restore_inventory-Advanced env id q q.row.inventory_restored_at s w)
        (λ q s w.
          and_then-Advanced s (record_ledger out env id q q.row.ledger_recorded_at (s, w))
            (λ recorded. finish_refund out env id recorded recorded.row.status)
            (record_ledger-Advanced env id q q.row.ledger_recorded_at s w)
            (λ q s w. finish_refund-Advanced env id q q.row.status s w))

  approve_by_status-Advanced :
      (env : Env) (id : ℕ) (q : ReturnRequest) (st : ReturnStatus) (s : ReturnsDb) (w : W)
      → Advanced s (approve_by_status out env id q st (s, w)).1.0
  approve_by_status-Advanced env id q ReturnStatus.refunded s w = Advanced-refl s
  approve_by_status-Advanced env id q ReturnStatus.rejected s w = Advanced-refl s
  approve_by_status-Advanced env id q ReturnStatus.approved s w =
      settle_return-Advanced env id q s w
  approve_by_status-Advanced env id q ReturnStatus.requested s w =
      and_then-Advanced s (on_first (mark_approved env id) (s, w)) (settle_return out env id)
        (mark_approved-Advanced env id s) (λ q s w. settle_return-Advanced env id q s w)

  approve_return_once-Advanced :
      (env : Env) (id : ℕ) (s : ReturnsDb) (w : W)
      → Advanced s (approve_return_once out env id (s, w)).1.0
  unfolding approve_return_once
  approve_return_once-Advanced env id s w =
      and_then-Advanced s (on_first (find_by_id_or_throw id) (s, w))
        (λ q. approve_by_status out env id q q.row.status) (find_by_id_or_throw-Advanced id s)
        (λ q s w. approve_by_status-Advanced env id q q.row.status s w)

  -- A new return, under an id that is not in use, leaves the others as they were.
  with_return-Advanced :
      (env : Env) (i : CreateReturnRecordInput) (s : ReturnsDb)
      → find_row return_id_of (env.new_id 0) s.requests ≡ none
      → Advanced s (with_return env i s)
  with_return-Advanced env i s fresh id r found =
      let other : (env.new_id 0 == id) ≡ false = ne→==_false (env.new_id 0) id (λ e.
        let there : find_row return_id_of (env.new_id 0) s.requests ≡ some r =
          subst (λ z. find_row return_id_of z s.requests ≡ some r) (sym e) found in
        cc) in
      (r, rw other found, Moved-refl r)

  create_for_order-Advanced :
      (env : Env) (i : CreateReturnInput) (order : OrderSnapshot) (s : ReturnsDb) (w : W)
      → find_row return_id_of (env.new_id 0) s.requests ≡ none
      → Advanced s (create_for_order out env i order (s, w)).1.0
  create_for_order-Advanced env i order s w fresh =
      go (assert_order_refundable order.status) (calculate_refund_lines order.items i.lines)
    where
      go :
          (a : Result (Unit {0})) (c : Result CalculatedReturn)
          → Advanced s
              (and_then
                (a, (s, w))
                (λ _ u. and_then (c, u) (λ c. on_first (create_calculated env i order c)))).1.0
      go (err e) c = Advanced-refl s
      go (ok _) (err e) = Advanced-refl s
      go (ok _) (ok c) =
          let input : CreateReturnRecordInput = record {
            order_id = order.id;
            customer_id = order.customer_id;
            reason = i.reason;
            total_refund_cents = c.total_refund_cents;
            currency = order.currency;
            lines = c.lines;
          } in
          rw (create_is env input s) (with_return-Advanced env input s fresh)

  create_return_request-Advanced :
      (env : Env) (i : CreateReturnInput) (s : ReturnsDb) (w : W)
      → find_row return_id_of (env.new_id 0) s.requests ≡ none
      → Advanced s (create_return_request out env i (s, w)).1.0
  unfolding create_return_request
  create_return_request-Advanced env i s w fresh = go (get_order out i.order_id w)
    where
      go :
          (x : Result OrderSnapshot × W)
          → Advanced s
              (and_then {S = ReturnsDb × W} (x.0, (s, x.1)) (create_for_order out env i)).1.0
      go (err e, v) = Advanced-refl s
      go (ok order, v) = create_for_order-Advanced env i order s v fresh

  -- Approving, rejecting and creating a return, on every outcome, keep every stored return and move
  -- it by the status machine: requested to approved or rejected, approved to refunded. A mark that is
  -- set stays as it is, the total stays, and a return that is refunded has both marks. The id of a new
  -- return is not in use.
  pub return_operations_advance :
      (env : Env) (id : ℕ) (reason : Option ℕ) (i : CreateReturnInput) (s : ReturnsDb) (w : W)
      → find_row return_id_of (env.new_id 0) s.requests ≡ none
      → Advanced s (approve_return_once out env id (s, w)).1.0
        × Advanced s (reject_return_request env id reason s).1
        × Advanced s (create_return_request out env i (s, w)).1.0
  return_operations_advance env id reason i s w fresh = (
    approve_return_once-Advanced env id s w,
    reject_return_request-Advanced env id reason s,
    create_return_request-Advanced env i s w fresh,
  )
