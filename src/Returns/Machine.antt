-- ===== src/Returns/Machine.antt =====
-- Every operation of services/returns moves the stored returns by the status machine:
-- domain/returnService.ts and repositories/returnsRepo.ts.
use atlas_commerce.Prelude.{ℕ, ◌≡◌, refl, sym, subst, ◌&&◌, Bool, true, false, Option}
use atlas_commerce.Returns.Approve.{is_some-coalesce}
use atlas_commerce.Returns.Moves.{
  Reach, here, next, approve, refund, reject, Lasts-refl, Lasts-coalesce, Advanced,
  update_and_load-Advanced,
}
use atlas_commerce.Returns.Repository.{
  is_some, is_approved, is_refundable, is_requested, to_approved, to_restored, to_recorded,
  to_refunded, to_rejected, mark_approved, mark_inventory_restored, mark_ledger_recorded,
  mark_refunded, mark_rejected,
}
use atlas_commerce.Returns.Types.{ReturnStatus, ReturnRow, ReturnsDb, Env}

is_requested-status : (r : ReturnRow) → is_requested r ≡ true → r.status ≡ ReturnStatus.requested
is_requested-status r h = by r.status h
  where
    by :
        (st : ReturnStatus)
        → (elim st [ ReturnStatus.requested ↦ true | _ ↦ false ]) ≡ true
        → st ≡ ReturnStatus.requested
    by ReturnStatus.requested h = refl
    by ReturnStatus.approved h = cc
    by ReturnStatus.rejected h = cc
    by ReturnStatus.refunded h = cc

is_approved-status : (r : ReturnRow) → is_approved r ≡ true → r.status ≡ ReturnStatus.approved
is_approved-status r h = by r.status h
  where
    by :
        (st : ReturnStatus)
        → (elim st [ ReturnStatus.approved ↦ true | _ ↦ false ]) ≡ true
        → st ≡ ReturnStatus.approved
    by ReturnStatus.requested h = cc
    by ReturnStatus.approved h = refl
    by ReturnStatus.rejected h = cc
    by ReturnStatus.refunded h = cc

pub mark_approved-Advanced :
    (env : Env) (id : ℕ) (s : ReturnsDb) → Advanced s (mark_approved env id s).1
unfolding mark_approved
mark_approved-Advanced env id s =
    update_and_load-Advanced is_requested (to_approved env) id s (λ r may. (
      refl,
      (
        subst (λ st. Reach st ReturnStatus.approved) (sym (is_requested-status r may))
            (next here approve),
        (λ h e. cc),
        Lasts-refl r.inventory_restored_at,
        Lasts-refl r.ledger_recorded_at,
        refl,
      ),
    ))

pub mark_inventory_restored-Advanced :
    (env : Env) (id : ℕ) (s : ReturnsDb) → Advanced s (mark_inventory_restored env id s).1
unfolding mark_inventory_restored
mark_inventory_restored-Advanced env id s =
    update_and_load-Advanced is_approved (to_restored env) id s (λ r may. (
      refl,
      (
        here,
        (λ h e. (is_some-coalesce r.inventory_restored_at env.now, (h e).1)),
        Lasts-coalesce r.inventory_restored_at env.now,
        Lasts-refl r.ledger_recorded_at,
        refl,
      ),
    ))

pub mark_ledger_recorded-Advanced :
    (env : Env) (id : ℕ) (s : ReturnsDb) → Advanced s (mark_ledger_recorded env id s).1
unfolding mark_ledger_recorded
mark_ledger_recorded-Advanced env id s =
    update_and_load-Advanced is_approved (to_recorded env) id s (λ r may. (
      refl,
      (
        here,
        (λ h e. ((h e).0, is_some-coalesce r.ledger_recorded_at env.now)),
        Lasts-refl r.inventory_restored_at,
        Lasts-coalesce r.ledger_recorded_at env.now,
        refl,
      ),
    ))

both_true : (a b c : Bool) → (a && (b && c)) ≡ true → (a ≡ true) × (b ≡ true) × (c ≡ true)
both_true true true true h = (refl, refl, refl)
both_true true true false h = cc
both_true true false c h = cc
both_true false b c h = cc

pub mark_refunded-Advanced :
    (env : Env) (id : ℕ) (s : ReturnsDb) → Advanced s (mark_refunded env id s).1
unfolding mark_refunded
mark_refunded-Advanced env id s =
    update_and_load-Advanced is_refundable (to_refunded env) id s (λ r may.
      let (approved_is, restored, recorded) =
        both_true (is_approved r) (is_some r.inventory_restored_at) (is_some r.ledger_recorded_at)
          may in
      (
        refl,
        (
          subst (λ st. Reach st ReturnStatus.refunded) (sym (is_approved-status r approved_is))
              (next here refund),
          (λ h e. (restored, recorded)),
          Lasts-refl r.inventory_restored_at,
          Lasts-refl r.ledger_recorded_at,
          refl,
        ),
      ))

pub mark_rejected-Advanced :
    (env : Env) (reason : Option ℕ) (id : ℕ) (s : ReturnsDb)
    → Advanced s (mark_rejected env reason id s).1
unfolding mark_rejected
mark_rejected-Advanced env reason id s =
    update_and_load-Advanced is_requested (to_rejected env reason) id s (λ r may. (
      refl,
      (
        subst (λ st. Reach st ReturnStatus.rejected) (sym (is_requested-status r may))
            (next here reject),
        (λ h e. cc),
        Lasts-refl r.inventory_restored_at,
        Lasts-refl r.ledger_recorded_at,
        refl,
      ),
    ))
