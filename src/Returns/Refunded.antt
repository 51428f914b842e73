-- ===== src/Returns/Refunded.antt =====
-- What an approval comes to, and what a later call makes of it, for domain/returnService.ts of
-- services/returns.
use atlas_commerce.Prelude.{
  ℕ, ◌≡◌, ◌∙◌, refl, sym, subst, inl, inr, true, Option, some, Option-cases,
}
use atlas_commerce.Shared.Errors.{Code}
use atlas_commerce.Shared.Post.{Holds}
use atlas_commerce.Shared.Rows.{find_row}
use atlas_commerce.Shared.Tx.{Result, ok, err}
use atlas_commerce.Returns.Approve.{Stored, IsRefunded, Interrupted, settle_return_lem}
use atlas_commerce.Returns.Repository.{
  return_id_of, load_from_row, mark_approved, is_requested, to_approved,
}
use atlas_commerce.Returns.Service.{approve_by_status, approve_return_once, reject_return_request}
use atlas_commerce.Returns.Types.{
  ReturnStatus, ReturnRow, ReturnRequest, ReturnsDb, Env, Outside, return_conflict_error,
}
use atlas_commerce.Returns.Updates.{
  written, written_found, update_and_load_hit, find_by_id_or_throw_hit, find_by_id_or_throw_miss,
}

abbrev pub IsDone : ReturnRow → Type 0
IsDone r = r.status ≡ ReturnStatus.refunded

-- The status of a return that an approval takes on.
abbrev pub IsOpen : ReturnStatus → Type 0
IsOpen ReturnStatus.requested = Unit
IsOpen ReturnStatus.approved = Unit
IsOpen _ = ⊥

module _ {W : Type 0} (out : Outside W) where
  approve_by_status_open :
      (env : Env) (id : ℕ) (r : ReturnRow) (st : ReturnStatus) (s : ReturnsDb) (w : W)
      → find_row return_id_of id s.requests ≡ some r
      → r.status ≡ st
      → IsOpen st
      → Holds
          (Stored id IsRefunded)
          (Interrupted out id)
          (approve_by_status out env id (load_from_row s r) st (s, w))
  unfolding mark_approved
  approve_by_status_open env id r ReturnStatus.approved s w found is o =
      settle_return_lem out env id r s w found is
  approve_by_status_open env id r ReturnStatus.requested s w found is o =
      let may : is_requested r ≡ true = rw is refl in
      let did = update_and_load_hit is_requested (to_approved env) id s r found may in
      rw did (
        settle_return_lem out env id (to_approved env r) (written s (to_approved env r)) w
          (written_found id s r (to_approved env r) refl found) refl)
  approve_by_status_open env id r ReturnStatus.rejected s w found is o = elim o [ ]
  approve_by_status_open env id r ReturnStatus.refunded s w found is o = elim o [ ]

  pub approve_return_once_is :
      (env : Env) (id : ℕ) (r : ReturnRow) (s : ReturnsDb) (w : W)
      → find_row return_id_of id s.requests ≡ some r
      → approve_return_once out env id (s, w)
        ≡ approve_by_status out env id (load_from_row s r) r.status (s, w)
  unfolding approve_return_once load_from_row
  approve_return_once_is env id r s w found = rw (find_by_id_or_throw_hit id s r found) refl

  -- Approving a requested or an approved return ends in one of two ways: it returns the return as it
  -- is stored, refunded and with both marks set, or it throws what the restock or the ledger threw,
  -- and leaves the return approved, with the inventory mark set when it was the ledger.
  pub approve_return_once_lem :
      (env : Env) (id : ℕ) (r : ReturnRow) (s : ReturnsDb) (w : W)
      → find_row return_id_of id s.requests ≡ some r
      → IsOpen r.status
      → Holds (Stored id IsRefunded) (Interrupted out id) (approve_return_once out env id (s, w))
  approve_return_once_lem env id r s w found o =
      subst (Holds (Stored id IsRefunded) (Interrupted out id))
        (sym (approve_return_once_is env id r s w found))
        (approve_by_status_open env id r r.status s w found refl o)

  -- An approval of a refunded return.
  pub approve_return_once_done :
      (env : Env) (id : ℕ) (r : ReturnRow) (s : ReturnsDb) (w : W)
      → find_row return_id_of id s.requests ≡ some r
      → IsDone r
      → approve_return_once out env id (s, w) ≡ (ok (load_from_row s r), (s, w))
  approve_return_once_done env id r s w found is =
      approve_return_once_is env id r s w found ∙ done r.status is
    where
      done :
          (st : ReturnStatus)
          → st ≡ ReturnStatus.refunded
          → approve_by_status out env id (load_from_row s r) st (s, w)
            ≡ (ok (load_from_row s r), (s, w))
      done ReturnStatus.refunded e = refl
      done ReturnStatus.requested e = cc
      done ReturnStatus.approved e = cc
      done ReturnStatus.rejected e = cc

  approve_return_once-returned :
      (env : Env) (id : ℕ) (s : ReturnsDb) (w : W)
      → Holds (Stored id IsDone) (λ _ _. Unit {0}) (approve_return_once out env id (s, w))
  unfolding approve_return_once
  approve_return_once-returned env id s w =
      elim (Option-cases (find_row return_id_of id s.requests)) [
        | inl miss ↦ rw (find_by_id_or_throw_miss id s miss) tt
        | inr (r, found) ↦ by_status r found r.status refl
      ]
    where
      kept :
          (x : Result ReturnRequest × (ReturnsDb × W))
          → Holds (Stored id IsRefunded) (Interrupted out id) x
          → Holds (Stored id IsDone) (λ _ _. Unit {0}) x
      kept (ok q, u) (r, is, found, p) = (r, is, found, p.0)
      kept (err e, u) h = tt

      by_status :
          (r : ReturnRow)
          → find_row return_id_of id s.requests ≡ some r
          → (st : ReturnStatus) → r.status ≡ st
          → Holds (Stored id IsDone) (λ _ _. Unit {0}) (approve_return_once out env id (s, w))
      by_status r found ReturnStatus.refunded is =
          rw (approve_return_once_done env id r s w found is) (r, refl, found, is)
      by_status r found ReturnStatus.rejected is =
          subst (Holds (Stored id IsDone) (λ _ _. Unit {0}))
            (sym (approve_return_once_is env id r s w found)) (rw is tt)
      by_status r found ReturnStatus.requested is =
          kept (approve_return_once out env id (s, w))
            (approve_return_once_lem env id r s w found (subst IsOpen (sym is) tt))
      by_status r found ReturnStatus.approved is =
          kept (approve_return_once out env id (s, w))
            (approve_return_once_lem env id r s w found (subst IsOpen (sym is) tt))

  -- After an approval that returned, approving again returns the same return, calls no other service
  -- and writes nothing, and a rejection is refused.
  pub approve_return_once_twice :
      (env later : Env) (id : ℕ) (reason : Option ℕ) (q : ReturnRequest) (s t : ReturnsDb) (w v : W)
      → approve_return_once out env id (s, w) ≡ (ok q, (t, v))
      → (approve_return_once out later id (t, v) ≡ (ok q, (t, v)))
        × (reject_return_request later id reason t
            ≡ (err (return_conflict_error Code.return_status_conflict), t))
  unfolding reject_return_request load_from_row
  approve_return_once_twice env later id reason q s t w v h =
      let (r, loaded_as, found, is) =
        subst (Holds (Stored id IsDone) (λ _ _. Unit {0})) h
          (approve_return_once-returned env id s w) in
      (
        rw loaded_as (approve_return_once_done later id r t v found is),
        rw (find_by_id_or_throw_hit id t r found) (rw is refl),
      )
