-- ===== src/Returns/Resume.antt =====
-- An approval whose outside calls end well, and one that is called again after a throw, for
-- domain/returnService.ts of services/returns.
use atlas_commerce.Prelude.{
  ℕ, ◌≡◌, ◌∙◌, refl, sym, subst, inl, inr, ◌⊎◌, true, false, Option, none, some, List,
}
use atlas_commerce.Shared.Errors.{AppError}
use atlas_commerce.Shared.Post.{Holds}
use atlas_commerce.Shared.Rows.{find_row}
use atlas_commerce.Shared.Tx.{Action, Result, ok, err}
use atlas_commerce.Returns.Approve.{Stored, IsRefunded, Interrupted}
use atlas_commerce.Returns.Refunded.{IsOpen, approve_return_once_lem, approve_return_once_is}
use atlas_commerce.Returns.Repository.{return_id_of, load_from_row, is_some}
use atlas_commerce.Returns.Service.{restock, approve_by_status, approve_return_once}
use atlas_commerce.Returns.Types.{
  ReturnStatus, ReturnLine, ReturnRow, ReturnRequest, ReturnsDb, Env, LedgerEntryInput,
  StockSnapshot, InventoryAdjustmentInput, Outside, post_ledger_entry,
}

-- The call returns, in every state.
abbrev pub Returns {ℓ κ} : {S : Type ℓ} {A : Type κ} → Action S A → Type (ℓ ⊔ κ)
Returns {S = S} {A = A} m = (s : S) → (a : A) × (t : S) × (m s ≡ (ok a, t))

module _ {W : Type 0} (out : Outside W) where
  ends_well :
      ((ls : List ReturnLine) → Returns (restock out ls))
      → ((entry : LedgerEntryInput) → Returns (post_ledger_entry out entry))
      → (id : ℕ) (x : Result ReturnRequest × (ReturnsDb × W))
      → Holds (Stored id IsRefunded) (Interrupted out id) x
      → (q : ReturnRequest) × (u : ReturnsDb × W) × (x ≡ (ok q, u)) × Stored id IsRefunded q u
  ends_well restocks posts id (ok q, u) h = (q, u, refl, h)
  ends_well restocks posts id (err e, u) (r, found, is, inl (mark, (ls, w, threw))) =
      let (a, t, did) = restocks ls w in cc
  ends_well restocks posts id (err e, u) (r, found, is, inr (mark, (entry, w, threw))) =
      let (a, t, did) = posts entry w in cc

  -- When every restock and every ledger post returns, approving a requested or an approved return
  -- returns it refunded, with both marks set, as it is then stored.
  pub approve_return_once_completes :
      (env : Env) (id : ℕ) (r : ReturnRow) (s : ReturnsDb) (w : W)
      → ((ls : List ReturnLine) → Returns (restock out ls))
      → ((entry : LedgerEntryInput) → Returns (post_ledger_entry out entry))
      → find_row return_id_of id s.requests ≡ some r
      → IsOpen r.status
      → (q : ReturnRequest) × (u : ReturnsDb × W) × (approve_return_once out env id (s, w)
          ≡ (ok q, u))
        × Stored id IsRefunded q u
  approve_return_once_completes env id r s w restocks posts found o =
      ends_well restocks posts id (approve_return_once out env id (s, w))
        (approve_return_once_lem out env id r s w found o)

  -- The same services with other stock endpoints.
  abbrev pub with_stock :
      (ℕ → Action W StockSnapshot) → (InventoryAdjustmentInput → Action W (Unit {0})) → Outside W
  with_stock stock adjustments = record out { stock = stock; adjustments = adjustments }

  resume_is :
      (env : Env) (id : ℕ) (r : ReturnRow) (s : ReturnsDb) (w : W)
      (stock : ℕ → Action W StockSnapshot)
      (adjustments : InventoryAdjustmentInput → Action W (Unit {0}))
      → find_row return_id_of id s.requests ≡ some r
      → r.status ≡ ReturnStatus.approved
      → is_some r.inventory_restored_at ≡ true
      → approve_return_once (with_stock stock adjustments) env id (s, w)
        ≡ approve_return_once out env id (s, w)
  unfolding load_from_row
  resume_is env id r s w stock adjustments found is mark =
      approve_return_once_is (with_stock stock adjustments) env id r s w found
      ∙ (by_status r.status is r.inventory_restored_at refl mark
          ∙ sym (approve_return_once_is out env id r s w found))
    where
      by_status :
          (st : ReturnStatus)
          → st ≡ ReturnStatus.approved
          → (at : Option ℕ) → r.inventory_restored_at ≡ at
          → is_some at ≡ true
          → approve_by_status (with_stock stock adjustments) env id (load_from_row s r) st (s, w)
            ≡ approve_by_status out env id (load_from_row s r) st (s, w)
      by_status ReturnStatus.approved e (some at) marked m = rw marked refl
      by_status ReturnStatus.approved e none marked m = cc
      by_status ReturnStatus.requested e at marked m = cc
      by_status ReturnStatus.rejected e at marked m = cc
      by_status ReturnStatus.refunded e at marked m = cc

  -- When approving a stored return that is requested or approved throws, either a restock threw it, or a ledger
  -- post did and the return is left so that approving it again never calls the stock endpoints:
  -- with other stock endpoints the second approval does the same.
  pub approve_return_once_resumes :
      (env later : Env) (id : ℕ) (r : ReturnRow) (e : AppError) (s t : ReturnsDb) (w v : W)
      → find_row return_id_of id s.requests ≡ some r
      → IsOpen r.status
      → approve_return_once out env id (s, w) ≡ (err e, (t, v))
      → ((ls : List ReturnLine) × (w' : W) × (restock out ls w' ≡ (err e, v)))
        ⊎ (((entry : LedgerEntryInput) × (w' : W) × (post_ledger_entry out entry w' ≡ (err e, v)))
            × ((stock : ℕ → Action W StockSnapshot)
                  (adjustments : InventoryAdjustmentInput → Action W (Unit {0})) (v' : W)
                → approve_return_once (with_stock stock adjustments) later id (t, v')
                  ≡ approve_return_once out later id (t, v')))
  approve_return_once_resumes env later id r e s t w v found o h =
      let (r', found', is, why) =
        subst (Holds (Stored id IsRefunded) (Interrupted out id)) h
          (approve_return_once_lem out env id r s w found o) in
      go r' found' is why
    where
      go :
          (r' : ReturnRow)
          → find_row return_id_of id t.requests ≡ some r'
          → r'.status ≡ ReturnStatus.approved
          → ((is_some r'.inventory_restored_at ≡ false)
              × ((ls : List ReturnLine) × (w' : W) × (restock out ls w' ≡ (err e, v))))
            ⊎ ((is_some r'.inventory_restored_at ≡ true)
                × ((entry : LedgerEntryInput) × (w' : W) × (post_ledger_entry out entry w'
                      ≡ (err e, v))))
          → ((ls : List ReturnLine) × (w' : W) × (restock out ls w' ≡ (err e, v)))
            ⊎ (((entry : LedgerEntryInput) × (w' : W) × (post_ledger_entry out entry w'
                    ≡ (err e, v)))
                × ((stock : ℕ → Action W StockSnapshot)
                      (adjustments : InventoryAdjustmentInput → Action W (Unit {0})) (v' : W)
                    → approve_return_once (with_stock stock adjustments) later id (t, v')
                      ≡ approve_return_once out later id (t, v')))
      go r' found' is (inl (mark, why)) = inl why
      go r' found' is (inr (mark, why)) =
          inr (
            why,
            λ stock adjustments v'. resume_is later id r' t v' stock adjustments found' is mark,
          )
