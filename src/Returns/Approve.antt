-- ===== src/Returns/Approve.antt =====
-- How an approval ends, for domain/returnService.ts of services/returns.
use atlas_commerce.Prelude.{
  ℕ, ◌≡◌, refl, sym, subst, inl, inr, ◌⊎◌, Bool, true, false, Option, none, some, List,
}
use atlas_commerce.Shared.Errors.{AppError}
use atlas_commerce.Shared.Post.{Holds, Holds-and_then}
use atlas_commerce.Shared.Rows.{find_row}
use atlas_commerce.Shared.Tx.{Action, ◌>>=◌, Result, ok, err, and_then, on_first}
use atlas_commerce.Returns.Repository.{
  return_id_of, load_from_row, mark_inventory_restored, mark_ledger_recorded, mark_refunded,
  update_and_load, is_some, is_approved, is_refundable, to_restored, to_recorded, to_refunded,
  coalesce,
}
use atlas_commerce.Returns.Service.{
  restock, restore_inventory, record_ledger, finish_refund, settle_return,
}
use atlas_commerce.Returns.Types.{
  ReturnStatus, ReturnLine, ReturnRow, ReturnRequest, ReturnsDb, Env, LedgerEntryInput, Outside,
  post_ledger_entry,
}
use atlas_commerce.Returns.Updates.{written_found, update_and_load_hit}

-- The request is the stored return `id`, and its row has the property.
abbrev pub Stored {ℓ} :
    {W : Type 0} → ℕ → (ReturnRow → Type ℓ) → ReturnRequest → ReturnsDb × W → Type ℓ
Stored id P q u =
    (r : ReturnRow) × (q ≡ load_from_row u.0 r)
    × (find_row return_id_of id u.0.requests ≡ some r)
    × P r

abbrev pub IsApproved : ReturnRow → Type 0
IsApproved r = r.status ≡ ReturnStatus.approved

abbrev pub IsRestored : ReturnRow → Type 0
IsRestored r = (r.status ≡ ReturnStatus.approved) × (is_some r.inventory_restored_at ≡ true)

abbrev pub IsRecorded : ReturnRow → Type 0
IsRecorded r =
    (r.status ≡ ReturnStatus.approved)
    × (is_some r.inventory_restored_at ≡ true)
    × (is_some r.ledger_recorded_at ≡ true)

-- Refunded, with both marks set.
abbrev pub IsRefunded : ReturnRow → Type 0
IsRefunded r =
    (r.status ≡ ReturnStatus.refunded)
    × (is_some r.inventory_restored_at ≡ true)
    × (is_some r.ledger_recorded_at ≡ true)

pub is_some-coalesce : (o : Option ℕ) (now : ℕ) → is_some (coalesce o now) ≡ true
is_some-coalesce none now = refl
is_some-coalesce (some t) now = refl

status-is_approved : (r : ReturnRow) → r.status ≡ ReturnStatus.approved → is_approved r ≡ true
status-is_approved r h = rw h refl

-- An UPDATE that goes through leaves the return stored as it wrote it.
update_and_load-Stored :
    {W : Type 0} (where_ : ReturnRow → Bool) (set : ReturnRow → ReturnRow) (P : ReturnRow → Type 0)
    (E : AppError → ReturnsDb × W → Type 0) (id : ℕ) (r : ReturnRow) (s : ReturnsDb) (w : W)
    → find_row return_id_of id s.requests ≡ some r
    → where_ r ≡ true
    → (set r).id ≡ r.id
    → P (set r)
    → Holds (Stored id P) E (on_first (update_and_load where_ set id) (s, w))
update_and_load-Stored where_ set P E id r s w found may kept p =
    let did = update_and_load_hit where_ set id s r found may in
    rw did (set r, refl, written_found id s r (set r) kept found, p)

module _ {W : Type 0} (out : Outside W) where
  -- An approval was cut off: by a restock, with the inventory mark not set, or by the ledger, with it
  -- set.
  abbrev pub Interrupted : ℕ → AppError → ReturnsDb × W → Type 0
  Interrupted id e u =
      (r : ReturnRow) × (find_row return_id_of id u.0.requests ≡ some r)
      × (r.status ≡ ReturnStatus.approved)
      × (((is_some r.inventory_restored_at ≡ false)
            × ((ls : List ReturnLine) × (w : W) × (restock out ls w ≡ (err e, u.1))))
          ⊎ ((is_some r.inventory_restored_at ≡ true)
              × ((entry : LedgerEntryInput) × (w : W) × (post_ledger_entry out entry w
                    ≡ (err e, u.1)))))

  finish_refund_lem :
      (env : Env) (id : ℕ) (r : ReturnRow) (s : ReturnsDb) (w : W)
      → find_row return_id_of id s.requests ≡ some r
      → IsRecorded r
      → Holds
          (Stored id IsRefunded)
          (Interrupted id)
          (finish_refund out env id (load_from_row s r) r.status (s, w))
  unfolding mark_refunded
  finish_refund_lem env id r s w found (is, restored, recorded) =
      let may : is_refundable r ≡ true = rw is (rw restored (rw recorded refl)) in
      rw is (
        update_and_load-Stored is_refundable (to_refunded env) IsRefunded (Interrupted id) id r s w
          found may refl (refl, restored, recorded))

  record_ledger_lem :
      (env : Env) (id : ℕ) (r : ReturnRow) (s : ReturnsDb) (w : W) (at : Option ℕ)
      → r.ledger_recorded_at ≡ at
      → find_row return_id_of id s.requests ≡ some r
      → IsRestored r
      → Holds
          (Stored id IsRecorded)
          (Interrupted id)
          (record_ledger out env id (load_from_row s r) at (s, w))
  unfolding mark_ledger_recorded load_from_row
  record_ledger_lem env id r s w (some at) marked found (is, restored) =
      (r, refl, found, (is, restored, rw marked refl))
  record_ledger_lem env id r s w none unmarked found (is, restored) =
      go (post_ledger_entry out entry w) refl
    where
      entry : LedgerEntryInput
      entry = record {
        order_id = r.order_id;
        amount_cents = r.total_refund_cents;
        currency = r.currency;
        external_ref = r.id;
      }

      go :
          (x : Result (Unit {0}) × W)
          → post_ledger_entry out entry w ≡ x
          → Holds (Stored id IsRecorded) (Interrupted id) (
              and_then {S = ReturnsDb × W}
                (x.0, (s, x.1))
                (λ _. on_first (mark_ledger_recorded env id)))
      go (err e, v) h = (r, found, is, inr (restored, (entry, w, h)))
      go (ok _, v) h =
          update_and_load-Stored is_approved (to_recorded env) IsRecorded (Interrupted id) id r s v
            found (status-is_approved r is) refl
            (is, restored, is_some-coalesce r.ledger_recorded_at env.now)

  restore_inventory_lem :
      (env : Env) (id : ℕ) (r : ReturnRow) (s : ReturnsDb) (w : W) (at : Option ℕ)
      → r.inventory_restored_at ≡ at
      → find_row return_id_of id s.requests ≡ some r
      → IsApproved r
      → Holds
          (Stored id IsRestored)
          (Interrupted id)
          (restore_inventory out env id (load_from_row s r) at (s, w))
  unfolding mark_inventory_restored load_from_row
  restore_inventory_lem env id r s w (some at) marked found is =
      (r, refl, found, (is, rw marked refl))
  restore_inventory_lem env id r s w none unmarked found is = go (restock out lines w) refl
    where
      lines : List ReturnLine
      lines = (load_from_row s r).lines

      go :
          (x : Result (Unit {0}) × W)
          → restock out lines w ≡ x
          → Holds (Stored id IsRestored) (Interrupted id) (
              and_then {S = ReturnsDb × W}
                (x.0, (s, x.1))
                (λ _. on_first (mark_inventory_restored env id)))
      go (err e, v) h = (r, found, is, inl (rw unmarked refl, (lines, w, h)))
      go (ok _, v) h =
          update_and_load-Stored is_approved (to_restored env) IsRestored (Interrupted id) id r s v
            found (status-is_approved r is) refl
            (is, is_some-coalesce r.inventory_restored_at env.now)

  -- The rest of an approval, for a request whose row has the property `P`.
  Stored-then :
      (P Q : ReturnRow → Type 0) (id : ℕ) (m : Result ReturnRequest × (ReturnsDb × W))
      (f : ReturnRequest → Action (ReturnsDb × W) ReturnRequest)
      → Holds (Stored id P) (Interrupted id) m
      → ((r : ReturnRow) (s : ReturnsDb) (v : W)
          → find_row return_id_of id s.requests ≡ some r
          → P r
          → Holds (Stored id Q) (Interrupted id) (f (load_from_row s r) (s, v)))
      → Holds (Stored id Q) (Interrupted id) (and_then m f)
  Stored-then P Q id m f h k =
      Holds-and_then (Stored id P) (Stored id Q) (Interrupted id) m f h
        (λ q (s, v) (r, is, found, p).
          subst (λ q. Holds (Stored id Q) (Interrupted id) (f q (s, v))) (sym is) (k r s v found p))

  pub settle_return_lem :
      (env : Env) (id : ℕ) (r : ReturnRow) (s : ReturnsDb) (w : W)
      → find_row return_id_of id s.requests ≡ some r
      → IsApproved r
      → Holds
          (Stored id IsRefunded)
          (Interrupted id)
          (settle_return out env id (load_from_row s r) (s, w))
  unfolding load_from_row
  settle_return_lem env id r s w found is =
      Stored-then IsRestored IsRefunded id
        (restore_inventory out env id (load_from_row s r) r.inventory_restored_at (s, w))
        (λ restored. do
          recorded ← record_ledger out env id restored restored.row.ledger_recorded_at
          finish_refund out env id recorded recorded.row.status)
        (restore_inventory_lem env id r s w r.inventory_restored_at refl found is)
        (λ r s v found p.
          Stored-then IsRecorded IsRefunded id
            (record_ledger out env id (load_from_row s r) r.ledger_recorded_at (s, v))
            (λ recorded. finish_refund out env id recorded recorded.row.status)
            (record_ledger_lem env id r s v r.ledger_recorded_at refl found p)
            (λ r s v found p. finish_refund_lem env id r s v found p))
