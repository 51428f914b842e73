-- ===== src/Returns/Repository.antt =====
-- services/returns/src/repositories/returnsRepo.ts
use atlas_commerce.Prelude.{
  ℕ, suc, Bool, true, false, Option, none, some, List, [], ◌∷◌, ◌==◌, leb, ◌&&◌, keep_if, sort_by,
}
use atlas_commerce.Shared.Errors.{Code}
use atlas_commerce.Shared.Rows.{find_row, update_row}
use atlas_commerce.Shared.Tx.{Action, ok, ◌>>=◌, ◌>>◌, throw, or_throw, with_tx}
use atlas_commerce.Returns.Refund.{CalculatedReturnLine}
use atlas_commerce.Returns.Types.{
  ReturnStatus, ReturnLine, ReturnRow, ReturnRequest, ReturnsDb, Env, return_conflict_error,
  return_not_found_error,
}

abbrev pub return_id_of : ReturnRow → ℕ
return_id_of r = r.id

abbrev pub in_id_order : ReturnLine → ReturnLine → Bool
in_id_order x y = leb x.id y.id

-- `loadLines`
unfoldable pub load_lines : ReturnsDb → ℕ → List ReturnLine
load_lines s id = sort_by in_id_order (keep_if (λ l. l.return_id == id) s.lines)

-- `loadFromRow`
unfoldable pub load_from_row : ReturnsDb → ReturnRow → ReturnRequest
load_from_row s r = record { row = r; lines = load_lines s r.id }

abbrev pub loaded : ReturnsDb → Option ReturnRow → Option ReturnRequest
loaded s none = none
loaded s (some r) = some (load_from_row s r)

-- `findById`
unfoldable pub find_by_id : ReturnsDb → ℕ → Option ReturnRequest
find_by_id s id = loaded s (find_row return_id_of id s.requests)

-- `findByIdOrThrow`
unfoldable pub find_by_id_or_throw : ℕ → Action ReturnsDb ReturnRequest
find_by_id_or_throw id s = or_throw (find_by_id s id) return_not_found_error s

-- `conflict`, after `findByIdOrThrow`
abbrev pub status_conflict : ℕ → Action ReturnsDb ReturnRequest
status_conflict id = do
  current ← find_by_id_or_throw id
  throw (return_conflict_error Code.return_status_conflict)

abbrev pub load_updated : ℕ → Option ReturnRow → Action ReturnsDb ReturnRequest
load_updated id (some r) s = (ok (load_from_row s r), s)
load_updated id none s = status_conflict id s

-- `updateAndLoad` of an UPDATE with this WHERE and SET
unfoldable pub update_and_load :
    (ReturnRow → Bool) → (ReturnRow → ReturnRow) → ℕ → Action ReturnsDb ReturnRequest
update_and_load where_ set id s =
    let did = update_row return_id_of where_ set id s.requests in
    load_updated id (did.0) (record s { requests = did.1 })

abbrev pub is_requested : ReturnRow → Bool
is_requested r = elim (r.status) [ ReturnStatus.requested ↦ true | _ ↦ false ]

abbrev pub is_approved : ReturnRow → Bool
is_approved r = elim (r.status) [ ReturnStatus.approved ↦ true | _ ↦ false ]

abbrev pub is_some : Option ℕ → Bool
is_some none = false
is_some (some t) = true

-- COALESCE(t, now())
abbrev pub coalesce : Option ℕ → ℕ → Option ℕ
coalesce none now = some now
coalesce (some t) now = some t

abbrev pub to_approved : Env → ReturnRow → ReturnRow
to_approved env r = record r { status = ReturnStatus.approved; updated_at = env.now }

abbrev pub to_restored : Env → ReturnRow → ReturnRow
to_restored env r = record r {
  inventory_restored_at = coalesce r.inventory_restored_at env.now;
  updated_at = env.now;
}

abbrev pub to_recorded : Env → ReturnRow → ReturnRow
to_recorded env r = record r {
  ledger_recorded_at = coalesce r.ledger_recorded_at env.now;
  updated_at = env.now;
}

abbrev pub to_refunded : Env → ReturnRow → ReturnRow
to_refunded env r = record r { status = ReturnStatus.refunded; updated_at = env.now }

abbrev pub to_rejected : Env → Option ℕ → ReturnRow → ReturnRow
to_rejected env reason r = record r {
  status = ReturnStatus.rejected;
  decision_reason = reason;
  updated_at = env.now;
}

-- `markApproved`
unfoldable pub mark_approved : Env → ℕ → Action ReturnsDb ReturnRequest
mark_approved env = update_and_load is_requested (to_approved env)

-- `markInventoryRestored`
unfoldable pub mark_inventory_restored : Env → ℕ → Action ReturnsDb ReturnRequest
mark_inventory_restored env = update_and_load is_approved (to_restored env)

-- `markLedgerRecorded`
unfoldable pub mark_ledger_recorded : Env → ℕ → Action ReturnsDb ReturnRequest
mark_ledger_recorded env = update_and_load is_approved (to_recorded env)

abbrev pub is_refundable : ReturnRow → Bool
is_refundable r = is_approved r && (is_some r.inventory_restored_at && is_some r.ledger_recorded_at)

-- `markRefunded`
unfoldable pub mark_refunded : Env → ℕ → Action ReturnsDb ReturnRequest
mark_refunded env = update_and_load is_refundable (to_refunded env)

-- `markRejected`
unfoldable pub mark_rejected : Env → Option ℕ → ℕ → Action ReturnsDb ReturnRequest
mark_rejected env reason = update_and_load is_requested (to_rejected env reason)

pub record CreateReturnRecordInput : Type 0 where
  pub order_id : ℕ
  pub customer_id : ℕ
  pub reason : ℕ
  pub total_refund_cents : ℕ
  pub currency : ℕ
  pub lines : List CalculatedReturnLine

abbrev pub new_row : Env → CreateReturnRecordInput → ReturnRow
new_row env i = record {
  id = env.new_id 0;
  order_id = i.order_id;
  customer_id = i.customer_id;
  status = ReturnStatus.requested;
  reason = i.reason;
  decision_reason = none;
  total_refund_cents = i.total_refund_cents;
  currency = i.currency;
  inventory_restored_at = none;
  ledger_recorded_at = none;
  created_at = env.now;
  updated_at = env.now;
}

abbrev pub insert_request : Env → CreateReturnRecordInput → Action ReturnsDb (Unit {0})
insert_request env i s = (ok tt, record s { requests = new_row env i ∷ s.requests })

abbrev pub new_line : ℕ → ℕ → CalculatedReturnLine → ReturnLine
new_line id return_id l = record {
  id = id;
  return_id = return_id;
  product_id = l.product_id;
  qty = l.qty;
  refund_amount_cents = l.refund_amount_cents;
}

-- The loop over the lines; the n-th id is the n-th call of randomUUID().
abbrev pub insert_lines : Env → ℕ → ℕ → List CalculatedReturnLine → Action ReturnsDb (Unit {0})
insert_lines env return_id n [] s = (ok tt, s)
insert_lines env return_id n (l ∷ ls) s =
    insert_lines env return_id (suc n) ls
      (record s { lines = new_line (env.new_id n) return_id l ∷ s.lines })

-- `create`
unfoldable pub create : Env → CreateReturnRecordInput → Action ReturnsDb ReturnRequest
create env i = do
  with_tx (insert_request env i >> insert_lines env (env.new_id 0) 1 i.lines)
  find_by_id_or_throw (env.new_id 0)
