-- ===== src/Settlement/Tests.antt =====
-- A ledger of two entries, a run over it, and the theorems at them.
use atlas_commerce.Prelude.{◌+◌, ◌≡◌, refl, true, false, none, some, [], ◌∷◌, length, arith}
use atlas_commerce.Prelude.Int.{pos}
use atlas_commerce.Shared.Post.{Holds}
use atlas_commerce.Shared.Tx.{ok}
use atlas_commerce.Settlement.Drafts.{HasUniqueIds, IsSettledOnce, run_draft_once}
use atlas_commerce.Settlement.Ledger.{
  EntryType, LedgerEntry, SettlementDb, Env, LedgerInput, find_by_ref, new_entry, insert,
}
use atlas_commerce.Settlement.Posted.{HasUniqueRefs, insert_once}
use atlas_commerce.Settlement.Runs.{picked, run_draft, sum_amounts, total_of}
use atlas_commerce.Settlement.Totals.{run_draft_total}

-- A charge in one currency and a refund in another, on the first day.
abbrev charged : LedgerEntry
charged = record {
  id = 1;
  account = 0;
  order_id = some 4;
  payment_intent_id = some 5;
  amount_cents = pos 1_000;
  currency = 1;
  entry_type = EntryType.charge;
  external_ref = some 50;
  created_at = 100;
}

abbrev refunded : LedgerEntry
refunded = record {
  id = 2;
  account = 9;
  order_id = some 4;
  payment_intent_id = none;
  amount_cents = pos 300;
  currency = 2;
  entry_type = EntryType.refund;
  external_ref = some 60;
  created_at = 200;
}

abbrev db : SettlementDb
db = record { ledger_entries = charged ∷ refunded ∷ []; settlements = []; settlement_lines = [] }

abbrev env : Env
env = record { now = 300; new_id = λ n. n + 10 }

db-HasUniqueIds : HasUniqueIds db
db-HasUniqueIds x = ground arith

db-IsSettledOnce : IsSettledOnce db
db-IsSettledOnce x = omega arith

run_draft_once_example :
    Holds
      (λ view t. (t.ledger_entries ≡ db.ledger_entries) × IsSettledOnce t × (picked 0 0 t ≡ []))
      (λ _ _. ⊥)
      (run_draft env 0 0 db)
run_draft_once_example = run_draft_once env 0 0 db db-HasUniqueIds db-IsSettledOnce

run_draft_total_example :
    Holds
      (λ view t.
        (view.settlement.total_cents ≡ sum_amounts (picked 0 0 db))
        × (view.line_count ≡ length (picked 0 0 db))
        × (total_of view.settlement.id t ≡ view.settlement.total_cents))
      (λ _ _. ⊥)
      (run_draft env 0 0 db)
run_draft_total_example = run_draft_total env 0 0 db db-HasUniqueIds refl

abbrev input : LedgerInput
input = record {
  account = 0;
  order_id = some 8;
  payment_intent_id = none;
  amount_cents = pos 70;
  currency = 1;
  entry_type = EntryType.charge;
  external_ref = some 80;
}

abbrev posted : SettlementDb
posted = record db { ledger_entries = new_entry env input ∷ db.ledger_entries }

insert_runs : insert env (λ s. s) input db ≡ (ok (new_entry env input, true), posted)
unfolding insert find_by_ref
insert_runs = refl

db-HasUniqueRefs : HasUniqueRefs db
db-HasUniqueRefs ref = ground arith

insert_once_example :
    HasUniqueRefs posted
    × (insert env (λ s. s) input posted ≡ (ok (new_entry env input, false), posted))
insert_once_example =
    insert_once env env (λ s. s) (λ s. s) input input 80 (new_entry env input) true db posted
      db-HasUniqueRefs db-HasUniqueRefs refl refl insert_runs
