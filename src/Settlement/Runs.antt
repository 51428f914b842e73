-- ===== src/Settlement/Runs.antt =====
-- services/settlement/src: repositories/settlementsRepo.ts, the `run` of
-- controllers/settlementsController.ts, repositories/settlementLinesRepo.ts and
-- domain/settlementReadService.ts. A day is a number, and a time is in microseconds.
use atlas_commerce.Prelude.{
  ℕ, suc, ◌+◌, ◌*◌, Bool, true, false, not, Option, none, some, List, [], ◌∷◌, ◌++◌, ◌==◌, ltb, leb,
  ◌&&◌, ◌||◌, if◌then◌else◌, keep_if, sort_by, length, take, drop,
}
use atlas_commerce.Prelude.Int.{ℤ, pos, ◌+ℤ◌}
use atlas_commerce.Shared.Errors.{not_found_error, validation_error}
use atlas_commerce.Shared.Rows.{find_row, update_row}
use atlas_commerce.Shared.Tx.{Action, ok, ◌>>=◌, ◌>>◌, throw_if, or_throw, with_tx, gets}
use atlas_commerce.Settlement.Ledger.{
  LedgerEntry, SettlementStatus, Settlement, SettlementLine, SettlementDb, Env,
}

-- A settlement with its `lineCount`.
pub record SettlementView : Type 0 where
  pub settlement : Settlement
  pub line_count : ℕ

abbrev pub settlement_id_of : Settlement → ℕ
settlement_id_of s = s.id

abbrev pub entry_id_of : LedgerEntry → ℕ
entry_id_of e = e.id

-- A day in microseconds
abbrev pub day : ℕ
day = 86_400_000_000

-- `created_at >= start::date AND created_at < end::date + interval '1 day'`
abbrev pub in_period : ℕ → ℕ → LedgerEntry → Bool
in_period start end e = leb (start * day) e.created_at && ltb e.created_at ((end + 1) * day)

-- EXISTS (SELECT 1 FROM settlement_lines sl WHERE sl.ledger_entry_id = le.id)
unfoldable pub is_settled : ℕ → List SettlementLine → Bool
is_settled entry [] = false
is_settled entry (l ∷ ls) = l.ledger_entry_id == entry || is_settled entry ls

abbrev pub is_picked : ℕ → ℕ → List SettlementLine → LedgerEntry → Bool
is_picked start end lines e = in_period start end e && not (is_settled e.id lines)

-- `picked`
unfoldable pub picked : ℕ → ℕ → SettlementDb → List LedgerEntry
picked start end s = keep_if (is_picked start end s.settlement_lines) s.ledger_entries

-- The lines that are inserted for the picked entries; the n-th id is the n-th that is drawn.
abbrev pub lines_for : Env → ℕ → ℕ → List LedgerEntry → List SettlementLine
lines_for env settlement n [] = []
lines_for env settlement n (e ∷ es) =
    record { id = env.new_id n; settlement_id = settlement; ledger_entry_id = e.id }
    ∷ lines_for env settlement (suc n) es

-- SUM of the amounts, 0 of none
abbrev pub sum_amounts : List LedgerEntry → ℤ
sum_amounts [] = pos 0
sum_amounts (e ∷ es) = e.amount_cents +ℤ sum_amounts es

abbrev pub entries_of_lines : List SettlementLine → List LedgerEntry → List LedgerEntry
entries_of_lines [] es = []
entries_of_lines (l ∷ ls) es = keep_if (λ e. e.id == l.ledger_entry_id) es ++ entries_of_lines ls es

abbrev pub lines_of : ℕ → SettlementDb → List SettlementLine
lines_of id s = keep_if (λ l. l.settlement_id == id) s.settlement_lines

-- The sum of the ledger entries of the lines of a settlement, over the join of the two tables.
unfoldable pub total_of : ℕ → SettlementDb → ℤ
total_of id s = sum_amounts (entries_of_lines (lines_of id s) s.ledger_entries)

abbrev pub new_settlement : Env → ℕ → ℕ → Settlement
new_settlement env start end = record {
  id = env.new_id 0;
  period_start = start;
  period_end = end;
  status = SettlementStatus.draft;
  total_cents = pos 0;
  created_at = env.now;
}

-- `totals[0] ?? created[0]!`
abbrev pub or_created : Settlement → Option Settlement → Settlement
or_created created none = created
or_created created (some r) = r

abbrev pub set_total : ℤ → Settlement → Settlement
set_total total r = record r { total_cents = total }

-- The body of the transaction.
abbrev pub draft_body : Env → ℕ → ℕ → Action SettlementDb SettlementView
draft_body env start end s =
    let created = new_settlement env start end in
    let s1 = record s { settlements = created ∷ s.settlements } in
    let lines = lines_for env created.id 1 (picked start end s1) in
    let s2 = record s1 { settlement_lines = lines ++ s1.settlement_lines } in
    let totals =
      update_row settlement_id_of (λ r. true) (set_total (total_of created.id s2)) created.id
        s2.settlements in
    (
      ok (record { settlement = or_created created (totals.0); line_count = length lines }),
      record s2 { settlements = totals.1 },
    )

-- `runDraft`
unfoldable pub run_draft : Env → ℕ → ℕ → Action SettlementDb SettlementView
run_draft env start end = with_tx (draft_body env start end)

-- `run` of the controller, for two dates
unfoldable pub run : Env → ℕ → ℕ → Action SettlementDb SettlementView
run env start end = throw_if (ltb end start) validation_error >> run_draft env start end

abbrev pub viewed : SettlementDb → Option Settlement → Option SettlementView
viewed s none = none
viewed s (some r) = some (record { settlement = r; line_count = length (lines_of r.id s) })

-- `findById`
unfoldable pub find_by_id : ℕ → SettlementDb → Option SettlementView
find_by_id id s = viewed s (find_row settlement_id_of id s.settlements)

-- A line with its ledger entry.
pub record SettlementLineDetail : Type 0 where
  pub line : SettlementLine
  pub ledger_entry : LedgerEntry

abbrev pub detail_of : SettlementLine → Option LedgerEntry → List SettlementLineDetail
detail_of l none = []
detail_of l (some e) = record { line = l; ledger_entry = e } ∷ []

-- The join of the lines with the entries, whose ids are unique.
abbrev pub details : List LedgerEntry → List SettlementLine → List SettlementLineDetail
details es [] = []
details es (l ∷ ls) = detail_of l (find_row entry_id_of l.ledger_entry_id es) ++ details es ls

-- ORDER BY le.created_at, sl.id
abbrev pub detail_before : SettlementLineDetail → SettlementLineDetail → Bool
detail_before x y =
    if x.ledger_entry.created_at == y.ledger_entry.created_at
    then leb x.line.id y.line.id
    else ltb x.ledger_entry.created_at y.ledger_entry.created_at

pub record LinePage : Type 0 where
  pub items : List SettlementLineDetail
  pub total : ℕ

-- `listBySettlement`
unfoldable pub list_by_settlement : ℕ → ℕ → ℕ → SettlementDb → LinePage
list_by_settlement id limit offset s = record {
  items =
      take limit (drop offset (sort_by detail_before (details s.ledger_entries (lines_of id s))));
  total = length (lines_of id s);
}

-- `requireSettlement`
abbrev pub require_settlement : ℕ → Action SettlementDb SettlementView
require_settlement id s = or_throw (find_by_id id s) not_found_error s

-- `listLines`
unfoldable pub list_lines : ℕ → ℕ → ℕ → Action SettlementDb LinePage
list_lines id limit offset = do
  settlement ← require_settlement id
  gets (list_by_settlement id limit offset)

abbrev pub first_detail : List SettlementLineDetail → Option SettlementLineDetail
first_detail [] = none
first_detail (x ∷ xs) = some x

-- `findLine`
unfoldable pub find_line : ℕ → ℕ → SettlementDb → Option SettlementLineDetail
find_line id line s =
    first_detail (details s.ledger_entries (keep_if (λ l. l.id == line) (lines_of id s)))

-- `getLine`
unfoldable pub get_line : ℕ → ℕ → Action SettlementDb SettlementLineDetail
get_line id line s =
    (do settlement ← require_settlement id; or_throw (find_line id line s) not_found_error) s
