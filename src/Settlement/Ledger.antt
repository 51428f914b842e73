-- ===== src/Settlement/Ledger.antt =====
-- services/settlement/src/repositories/ledgerRepo.ts: `insert`, and what its database keeps. A uuid and
-- a text are numbers, and so is a time, in microseconds. An external reference is not the empty text,
-- which the controller refuses.
use atlas_commerce.Prelude.{
  ℕ, Bool, true, false, Option, none, some, List, [], ◌∷◌, ◌==◌, if◌then◌else◌,
}
use atlas_commerce.Prelude.Int.{ℤ}
use atlas_commerce.Shared.Tx.{Action, ok}

pub data EntryType : Type 0 where
  charge refund fee payout : EntryType

pub record LedgerEntry : Type 0 where
  pub id : ℕ
  pub account : ℕ
  pub order_id : Option ℕ
  pub payment_intent_id : Option ℕ
  pub amount_cents : ℤ
  pub currency : ℕ
  pub entry_type : EntryType
  pub external_ref : Option ℕ
  pub created_at : ℕ

pub data SettlementStatus : Type 0 where
  draft finalized : SettlementStatus

-- A row of `settlements`; a period is two days.
pub record Settlement : Type 0 where
  pub id : ℕ
  pub period_start : ℕ
  pub period_end : ℕ
  pub status : SettlementStatus
  pub total_cents : ℤ
  pub created_at : ℕ

pub record SettlementLine : Type 0 where
  pub id : ℕ
  pub settlement_id : ℕ
  pub ledger_entry_id : ℕ

pub record SettlementDb : Type 0 where
  pub ledger_entries : List LedgerEntry
  pub settlements : List Settlement
  pub settlement_lines : List SettlementLine

-- The database's now(), and the values of successive calls of randomUUID() and gen_random_uuid().
pub record Env : Type 0 where
  pub now : ℕ
  pub new_id : ℕ → ℕ

pub record LedgerInput : Type 0 where
  pub account : ℕ
  pub order_id : Option ℕ
  pub payment_intent_id : Option ℕ
  pub amount_cents : ℤ
  pub currency : ℕ
  pub entry_type : EntryType
  pub external_ref : Option ℕ

abbrev pub has_ref : ℕ → Option ℕ → Bool
has_ref ref none = false
has_ref ref (some r) = r == ref

-- SELECT * ... WHERE external_ref = $1, and its first row; nothing equals NULL.
unfoldable pub find_by_ref : ℕ → List LedgerEntry → Option LedgerEntry
find_by_ref ref [] = none
find_by_ref ref (e ∷ es) = if has_ref ref e.external_ref then some e else find_by_ref ref es

abbrev pub existing_entry : Option ℕ → List LedgerEntry → Option LedgerEntry
existing_entry none es = none
existing_entry (some ref) es = find_by_ref ref es

abbrev pub new_entry : Env → LedgerInput → LedgerEntry
new_entry env i = record {
  id = env.new_id 0;
  account = i.account;
  order_id = i.order_id;
  payment_intent_id = i.payment_intent_id;
  amount_cents = i.amount_cents;
  currency = i.currency;
  entry_type = i.entry_type;
  external_ref = i.external_ref;
  created_at = env.now;
}

-- INSERT ... ON CONFLICT (external_ref) DO NOTHING RETURNING *, where the conflict is this row, and
-- then the row of the answer: `rows[0]`, or `replay[0]!`.
abbrev pub insert_or_replay :
    Env → LedgerInput → Option LedgerEntry → Action SettlementDb (LedgerEntry × Bool)
insert_or_replay env i (some e) s = (ok (e, false), s)
insert_or_replay env i none s =
    (ok (new_entry env i, true), record s { ledger_entries = new_entry env i ∷ s.ledger_entries })

abbrev pub insert_unless :
    Env
    → (SettlementDb → SettlementDb)
    → LedgerInput
    → Option LedgerEntry
    → Action SettlementDb (LedgerEntry × Bool)
insert_unless env between i (some e) s = (ok (e, false), s)
insert_unless env between i none s =
    let s' = between s in
    insert_or_replay env i (existing_entry i.external_ref s'.ledger_entries) s'

-- `insert`; `between` is what other requests write between its first SELECT and its INSERT.
unfoldable pub insert :
    Env → (SettlementDb → SettlementDb) → LedgerInput → Action SettlementDb (LedgerEntry × Bool)
insert env between i s =
    insert_unless env between i (existing_entry i.external_ref s.ledger_entries) s
