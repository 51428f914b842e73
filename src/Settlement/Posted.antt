-- ===== src/Settlement/Posted.antt =====
-- Posting a ledger entry again, for `insert` of repositories/ledgerRepo.ts of services/settlement.
use atlas_commerce.Prelude.{
  ℕ, ◌+◌, ◌≤◌, ◌≡◌, refl, sym, subst, inl, inr, Bool, false, Option, none, some, List, [], ◌∷◌,
  sum_by, if◌then◌else◌, ◌==◌, ==_refl, ==_iff, Bool-cases, arith,
}
use atlas_commerce.Shared.Post.{Holds}
use atlas_commerce.Shared.Tx.{ok}
use atlas_commerce.Settlement.Ledger.{
  LedgerEntry, SettlementDb, Env, LedgerInput, has_ref, find_by_ref, existing_entry,
  insert_or_replay, insert_unless, insert,
}

-- How many entries have the reference.
abbrev pub entries_with : ℕ → List LedgerEntry → ℕ
entries_with ref es = sum_by (λ e. if has_ref ref e.external_ref then 1 else 0) es

-- No reference is that of two entries.
abbrev pub HasUniqueRefs : SettlementDb → Type 0
HasUniqueRefs s = (ref : ℕ) → entries_with ref s.ledger_entries ≤ 1

find_by_ref-none :
    (ref : ℕ) (es : List LedgerEntry) → find_by_ref ref es ≡ none → entries_with ref es ≡ 0
unfolding find_by_ref
find_by_ref-none ref [] h = refl
find_by_ref-none ref (e ∷ es) h = elim (Bool-cases (has_ref ref e.external_ref)) [
  | inl hit ↦
      (let no : some e ≡ none =
          subst (λ b. (if b then some e else find_by_ref ref es) ≡ none) hit h in
        cc)
  | inr miss ↦
      (let later = subst (λ b. (if b then some e else find_by_ref ref es) ≡ none) miss h in
        rw miss (omega (arith, find_by_ref-none ref es later)))
]

-- A new entry, of a reference that no entry has.
new_entry_unique :
    (env : Env) (i : LedgerInput) (es : List LedgerEntry) (o : Option ℕ) (ref : ℕ)
    → existing_entry o es ≡ none
    → entries_with ref es ≤ 1
    → (if has_ref ref o then 1 else 0) + entries_with ref es ≤ 1
new_entry_unique env i es none ref free h = omega arith
new_entry_unique env i es (some r) ref free h = elim (Bool-cases (r == ref)) [
  | inr other ↦ rw other (omega arith)
  | inl same ↦
      (let it = (==_iff r ref).0 same in
        let gone = find_by_ref-none r es free in
        let gone' : entries_with ref es ≡ 0 = subst (λ z. entries_with z es ≡ 0) it gone in
        rw same (omega arith))
]

insert-Posted :
    (env : Env) (between : SettlementDb → SettlementDb) (i : LedgerInput) (s : SettlementDb)
    → HasUniqueRefs s
    → HasUniqueRefs (between s)
    → Holds
        (λ (e, b) t.
          HasUniqueRefs t
          × ((ref : ℕ) → i.external_ref ≡ some ref → find_by_ref ref t.ledger_entries ≡ some e))
        (λ _ _. Unit {0})
        (insert env between i s)
unfolding insert find_by_ref
insert-Posted env between i s u v =
    go (existing_entry i.external_ref s.ledger_entries) refl
      (existing_entry i.external_ref (between s).ledger_entries) refl
  where
    found :
        (o : Option ℕ) (es : List LedgerEntry) (e : LedgerEntry) (ref : ℕ)
        → existing_entry o es ≡ some e
        → o ≡ some ref
        → find_by_ref ref es ≡ some e
    found none es e ref h k = cc
    found (some r) es e ref h k = let it : r ≡ ref = cc in rw (sym it) h

    last :
        (y : Option LedgerEntry)
        → existing_entry i.external_ref (between s).ledger_entries ≡ y
        → Holds
            (λ (e, b) t.
              HasUniqueRefs t
              × ((ref : ℕ) → i.external_ref ≡ some ref → find_by_ref ref t.ledger_entries ≡ some e))
            (λ _ _. Unit {0})
            (insert_or_replay env i y (between s))
    last (some e) there =
        (v, λ ref k. found i.external_ref (between s).ledger_entries e ref there k)
    last none there = (
      (λ ref. new_entry_unique env i (between s).ledger_entries i.external_ref ref there (v ref)),
      (λ ref k. rw k (rw (==_refl ref) refl)),
    )

    go :
        (x : Option LedgerEntry)
        → existing_entry i.external_ref s.ledger_entries ≡ x
        → (y : Option LedgerEntry) → existing_entry i.external_ref (between s).ledger_entries ≡ y
        → Holds
            (λ (e, b) t.
              HasUniqueRefs t
              × ((ref : ℕ) → i.external_ref ≡ some ref → find_by_ref ref t.ledger_entries ≡ some e))
            (λ _ _. Unit {0})
            (insert_unless env between i x s)
    go (some e) here y there = (u, λ ref k. found i.external_ref s.ledger_entries e ref here k)
    go none here y there =
        subst
          (λ y.
            Holds
              (λ (e, b) t.
                HasUniqueRefs t
                × ((ref : ℕ)
                    → i.external_ref ≡ some ref
                    → find_by_ref ref t.ledger_entries ≡ some e))
              (λ _ _. Unit {0}) (insert_or_replay env i y (between s)))
          (sym there) (last y there)

-- Posting an entry keeps every external reference that of one entry at most, if the requests that write
-- while it is posted do. Posting under the same reference again, whatever else is posted, returns the
-- first entry, says that it was not created and writes nothing.
pub insert_once :
    (env later : Env) (between meanwhile : SettlementDb → SettlementDb) (i j : LedgerInput)
    (ref : ℕ) (e : LedgerEntry) (b : Bool) (s t : SettlementDb)
    → HasUniqueRefs s
    → HasUniqueRefs (between s)
    → i.external_ref ≡ some ref
    → j.external_ref ≡ some ref
    → insert env between i s ≡ (ok (e, b), t)
    → HasUniqueRefs t × (insert later meanwhile j t ≡ (ok (e, false), t))
unfolding insert
insert_once env later between meanwhile i j ref e b s t u v has_i has_j h =
    let (unique, found) =
      subst
        (Holds
          (λ (e, b) t.
            HasUniqueRefs t
            × ((ref : ℕ) → i.external_ref ≡ some ref → find_by_ref ref t.ledger_entries ≡ some e))
          (λ _ _. Unit {0}))
        h (insert-Posted env between i s u v) in
    (unique, rw has_j (rw (found ref has_i) refl))
