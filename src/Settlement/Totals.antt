-- ===== src/Settlement/Totals.antt =====
-- The total and the number of lines of a settlement, for `runDraft` of
-- repositories/settlementsRepo.ts of services/settlement.
use atlas_commerce.Prelude.{
  ℕ, suc, ◌+◌, ◌≤◌, ◌≡◌, ◌∙◌, refl, sym, ap, subst, inl, inr, true, List, [], ◌∷◌, ◌++◌, ◌==◌,
  ==_refl, if◌then◌else◌, keep_if, length, Member, arith, Bool-cases,
}
use atlas_commerce.Prelude.Sorted.{keep_if-Member}
use atlas_commerce.Shared.Post.{Holds}
use atlas_commerce.Settlement.Drafts.{entries_at, HasUniqueIds}
use atlas_commerce.Settlement.Ledger.{LedgerEntry, SettlementLine, SettlementDb, Env}
use atlas_commerce.Settlement.Runs.{
  is_picked, picked, lines_for, sum_amounts, entries_of_lines, lines_of, total_of, run_draft,
}

Member-at : (x : LedgerEntry) (es : List LedgerEntry) → Member x es → 1 ≤ entries_at x.id es
Member-at x [] m = elim m [ ]
Member-at x (y ∷ ys) (inl same) =
    let hit : (y.id == x.id) ≡ true = subst (λ z. (z.id == x.id) ≡ true) same (==_refl x.id) in
    rw hit (omega arith)
Member-at x (y ∷ ys) (inr m) = omega (arith, Member-at x ys m)

none_left : (x : ℕ) (es : List LedgerEntry) → entries_at x es ≡ 0 → keep_if (λ e. e.id == x) es ≡ []
none_left x [] h = refl
none_left x (e ∷ es) h = elim (Bool-cases (e.id == x)) [
  | inl hit ↦ (let no : 1 + entries_at x es ≡ 0 = sym (rw hit refl) ∙ h in absurd (omega arith))
  | inr miss ↦
      (let later : 0 + entries_at x es ≡ 0 = sym (rw miss refl) ∙ h in
        rw miss (none_left x es (omega arith)))
]

-- The entry of an id, by the primary key.
one_entry :
    (x : LedgerEntry) (es : List LedgerEntry)
    → entries_at x.id es ≤ 1
    → Member x es
    → keep_if (λ e. e.id == x.id) es ≡ x ∷ []
one_entry x [] h m = elim m [ ]
one_entry x (y ∷ ys) h (inl same) =
    let hit : (y.id == x.id) ≡ true = subst (λ z. (z.id == x.id) ≡ true) same (==_refl x.id) in
    let count : 1 + entries_at x.id ys ≤ 1 =
      subst (λ b. (if b then 1 else 0) + entries_at x.id ys ≤ 1) hit h in
    let rest = none_left x.id ys (omega arith) in rw hit (rw rest (ap (λ z. z ∷ []) (sym same)))
one_entry x (y ∷ ys) h (inr m) = elim (Bool-cases (y.id == x.id)) [
  | inl hit ↦
      (let count : 1 + entries_at x.id ys ≤ 1 =
          subst (λ b. (if b then 1 else 0) + entries_at x.id ys ≤ 1) hit h in
        let here = Member-at x ys m in absurd (omega arith))
  | inr miss ↦ rw miss (one_entry x ys (omega arith) m)
]

-- The entries of the lines of a new settlement are those that the lines were made for.
joined :
    (env : Env) (id n : ℕ) (xs es : List LedgerEntry) (ls : List SettlementLine)
    → ((x : ℕ) → entries_at x es ≤ 1)
    → ((x : LedgerEntry) → Member x xs → Member x es)
    → keep_if (λ l. l.settlement_id == id) ls ≡ []
    → entries_of_lines (keep_if (λ l. l.settlement_id == id) (lines_for env id n xs ++ ls)) es ≡ xs
joined env id n [] es ls unique within fresh = rw fresh refl
joined env id n (x ∷ xs) es ls unique within fresh = rw (==_refl id) (
    rw (one_entry x es (unique x.id) (within x (inl refl)))
      (rw (joined env id (suc n) xs es ls unique (λ y m. within y (inr m)) fresh) refl))

length-lines_for :
    (env : Env) (id n : ℕ) (es : List LedgerEntry) → length (lines_for env id n es) ≡ length es
length-lines_for env id n [] = refl
length-lines_for env id n (e ∷ es) = ap suc (length-lines_for env id (suc n) es)

-- The settlement that a run returns has one line for each entry that it picks and the sum of their
-- amounts as its total, in whatever currencies and of whatever types they are. The id that is drawn
-- for it is not that of a line.
pub run_draft_total :
    (env : Env) (start end : ℕ) (s : SettlementDb)
    → HasUniqueIds s
    → lines_of (env.new_id 0) s ≡ []
    → Holds
        (λ view t.
          (view.settlement.total_cents ≡ sum_amounts (picked start end s))
          × (view.line_count ≡ length (picked start end s))
          × (total_of view.settlement.id t ≡ view.settlement.total_cents))
        (λ _ _. ⊥)
        (run_draft env start end s)
unfolding run_draft picked total_of
run_draft_total env start end s unique fresh =
    let id = env.new_id 0 in
    let now = keep_if (is_picked start end s.settlement_lines) s.ledger_entries in
    let all =
      joined env id 1 now s.ledger_entries s.settlement_lines unique
        (λ x m. (keep_if-Member (is_picked start end s.settlement_lines) x s.ledger_entries m).0)
        fresh in
    rw (==_refl id) (ap sum_amounts all, length-lines_for env id 1 now, refl)
