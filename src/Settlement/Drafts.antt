-- ===== src/Settlement/Drafts.antt =====
-- Which ledger entries a settlement run collects, for `runDraft` of
-- repositories/settlementsRepo.ts of services/settlement.
use atlas_commerce.Prelude.{
  ℕ, suc, ◌≤◌, ◌≡◌, ◌∙◌, refl, sym, subst, inl, inr, Bool, true, false, ◌&&◌, ◌||◌, List, [], ◌∷◌,
  ◌++◌, ◌==◌, ==_refl, ==_iff, if◌then◌else◌, keep_if, sum_by, sum_by-append, Member, arith,
  Bool-cases,
}
use atlas_commerce.Shared.Post.{Holds}
use atlas_commerce.Settlement.Ledger.{LedgerEntry, SettlementLine, SettlementDb, Env}
use atlas_commerce.Settlement.Runs.{in_period, is_settled, is_picked, picked, lines_for, run_draft}

abbrev pub lines_at : ℕ → List SettlementLine → ℕ
lines_at x ls = sum_by (λ l. if l.ledger_entry_id == x then 1 else 0) ls

abbrev pub entries_at : ℕ → List LedgerEntry → ℕ
entries_at x es = sum_by (λ e. if e.id == x then 1 else 0) es

-- The primary key of the ledger.
abbrev pub HasUniqueIds : SettlementDb → Type 0
HasUniqueIds s = (x : ℕ) → entries_at x s.ledger_entries ≤ 1

-- No ledger entry has two settlement lines.
abbrev pub IsSettledOnce : SettlementDb → Type 0
IsSettledOnce s = (x : ℕ) → lines_at x s.settlement_lines ≤ 1

is_settled-false : (x : ℕ) (ls : List SettlementLine) → is_settled x ls ≡ false → lines_at x ls ≡ 0
unfolding is_settled
is_settled-false x [] h = refl
is_settled-false x (l ∷ ls) h = elim (Bool-cases (l.ledger_entry_id == x)) [
  | inl hit ↦ (let no : true ≡ false = sym (rw hit refl) ∙ h in cc)
  | inr miss ↦
      (let later : is_settled x ls ≡ false = sym (rw miss refl) ∙ h in
        rw miss (omega (arith, is_settled-false x ls later)))
]

lines_at-lines_for :
    (env : Env) (id n x : ℕ) (es : List LedgerEntry)
    → lines_at x (lines_for env id n es) ≡ entries_at x es
lines_at-lines_for env id n x [] = refl
lines_at-lines_for env id n x (e ∷ es) = omega (arith, lines_at-lines_for env id (suc n) x es)

entries_at-keep_if :
    (x : ℕ) (p : LedgerEntry → Bool) (es : List LedgerEntry)
    → entries_at x (keep_if p es) ≤ entries_at x es
entries_at-keep_if x p [] = omega arith
entries_at-keep_if x p (e ∷ es) = ground (arith, entries_at-keep_if x p es)

and_false : (b : Bool) → (b && false) ≡ false
and_false true = refl
and_false false = refl

-- An entry that has a line is not picked.
entries_at-picked :
    (start end x : ℕ) (ls : List SettlementLine) (es : List LedgerEntry)
    → is_settled x ls ≡ true
    → entries_at x (keep_if (is_picked start end ls) es) ≡ 0
entries_at-picked start end x ls [] h = refl
entries_at-picked start end x ls (e ∷ es) h = elim (Bool-cases (e.id == x)) [
  | inl same ↦
      (let has : is_settled e.id ls ≡ true =
          subst (λ z. is_settled z ls ≡ true) (sym ((==_iff e.id x).0 same)) h in
        rw has (rw (and_false (in_period start end e)) (entries_at-picked start end x ls es h)))
  | inr other ↦ elim (Bool-cases (is_picked start end ls e)) [
    | inl keeps ↦ rw keeps (rw other (omega (arith, entries_at-picked start end x ls es h)))
    | inr drops ↦ rw drops (entries_at-picked start end x ls es h)
  ]
]

lines_after :
    (env : Env) (start end id x : ℕ) (ls : List SettlementLine) (es : List LedgerEntry)
    → entries_at x es ≤ 1
    → lines_at x ls ≤ 1
    → lines_at x (lines_for env id 1 (keep_if (is_picked start end ls) es) ++ ls) ≤ 1
lines_after env start end id x ls es unique once =
    let now = keep_if (is_picked start end ls) es in
    let split =
      sum_by-append (λ l. if l.ledger_entry_id == x then 1 else 0) (lines_for env id 1 now) ls in
    elim (Bool-cases (is_settled x ls)) [
      | inl has ↦
          omega (
            arith,
            split,
            lines_at-lines_for env id 1 x now,
            entries_at-picked start end x ls es has,
          )
      | inr has_not ↦ omega (
        arith,
        split,
        lines_at-lines_for env id 1 x now,
        entries_at-keep_if x (is_picked start end ls) es,
        is_settled-false x ls has_not,
      )
    ]

or_true : (b : Bool) → (b || true) ≡ true
or_true true = refl
or_true false = refl

is_settled_later :
    (x : ℕ) (ks ls : List SettlementLine) → is_settled x ls ≡ true → is_settled x (ks ++ ls) ≡ true
unfolding is_settled
is_settled_later x [] ls h = h
is_settled_later x (k ∷ ks) ls h =
    rw (is_settled_later x ks ls h) (or_true (k.ledger_entry_id == x))

is_settled_new :
    (env : Env) (id n : ℕ) (e : LedgerEntry) (es : List LedgerEntry) (ls : List SettlementLine)
    → Member e es
    → is_settled e.id (lines_for env id n es ++ ls) ≡ true
unfolding is_settled
is_settled_new env id n e [] ls m = elim m [ ]
is_settled_new env id n e (y ∷ ys) ls (inl same) = rw same (rw (==_refl y.id) refl)
is_settled_new env id n e (y ∷ ys) ls (inr m) =
    rw (is_settled_new env id (suc n) e ys ls m) (or_true (y.id == e.id))

Member-keep_if :
    (p : LedgerEntry → Bool) (e : LedgerEntry) (es : List LedgerEntry)
    → p e ≡ true
    → Member e es
    → Member e (keep_if p es)
Member-keep_if p e [] h m = elim m [ ]
Member-keep_if p e (y ∷ ys) h (inl same) =
    let keeps : p y ≡ true = subst (λ z. p z ≡ true) same h in rw keeps (inl same)
Member-keep_if p e (y ∷ ys) h (inr m) = elim (Bool-cases (p y)) [
  | inl keeps ↦ rw keeps (inr (Member-keep_if p e ys h m))
  | inr drops ↦ rw drops (Member-keep_if p e ys h m)
]

-- An entry of the period has a line after the run.
settled_after :
    (env : Env) (start end id : ℕ) (e : LedgerEntry) (ls : List SettlementLine)
    (es : List LedgerEntry)
    → in_period start end e ≡ true
    → Member e es
    → is_settled e.id (lines_for env id 1 (keep_if (is_picked start end ls) es) ++ ls) ≡ true
settled_after env start end id e ls es period m =
    let now = keep_if (is_picked start end ls) es in
    elim (Bool-cases (is_settled e.id ls)) [
      | inl has ↦ is_settled_later e.id (lines_for env id 1 now) ls has
      | inr has_not ↦
          (let picks : is_picked start end ls e ≡ true = rw period (rw has_not refl) in
            is_settled_new env id 1 e now ls (Member-keep_if (is_picked start end ls) e es picks m))
    ]

nothing_picked :
    (start end : ℕ) (ls : List SettlementLine) (es : List LedgerEntry)
    → ((e : LedgerEntry) → Member e es → in_period start end e ≡ true → is_settled e.id ls ≡ true)
    → keep_if (is_picked start end ls) es ≡ []
nothing_picked start end ls [] h = refl
nothing_picked start end ls (e ∷ es) h = elim (Bool-cases (in_period start end e)) [
  | inl period ↦
      rw period (rw (h e (inl refl) period) (nothing_picked start end ls es (λ e m. h e (inr m))))
  | inr outside ↦ rw outside (nothing_picked start end ls es (λ e m. h e (inr m)))
]

-- A settlement run returns and keeps the ledger. It leaves no entry of the ledger with two settlement
-- lines, if none had, and every entry of its period then has a line, so that a second run over the same
-- period picks nothing.
pub run_draft_once :
    (env : Env) (start end : ℕ) (s : SettlementDb)
    → HasUniqueIds s
    → IsSettledOnce s
    → Holds
        (λ view t.
          (t.ledger_entries ≡ s.ledger_entries) × IsSettledOnce t × (picked start end t ≡ []))
        (λ _ _. ⊥)
        (run_draft env start end s)
unfolding run_draft picked
run_draft_once env start end s unique once =
    let now = keep_if (is_picked start end s.settlement_lines) s.ledger_entries in
    (
      refl,
      (λ x.
          lines_after env start end (env.new_id 0) x s.settlement_lines s.ledger_entries (unique x)
            (once x)),
      nothing_picked start end (lines_for env (env.new_id 0) 1 now ++ s.settlement_lines)
          s.ledger_entries
          (λ e m period.
            settled_after env start end (env.new_id 0) e s.settlement_lines s.ledger_entries period
              m),
    )
