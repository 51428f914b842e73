-- ===== src/Returns/Moves.antt =====
-- How the operations of services/returns move a stored return: its status machine and its marks.
use atlas_commerce.Prelude.{
  ℕ, ◌≡◌, ◌∙◌, refl, sym, subst, inl, inr, Bool, true, Option, none, some, ◌==◌, Option-cases,
  Bool-cases, ==_iff,
}
use atlas_commerce.Shared.Rows.{
  find_row, find_row-key, find_row-replace_row, find_row-replace_row_other,
}
use atlas_commerce.Returns.Repository.{return_id_of, update_and_load, coalesce, is_some}
use atlas_commerce.Returns.Types.{ReturnStatus, ReturnRow, ReturnsDb}
use atlas_commerce.Returns.Updates.{
  written, update_and_load_hit, update_and_load_miss, update_and_load_refused,
}

-- The status machine.
pub data Step : ReturnStatus → ReturnStatus → Type 0 where
  approve : Step ReturnStatus.requested ReturnStatus.approved
  refund : Step ReturnStatus.approved ReturnStatus.refunded
  reject : Step ReturnStatus.requested ReturnStatus.rejected

pub data Reach : ReturnStatus → ReturnStatus → Type 0 where
  here : {a : ReturnStatus} → Reach a a
  next : {a b c : ReturnStatus} → Reach a b → Step b c → Reach a c

pub Reach-trans : {a b c : ReturnStatus} → Reach a b → Reach b c → Reach a c
Reach-trans p here = p
Reach-trans p (next q s) = next (Reach-trans p q) s

-- A return is refunded only with both marks set.
abbrev pub IsSettled : ReturnRow → Type 0
IsSettled r =
    r.status ≡ ReturnStatus.refunded
    → (is_some r.inventory_restored_at ≡ true) × (is_some r.ledger_recorded_at ≡ true)

-- A set mark stays as it is.
abbrev pub Lasts : Option ℕ → Option ℕ → Type 0
Lasts none o = Unit
Lasts (some t) o = o ≡ some t

-- What may become of a row: its status moves by the machine, its marks last, and what was asked
-- stays.
abbrev pub Moved : ReturnRow → ReturnRow → Type 0
Moved r r' =
    Reach r.status r'.status
    × (IsSettled r → IsSettled r')
    × Lasts r.inventory_restored_at r'.inventory_restored_at
    × Lasts r.ledger_recorded_at r'.ledger_recorded_at
    × (r'.total_refund_cents ≡ r.total_refund_cents)

-- Every stored return is still stored, and moved.
abbrev pub Advanced : ReturnsDb → ReturnsDb → Type 0
Advanced s t =
    (id : ℕ) (r : ReturnRow)
    → find_row return_id_of id s.requests ≡ some r
    → (r' : ReturnRow) × (find_row return_id_of id t.requests ≡ some r') × Moved r r'

pub Lasts-refl : (o : Option ℕ) → Lasts o o
Lasts-refl none = tt
Lasts-refl (some t) = refl

Lasts-trans : (a b c : Option ℕ) → Lasts a b → Lasts b c → Lasts a c
Lasts-trans none b c p q = tt
Lasts-trans (some t) none c p q = cc
Lasts-trans (some t) (some u) c p q = q ∙ p

pub Lasts-coalesce : (o : Option ℕ) (now : ℕ) → Lasts o (coalesce o now)
Lasts-coalesce none now = tt
Lasts-coalesce (some t) now = refl

pub Moved-refl : (r : ReturnRow) → Moved r r
Moved-refl r =
    (here, (λ h. h), Lasts-refl r.inventory_restored_at, Lasts-refl r.ledger_recorded_at, refl)

Moved-trans : (a b c : ReturnRow) → Moved a b → Moved b c → Moved a c
Moved-trans a b c (p, sp, ip, lp, tp) (q, sq, iq, lq, tq) = (
  Reach-trans p q,
  (λ h. sq (sp h)),
  Lasts-trans a.inventory_restored_at b.inventory_restored_at c.inventory_restored_at ip iq,
  Lasts-trans a.ledger_recorded_at b.ledger_recorded_at c.ledger_recorded_at lp lq,
  tq ∙ tp,
)

pub Advanced-refl : (s : ReturnsDb) → Advanced s s
Advanced-refl s id r found = (r, found, Moved-refl r)

pub Advanced-trans : (a b c : ReturnsDb) → Advanced a b → Advanced b c → Advanced a c
Advanced-trans a b c p q id r found =
    let (r', found', m) = p id r found in
    let (r'', found'', m') = q id r' found' in (r'', found'', Moved-trans r r' r'' m m')

-- Writing a moved row.
written-Advanced :
    (id : ℕ) (s : ReturnsDb) (r r' : ReturnRow)
    → find_row return_id_of id s.requests ≡ some r
    → r'.id ≡ r.id
    → Moved r r'
    → Advanced s (written s r')
written-Advanced id s r r' found kept m other x at = elim (Bool-cases (r'.id == other)) [
  | inl same ↦
      (let key = find_row-key return_id_of id s.requests r found in
        let it : id ≡ other = sym (kept ∙ key) ∙ (==_iff r'.id other).0 same in
        let at' : find_row return_id_of id s.requests ≡ some x =
          subst (λ z. find_row return_id_of z s.requests ≡ some x) (sym it) at in
        let was : r ≡ x = cc in
        (
          r',
          find_row-replace_row return_id_of other s.requests x r' ((==_iff r'.id other).0 same) at,
          subst (λ x. Moved x r') was m,
        ))
  | inr differs ↦ (
    x,
    find_row-replace_row_other return_id_of other s.requests r'
          (λ e. let hit = (==_iff r'.id other).1 e in cc)
        ∙ at,
    Moved-refl x,
  )
]

pub update_and_load-Advanced :
    (where_ : ReturnRow → Bool) (set : ReturnRow → ReturnRow) (id : ℕ) (s : ReturnsDb)
    → ((r : ReturnRow) → where_ r ≡ true → ((set r).id ≡ r.id) × Moved r (set r))
    → Advanced s (update_and_load where_ set id s).1
update_and_load-Advanced where_ set id s moves =
    elim (Option-cases (find_row return_id_of id s.requests)) [
      | inl miss ↦ rw (update_and_load_miss where_ set id s miss) (Advanced-refl s)
      | inr (r, found) ↦ elim (Bool-cases (where_ r)) [
        | inl may ↦
            (let (kept, m) = moves r may in
              rw (update_and_load_hit where_ set id s r found may)
                (written-Advanced id s r (set r) found kept m))
        | inr refuses ↦
            rw (update_and_load_refused where_ set id s r found refuses) (Advanced-refl s)
      ]
    ]
