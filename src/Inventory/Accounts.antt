-- ===== src/Inventory/Accounts.antt =====
-- The quantities of one stock level, read by its key, and how the writes move them.
use atlas_commerce.Prelude.{
  ℕ, ◌+◌, ◌≤◌, ◌≡◌, ◌≢◌, refl, sym, subst, ◌∙◌, All, ◌⊎◌, inl, inr, Bool, true, false, ◌&&◌, Option,
  none, some, List, [], ◌∷◌, arith, ◌==◌, if◌then◌else◌, sum_by, keep_if, sum_by-sort_by,
  sum_by-keep_if, Bool-cases, Option-cases,
}
use atlas_commerce.Shared.Tx.{ok}
use atlas_commerce.Inventory.Types.{
  StockLevel, Reservation, ReservationStatus, ReservationLine, InventoryDb, is_pending,
}
use atlas_commerce.Inventory.Levels.{find_level, replace_level, update_level, is_at}
use atlas_commerce.Inventory.Reservations.{find_reservation, replace_status, lines_of, line_order}

abbrev pub reserved_in : Option StockLevel → ℕ
reserved_in none = 0
reserved_in (some l) = l.reserved

abbrev pub on_hand_in : Option StockLevel → ℕ
on_hand_in none = 0
on_hand_in (some l) = l.on_hand

pub find_level-key :
    (w p : ℕ) (ls : List StockLevel) (l : StockLevel)
    → find_level w p ls ≡ some l
    → (l.warehouse_id ≡ w) × (l.product_id ≡ p)
unfolding find_level
find_level-key w p [] l h = cc
find_level-key w p (x ∷ ls) l h = ground (arith, find_level-key w p ls l)

-- Reading after a write to a row that is there.
pub find_level-replace_level :
    (w p : ℕ) (r old : StockLevel) (ls : List StockLevel)
    → find_level r.warehouse_id r.product_id ls ≡ some old
    → find_level w p (replace_level r ls) ≡ (if is_at w p r then some r else find_level w p ls)
unfolding find_level replace_level
find_level-replace_level w p r old [] h = cc
find_level-replace_level w p r old (x ∷ ls) h =
    ground (arith, find_level-replace_level w p r old ls)

-- The same by the key that the write was asked for.
pub find_level-written :
    (w p a b : ℕ) (r old : StockLevel) (ls : List StockLevel)
    → find_level a b ls ≡ some old
    → r.warehouse_id ≡ old.warehouse_id
    → r.product_id ≡ old.product_id
    → find_level w p (replace_level r ls) ≡ (if a == w && b == p then some r else find_level w p ls)
find_level-written w p a b r old ls h hw hp =
    let key = find_level-key a b ls old h in
    let ew = hw ∙ key.0 in
    let ep = hp ∙ key.1 in
    let at =
      subst (λ x. find_level x r.product_id ls ≡ some old) (sym ew)
        (subst (λ y. find_level a y ls ≡ some old) (sym ep) h) in
    ground (arith, find_level-replace_level w p r old ls at, ew, ep)

-- The two outcomes of an UPDATE by key.
pub update_level_lem :
    (w p : ℕ) (guard : StockLevel → Bool) (f : StockLevel → StockLevel) (s : InventoryDb)
    → (update_level w p guard f s ≡ (ok none, s))
      ⊎ ((l : StockLevel) × (find_level w p s.levels ≡ some l)
          × (guard l ≡ true)
          × (update_level w p guard f s
              ≡ (ok (some (f l)), record s { levels = replace_level (f l) s.levels })))
unfolding update_level
update_level_lem w p guard f s = elim (Option-cases (find_level w p s.levels)) [
  | inl e ↦ inl (rw e)
  | inr (l, e) ↦ elim (Bool-cases (guard l)) [
    | inl g ↦ inr (l, e, g, rw (e, g))
    | inr g ↦ inl (rw (e, g))
  ]
]

-- An UPDATE by key of a row that is there and meets the guard.
pub update_level_hit :
    (w p : ℕ) (guard : StockLevel → Bool) (f : StockLevel → StockLevel) (s : InventoryDb)
    (l : StockLevel)
    → find_level w p s.levels ≡ some l
    → guard l ≡ true
    → update_level w p guard f s
      ≡ (ok (some (f l)), record s { levels = replace_level (f l) s.levels })
unfolding update_level
update_level_hit w p guard f s l found fits = rw (found, fits)

-- The quantity of a list of lines at one warehouse and product.
abbrev pub qty_if : ℕ → ℕ → ReservationLine → ℕ
qty_if w p l = if l.warehouse_id == w && l.product_id == p then l.qty else 0

abbrev pub qty_at : ℕ → ℕ → List ReservationLine → ℕ
qty_at w p = sum_by (qty_if w p)

abbrev pub pending_in : Option Reservation → Bool
pending_in none = false
pending_in (some r) = is_pending r.status

-- What the pending reservations hold at one warehouse and product.
unfoldable pub held : ℕ → ℕ → List Reservation → List ReservationLine → ℕ
held w p rs [] = 0
held w p rs (l ∷ ls) =
    (if pending_in (find_reservation l.reservation_id rs) then qty_if w p l else 0) + held w p rs ls

pub find_reservation-replace_status :
    (id j : ℕ) (st : ReservationStatus) (r : Reservation) (rs : List Reservation)
    → find_reservation id rs ≡ some r
    → find_reservation j (replace_status id st rs)
      ≡ (if id == j then some (record r { status = st }) else find_reservation j rs)
unfolding find_reservation replace_status
find_reservation-replace_status id j st r [] h = cc
find_reservation-replace_status id j st r (x ∷ rs) h =
    ground (arith, find_reservation-replace_status id j st r rs)

pub qty_at-lines_of :
    (w p id : ℕ) (ls : List ReservationLine)
    → qty_at w p (lines_of id ls)
      ≡ sum_by (λ l. if l.reservation_id == id then qty_if w p l else 0) ls
unfolding lines_of
qty_at-lines_of w p id ls =
    rw (sum_by-sort_by (qty_if w p) line_order (keep_if (λ l. l.reservation_id == id) ls))
      (sum_by-keep_if (qty_if w p) (λ l. l.reservation_id == id) ls)

held-replace_status_sum :
    (w p id : ℕ) (st : ReservationStatus) (r : Reservation) (rs : List Reservation)
    (ls : List ReservationLine)
    → find_reservation id rs ≡ some r
    → is_pending r.status ≡ true
    → is_pending st ≡ false
    → held w p (replace_status id st rs) ls
        + sum_by (λ l. if l.reservation_id == id then qty_if w p l else 0) ls
      ≡ held w p rs ls
unfolding held
held-replace_status_sum w p id st r rs [] found was now = refl
held-replace_status_sum w p id st r rs (l ∷ ls) found was now = ground (
  arith,
  held-replace_status_sum w p id st r rs ls found was now,
  find_reservation-replace_status id l.reservation_id st r rs found,
)

-- A reservation that stops being pending sets free exactly its own lines.
pub held-replace_status :
    (w p id : ℕ) (st : ReservationStatus) (r : Reservation) (rs : List Reservation)
    (ls : List ReservationLine)
    → find_reservation id rs ≡ some r
    → is_pending r.status ≡ true
    → is_pending st ≡ false
    → held w p (replace_status id st rs) ls + qty_at w p (lines_of id ls) ≡ held w p rs ls
held-replace_status w p id st r rs ls found was now =
    rw (qty_at-lines_of w p id ls) (held-replace_status_sum w p id st r rs ls found was now)

-- A new line of a pending reservation holds its quantity.
pub held-cons :
    (w p : ℕ) (rs : List Reservation) (l : ReservationLine) (ls : List ReservationLine)
    → pending_in (find_reservation l.reservation_id rs) ≡ true
    → held w p rs (l ∷ ls) ≡ qty_if w p l + held w p rs ls
unfolding held
held-cons w p rs l ls h = ground arith

-- A reservation without lines holds nothing.
pub held-new :
    (w p : ℕ) (r : Reservation) (rs : List Reservation) (ls : List ReservationLine)
    → All (λ l. l.reservation_id ≢ r.id) ls
    → held w p (r ∷ rs) ls ≡ held w p rs ls
unfolding held find_reservation
held-new w p r rs [] h = refl
held-new w p r rs (l ∷ ls) h = ground (arith, held-new w p r rs ls h.1)

module _ (w p : ℕ) (s : InventoryDb) where
  abbrev pub reserved_at : ℕ
  reserved_at = reserved_in (find_level w p s.levels)

  abbrev pub on_hand_at : ℕ
  on_hand_at = on_hand_in (find_level w p s.levels)

  abbrev pub held_at : ℕ
  held_at = held w p s.reservations s.lines

-- A uuid that neither table of reservations knows.
abbrev pub IsUnused : ℕ → InventoryDb → Type 0
IsUnused id s =
    (find_reservation id s.reservations ≡ none) × All (λ l. l.reservation_id ≢ id) s.lines

-- The reserved stock of every level is what the pending reservations hold there, and it is on hand.
pub record StockInv (s : InventoryDb) : Type 0 where
  pub balanced : (w p : ℕ) → reserved_at w p s ≡ held_at w p s
  pub within : (w p : ℕ) → reserved_at w p s ≤ on_hand_at w p s

-- Reserved and held stock moved by the same amount, and no level was overdrawn.
abbrev pub Moved : ℕ → ℕ → InventoryDb → InventoryDb → Type 0
Moved w p s t =
    (reserved_at w p t + held_at w p s ≡ reserved_at w p s + held_at w p t)
    × (reserved_at w p s ≤ on_hand_at w p s → reserved_at w p t ≤ on_hand_at w p t)

pub Moved-StockInv :
    (s t : InventoryDb) → ((k : ℕ × ℕ) → Moved k.0 k.1 s t) → StockInv s → StockInv t
Moved-StockInv s t moved inv = record {
  balanced = λ w p. omega (arith, (moved (w, p)).0, inv.balanced w p);
  within = λ w p. (moved (w, p)).1 (inv.within w p);
}
