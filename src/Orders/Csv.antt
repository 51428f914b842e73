-- ===== src/Orders/Csv.antt =====
-- The exported CSV is read back by a reader of the format: a cell is bare, or quoted with the quotes in
-- it doubled, and outside quotes a row ends at a line feed or a carriage return
-- (services/orders/src/domain/orderOperationsService.ts, toCsv).
use atlas_commerce.Prelude.{
  ℕ, ◌||◌, Bool, All, ◌≡◌, refl, sym, ap, ◌∙◌, ◌⊎◌, inl, inr, false, List, [], ◌∷◌, ◌++◌, map, ◌==◌,
  if◌then◌else◌, arith, Bool-cases, append_assoc, append_nil,
}
use atlas_commerce.Orders.Export.{
  Text, quote_mark, comma, newline, OrderExportItem, csv_header, has_special, doubled, csv_cell,
  join_with, item_cells, csv_row, to_csv,
}

-- Where the reader is: at the start of a cell, in a bare cell, in a quoted cell, or after a quote in it.
pub data Mode : Type 0 where
  start bare quoted closing : Mode

-- The rows whose first cell is still to be read: with one more character, with a cell before it, or
-- with a row before it.
abbrev pub push : ℕ → List (List Text) → List (List Text)
push c [] = []
push c ([] ∷ rows) = [] ∷ rows
push c ((x ∷ xs) ∷ rows) = ((c ∷ x) ∷ xs) ∷ rows

abbrev pub new_cell : List (List Text) → List (List Text)
new_cell [] = []
new_cell (row ∷ rows) = ([] ∷ row) ∷ rows

abbrev pub new_row : List (List Text) → List (List Text)
new_row rows = ([] ∷ []) ∷ rows

abbrev pub carriage_return : ℕ
carriage_return = 13

-- The text has a carriage return, which csvCell does not quote.
abbrev pub has_return : Text → Bool
has_return [] = false
has_return (c ∷ cs) = (c == carriage_return) || has_return cs

abbrev pub IsPlain : List Text → Type 0
IsPlain = All (λ x. has_return x ≡ false)

-- The character outside quotes
abbrev pub separated : ℕ → List (List Text) → List (List Text) → List (List Text)
separated c next more =
    if c == comma
    then new_cell next
    else if (c == newline) || (c == carriage_return)
    then new_row next
    else push c more

unfoldable pub read_csv : Mode → Text → List (List Text)
read_csv m [] = ([] ∷ []) ∷ []
read_csv Mode.start (c ∷ cs) =
    let next = read_csv Mode.start cs in
    let more = read_csv Mode.bare cs in
    let inside = read_csv Mode.quoted cs in
    if c == quote_mark then inside else separated c next more
read_csv Mode.bare (c ∷ cs) =
    let next = read_csv Mode.start cs in let more = read_csv Mode.bare cs in separated c next more
read_csv Mode.quoted (c ∷ cs) =
    let inside = read_csv Mode.quoted cs in
    let after = read_csv Mode.closing cs in if c == quote_mark then after else push c inside
read_csv Mode.closing (c ∷ cs) =
    let next = read_csv Mode.start cs in
    let more = read_csv Mode.bare cs in
    let inside = read_csv Mode.quoted cs in
    if c == quote_mark then push c inside else separated c next more

abbrev pub prepend : Text → List (List Text) → List (List Text)
prepend [] rows = rows
prepend (c ∷ cs) rows = push c (prepend cs rows)

-- Nothing follows, or the end of a cell or of a row.
abbrev Ends : Text → Type 0
Ends t = (t ≡ []) ⊎ ((u : Text) × ((t ≡ comma ∷ u) ⊎ (t ≡ newline ∷ u)))

read_bare :
    (raw t : Text)
    → has_special raw ≡ false
    → has_return raw ≡ false
    → read_csv Mode.bare (raw ++ t) ≡ prepend raw (read_csv Mode.bare t)
unfolding has_special read_csv
read_bare [] t h plain = refl
read_bare (c ∷ cs) t h plain = ground (arith, read_bare cs t)

read_quoted :
    (raw t : Text)
    → read_csv Mode.quoted (doubled raw ++ (quote_mark ∷ t)) ≡ prepend raw (read_csv Mode.closing t)
unfolding doubled read_csv
read_quoted [] t = refl
read_quoted (c ∷ cs) t = ground (arith, read_quoted cs t)

-- At the end of a cell, it does not matter how the reader came there.
start_Ends : (t : Text) → Ends t → read_csv Mode.start t ≡ read_csv Mode.bare t
unfolding read_csv
start_Ends [] e = refl
start_Ends (c ∷ cs) e = ground (arith)

closing_Ends : (t : Text) → Ends t → read_csv Mode.closing t ≡ read_csv Mode.bare t
unfolding read_csv
closing_Ends [] e = refl
closing_Ends (c ∷ cs) e = ground (arith)

read_raw :
    (raw t : Text)
    → Ends t
    → has_special raw ≡ false
    → has_return raw ≡ false
    → read_csv Mode.start (raw ++ t) ≡ prepend raw (read_csv Mode.bare t)
unfolding has_special read_csv
read_raw [] t e h plain = start_Ends t e
read_raw (c ∷ cs) t e h plain = ground (arith, read_bare cs t)

read_closed :
    (raw t : Text)
    → Ends t
    → read_csv Mode.start ((quote_mark ∷ (doubled raw ++ (quote_mark ∷ []))) ++ t)
      ≡ prepend raw (read_csv Mode.bare t)
unfolding read_csv
read_closed raw t e =
    rw (append_assoc (doubled raw) (quote_mark ∷ []) t)
      (read_quoted raw t ∙ ap (prepend raw) (closing_Ends t e))

read_cell :
    (raw t : Text)
    → Ends t
    → has_return raw ≡ false
    → read_csv Mode.start (csv_cell raw ++ t) ≡ prepend raw (read_csv Mode.bare t)
unfolding csv_cell
read_cell raw t e plain = elim (Bool-cases (has_special raw)) [
  | inl h ↦ rw h (read_closed raw t e)
  | inr h ↦ rw h (read_raw raw t e h plain)
]

prepend_first :
    (raw : Text) (row : List Text) (rows : List (List Text))
    → prepend raw (([] ∷ row) ∷ rows) ≡ (raw ∷ row) ∷ rows
prepend_first [] row rows = refl
prepend_first (c ∷ cs) row rows = ap (push c) (prepend_first cs row rows)

-- The rows after the first, which ends where `t` begins.
abbrev rows_after : Text → List (List Text)
rows_after [] = []
rows_after (c ∷ u) = read_csv Mode.start u

abbrev RowEnds : Text → Type 0
RowEnds t = (t ≡ []) ⊎ ((u : Text) × (t ≡ newline ∷ u))

bare_RowEnds : (t : Text) → RowEnds t → read_csv Mode.bare t ≡ ([] ∷ []) ∷ rows_after t
unfolding read_csv
bare_RowEnds [] e = refl
bare_RowEnds (c ∷ cs) e = ground (arith)

RowEnds-Ends : (t : Text) → RowEnds t → Ends t
RowEnds-Ends t (inl h) = inl h
RowEnds-Ends t (inr (u, h)) = inr (u, inr h)

read_row :
    (x : Text) (xs : List Text) (t : Text)
    → RowEnds t
    → IsPlain (x ∷ xs)
    → read_csv Mode.start (csv_row (x ∷ xs) ++ t) ≡ (x ∷ xs) ∷ rows_after t
unfolding join_with read_csv
read_row x [] t e (p, _) =
    read_cell x t (RowEnds-Ends t e) p
    ∙ (ap (prepend x) (bare_RowEnds t e) ∙ prepend_first x [] (rows_after t))
read_row x (y ∷ ys) t e (p, ps) =
    let rest : Text = csv_row (y ∷ ys) in
    rw (append_assoc (csv_cell x) (comma ∷ rest) t) (
      read_cell x (comma ∷ (rest ++ t)) (inr (rest ++ t, inl refl)) p
      ∙ (ap (λ r. prepend x (new_cell r)) (read_row y ys t e ps)
          ∙ prepend_first x (y ∷ ys) (rows_after t)))

read_rows :
    (string_of : ℕ → Text) (x : Text) (xs : List Text) (items : List OrderExportItem)
    → IsPlain (x ∷ xs)
    → All (λ i. IsPlain (item_cells string_of i)) items
    → read_csv Mode.start
        (join_with newline (csv_row (x ∷ xs) ∷ map (λ i. csv_row (item_cells string_of i)) items))
      ≡ (x ∷ xs) ∷ map (item_cells string_of) items
unfolding join_with
read_rows string_of x xs [] p _ =
    sym (ap (read_csv Mode.start) (append_nil (csv_row (x ∷ xs)))) ∙ read_row x xs [] (inl refl) p
read_rows string_of x xs (i ∷ is) p (q, qs) =
    read_row x xs _ (inr (_, refl)) p ∙ ap (λ r. (x ∷ xs) ∷ r) (read_rows string_of _ _ is q qs)

csv_header-IsPlain : IsPlain csv_header
csv_header-IsPlain = (refl, (refl, (refl, (refl, (refl, (refl, (refl, (refl, (refl, tt)))))))))

-- A reader of the format finds in the exported text the header and then the cells of every item, commas,
-- quotes and line feeds included, if no cell holds a carriage return.
pub to_csv_reads :
    (string_of : ℕ → Text) (items : List OrderExportItem)
    → All (λ i. IsPlain (item_cells string_of i)) items
    → read_csv Mode.start (to_csv string_of items) ≡ csv_header ∷ map (item_cells string_of) items
unfolding to_csv csv_cell has_special
to_csv_reads string_of items plain = read_rows string_of _ _ items csv_header-IsPlain plain
