-- ===== src/Orders/Export.antt =====
-- The CSV of services/orders/src/domain/orderOperationsService.ts: `toCsv` and `csvCell`. A text is the
-- list of its code units; String of a number is a parameter.
use atlas_commerce.Prelude.{ℕ, Bool, false, List, [], ◌∷◌, ◌++◌, map, ◌==◌, ◌||◌, if◌then◌else◌}
use atlas_commerce.Orders.Types.{OrderStatus}

abbrev pub Text : Type 0
Text = List ℕ

-- The code units of the three characters that csvCell looks for
abbrev pub quote_mark : ℕ
quote_mark = 34

abbrev pub comma : ℕ
comma = 44

abbrev pub newline : ℕ
newline = 10

pub record OrderExportItem : Type 0 where
  pub id : Text
  pub customer_id : Text
  pub status : OrderStatus
  pub currency : Text
  pub subtotal_cents : ℕ
  pub total_cents : ℕ
  pub item_count : ℕ
  pub placed_at : Text
  pub updated_at : Text

abbrev pub status_text : OrderStatus → Text
status_text OrderStatus.pending = 112 ∷ 101 ∷ 110 ∷ 100 ∷ 105 ∷ 110 ∷ 103 ∷ []
status_text OrderStatus.reserved = 114 ∷ 101 ∷ 115 ∷ 101 ∷ 114 ∷ 118 ∷ 101 ∷ 100 ∷ []
status_text OrderStatus.confirmed = 99 ∷ 111 ∷ 110 ∷ 102 ∷ 105 ∷ 114 ∷ 109 ∷ 101 ∷ 100 ∷ []
status_text OrderStatus.shipped = 115 ∷ 104 ∷ 105 ∷ 112 ∷ 112 ∷ 101 ∷ 100 ∷ []
status_text OrderStatus.cancelled = 99 ∷ 97 ∷ 110 ∷ 99 ∷ 101 ∷ 108 ∷ 108 ∷ 101 ∷ 100 ∷ []
status_text OrderStatus.failed = 102 ∷ 97 ∷ 105 ∷ 108 ∷ 101 ∷ 100 ∷ []

-- `header`
abbrev pub csv_header : List Text
csv_header =
    (105 ∷ 100 ∷ [])
    ∷ (99 ∷ 117 ∷ 115 ∷ 116 ∷ 111 ∷ 109 ∷ 101 ∷ 114 ∷ 73 ∷ 100 ∷ [])
    ∷ (115 ∷ 116 ∷ 97 ∷ 116 ∷ 117 ∷ 115 ∷ [])
    ∷ (99 ∷ 117 ∷ 114 ∷ 114 ∷ 101 ∷ 110 ∷ 99 ∷ 121 ∷ [])
    ∷ (115 ∷ 117 ∷ 98 ∷ 116 ∷ 111 ∷ 116 ∷ 97 ∷ 108 ∷ 67 ∷ 101 ∷ 110 ∷ 116 ∷ 115 ∷ [])
    ∷ (116 ∷ 111 ∷ 116 ∷ 97 ∷ 108 ∷ 67 ∷ 101 ∷ 110 ∷ 116 ∷ 115 ∷ [])
    ∷ (105 ∷ 116 ∷ 101 ∷ 109 ∷ 67 ∷ 111 ∷ 117 ∷ 110 ∷ 116 ∷ [])
    ∷ (112 ∷ 108 ∷ 97 ∷ 99 ∷ 101 ∷ 100 ∷ 65 ∷ 116 ∷ [])
    ∷ (117 ∷ 112 ∷ 100 ∷ 97 ∷ 116 ∷ 101 ∷ 100 ∷ 65 ∷ 116 ∷ [])
    ∷ []

-- /[",\n]/.test
unfoldable pub has_special : Text → Bool
has_special [] = false
has_special (c ∷ cs) = (c == quote_mark) || ((c == comma) || ((c == newline) || has_special cs))

-- raw.replaceAll("\"", "\"\"")
unfoldable pub doubled : Text → Text
doubled [] = []
doubled (c ∷ cs) = let rest = doubled cs in if c == quote_mark then c ∷ c ∷ rest else c ∷ rest

-- `csvCell` of a text
unfoldable pub csv_cell : Text → Text
csv_cell raw = if has_special raw then quote_mark ∷ (doubled raw ++ (quote_mark ∷ [])) else raw

-- `join`
unfoldable pub join_with : ℕ → List Text → Text
join_with sep [] = []
join_with sep (x ∷ []) = x
join_with sep (x ∷ y ∷ ys) = x ++ (sep ∷ join_with sep (y ∷ ys))

abbrev pub item_cells : (ℕ → Text) → OrderExportItem → List Text
item_cells string_of item =
    item.id
    ∷ item.customer_id
    ∷ status_text item.status
    ∷ item.currency
    ∷ string_of item.subtotal_cents
    ∷ string_of item.total_cents
    ∷ string_of item.item_count
    ∷ item.placed_at
    ∷ item.updated_at
    ∷ []

abbrev pub csv_row : List Text → Text
csv_row cells = join_with comma (map csv_cell cells)

-- `toCsv`; the names of the columns hold no character that csvCell would quote.
unfoldable pub to_csv : (ℕ → Text) → List OrderExportItem → Text
to_csv string_of items =
    join_with newline
      (join_with comma csv_header ∷ map (λ item. csv_row (item_cells string_of item)) items)
