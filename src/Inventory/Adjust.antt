-- ===== src/Inventory/Adjust.antt =====
-- Adjustments of the physical stock (adjustmentService.ts of services/inventory).
use atlas_commerce.Prelude.{
  ℕ, ◌+◌, ◌-◌, ◌≤◌, ◌<◌, ◌≡◌, refl, inl, inr, ◌&&◌, ◌∷◌, some, none, arith, ◌==◌, if◌then◌else◌,
  Option-cases, le→leb, lt→leb_false,
}
use atlas_commerce.Prelude.Int.{pos_part, neg_part}
use atlas_commerce.Shared.Tx.{ok, err}
use atlas_commerce.Inventory.Types.{StockLevel, InventoryDb, Env, RefType}
use atlas_commerce.Inventory.Levels.{
  find_level, replace_level, update_level, adjust_on_hand, level_exists,
}
use atlas_commerce.Inventory.Reservations.{insert_movement}
use atlas_commerce.Inventory.Service.{
  AdjustmentInput, AdjustmentResult, adjust, adjust_body, adjusted, stock_level_not_found,
  stock_adjustment_negative,
}
use atlas_commerce.Inventory.Accounts.{find_level-written, reserved_at, on_hand_at, StockInv}

-- The row after an adjustment.
abbrev adjusted_row : AdjustmentInput → StockLevel → StockLevel
adjusted_row i l = record l { on_hand = l.on_hand + pos_part i.delta - neg_part i.delta }

abbrev pub adjusted_db : Env → AdjustmentInput → StockLevel → InventoryDb → InventoryDb
adjusted_db env i l s = record s {
  levels = replace_level (adjusted_row i l) s.levels;
  movements =
      record {
        id = env.new_id 1;
        warehouse_id = i.warehouse_id;
        product_id = i.product_id;
        delta = i.delta;
        reason = i.reason;
        ref_type = RefType.adjustment;
        ref_id = env.new_id 0;
      }
      ∷ s.movements;
}

-- The three outcomes of an adjustment.
adjust_lem :
    (env : Env) (i : AdjustmentInput) (s : InventoryDb)
    → ((l : StockLevel)
        → find_level i.warehouse_id i.product_id s.levels ≡ some l
        → (neg_part i.delta ≤ l.on_hand + pos_part i.delta
            → adjust env i s ≡ (
              ok (record {
                warehouse_id = l.warehouse_id;
                product_id = l.product_id;
                on_hand = l.on_hand + pos_part i.delta - neg_part i.delta;
                reserved = l.reserved;
                movement_id = env.new_id 1;
              }),
              adjusted_db env i l s,
            ))
          × (l.on_hand + pos_part i.delta < neg_part i.delta
              → adjust env i s ≡ (err stock_adjustment_negative, s)))
      × (find_level i.warehouse_id i.product_id s.levels ≡ none
          → adjust env i s ≡ (err stock_level_not_found, s))
unfolding adjust adjust_body adjust_on_hand update_level adjusted level_exists insert_movement
adjust_lem env i s = (
  (λ l found. (
    (λ fits. rw (found, le→leb _ _ fits) refl),
    λ below. rw found (rw (lt→leb_false _ _ below) (rw found refl)),
  )),
  λ missing. rw missing (rw missing refl),
)

adjusted-levels :
    (env : Env) (i : AdjustmentInput) (l : StockLevel) (s : InventoryDb) (w p : ℕ)
    → find_level i.warehouse_id i.product_id s.levels ≡ some l
    → find_level w p (adjusted_db env i l s).levels ≡ (
        if i.warehouse_id == w && i.product_id == p
        then some (adjusted_row i l)
        else find_level w p s.levels)
adjusted-levels env i l s w p found =
    find_level-written w p i.warehouse_id i.product_id (adjusted_row i l) l s.levels found refl refl

-- An adjustment keeps the invariant as long as it leaves the reserved stock on hand.
pub adjust-StockInv :
    (env : Env) (i : AdjustmentInput) (s : InventoryDb)
    → StockInv s
    → (reserved_at i.warehouse_id i.product_id s + neg_part i.delta
        ≤ on_hand_at i.warehouse_id i.product_id s + pos_part i.delta)
    → StockInv (adjust env i s).1
adjust-StockInv env i s inv room =
    elim (Option-cases (find_level i.warehouse_id i.product_id s.levels)) [
      | inl e ↦ rw ((adjust_lem env i s).1 e) inv
      | inr (l, e) ↦
          let done = ((adjust_lem env i s).0 l e).0 (ground (arith, room, e)) in
          rw done (record {
            balanced = λ w p. ground (arith, adjusted-levels env i l s w p e, inv.balanced w p, e);
            within =
                λ w p. ground (arith, adjusted-levels env i l s w p e, inv.within w p, room, e);
          })
    ]

-- The guard of `adjustOnHand` looks at the stock alone: an adjustment of a level that leaves less than
-- the reserved stock, but not less than zero, returns, and the level has less on hand than is reserved.
pub adjust_overdraws :
    (env : Env) (i : AdjustmentInput) (s : InventoryDb) (l : StockLevel)
    → find_level i.warehouse_id i.product_id s.levels ≡ some l
    → neg_part i.delta ≤ l.on_hand + pos_part i.delta
    → l.on_hand + pos_part i.delta < l.reserved + neg_part i.delta
    → (res : AdjustmentResult) × (t : InventoryDb) × (adjust env i s ≡ (ok res, t))
      × (on_hand_at i.warehouse_id i.product_id t < reserved_at i.warehouse_id i.product_id t)
adjust_overdraws env i s l found fits short = (
  _,
  adjusted_db env i l s,
  ((adjust_lem env i s).0 l found).0 fits,
  ground (arith, adjusted-levels env i l s i.warehouse_id i.product_id found),
)

-- An adjustment that would not go below zero writes the sum to the level and one movement of the
-- same delta, and answers with the new stock.
pub adjust_ok :
    (env : Env) (i : AdjustmentInput) (s : InventoryDb) (l : StockLevel)
    → find_level i.warehouse_id i.product_id s.levels ≡ some l
    → neg_part i.delta ≤ l.on_hand + pos_part i.delta
    → adjust env i s ≡ (
      ok (record {
        warehouse_id = l.warehouse_id;
        product_id = l.product_id;
        on_hand = l.on_hand + pos_part i.delta - neg_part i.delta;
        reserved = l.reserved;
        movement_id = env.new_id 1;
      }),
      adjusted_db env i l s,
    )
adjust_ok env i s l found fits = ((adjust_lem env i s).0 l found).0 fits

-- An adjustment below zero is refused with `STOCK_ADJUSTMENT_NEGATIVE` and changes nothing.
pub adjust_negative :
    (env : Env) (i : AdjustmentInput) (s : InventoryDb) (l : StockLevel)
    → find_level i.warehouse_id i.product_id s.levels ≡ some l
    → l.on_hand + pos_part i.delta < neg_part i.delta
    → adjust env i s ≡ (err stock_adjustment_negative, s)
adjust_negative env i s l found below = ((adjust_lem env i s).0 l found).1 below
