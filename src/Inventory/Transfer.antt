-- ===== src/Inventory/Transfer.antt =====
-- Transfers and cycle counts (stockOperationsService.ts of services/inventory).
use atlas_commerce.Prelude.{
  ℕ, ◌+◌, ◌-◌, ◌≤◌, ◌<◌, ◌≡◌, ◌≢◌, refl, ◌&&◌, true, false, some, none, arith, ◌==◌, leb,
  if◌then◌else◌, Option, le→leb, lt→ltb, le→ltb_false, ne→==_false,
}
use atlas_commerce.Shared.Tx.{ok, err}
use atlas_commerce.Inventory.Types.{StockLevel, InventoryDb}
use atlas_commerce.Inventory.Levels.{find_level, replace_level}
use atlas_commerce.Inventory.Reservations.{insert_movement}
use atlas_commerce.Inventory.Operations.{
  TransferStockInput, TransferStockResult, is_warehouse, is_orphan, upserted, upsert_level,
  recorded, transferred, transfer_rows, transfer_stock, CycleCountInput, CycleCountResult, counted,
  count_current, count_rows, record_cycle_count, cycle_count_rejected,
}
use atlas_commerce.Inventory.Accounts.{
  find_level-written, update_level_hit, reserved_at, on_hand_at, StockInv,
}

module _ (w p : ℕ) where
  upserted-levels :
      (a b q : ℕ) (s : InventoryDb) (o : Option StockLevel)
      → find_level a b s.levels ≡ o
      → (reserved_at w p (upserted a b q s o).1 ≡ reserved_at w p s)
        × (on_hand_at w p (upserted a b q s o).1
            ≡ on_hand_at w p s + (if a == w && b == p then q else 0))
  unfolding find_level
  upserted-levels a b q s none e = (ground arith, ground arith)
  upserted-levels a b q s (some l) e =
      let read =
        find_level-written w p a b (record l { on_hand = l.on_hand + q }) l s.levels e refl refl in
      (ground arith, ground arith)

abbrev taken : TransferStockInput → StockLevel → InventoryDb → InventoryDb
taken i l s = record s {
  levels = replace_level (record l { on_hand = l.on_hand - i.qty }) s.levels;
}

abbrev put : TransferStockInput → InventoryDb → StockLevel × InventoryDb
put i t =
    upserted i.destination_warehouse_id i.product_id i.qty t
      (find_level i.destination_warehouse_id i.product_id t.levels)

known_not_orphan :
    (w : ℕ) (s : InventoryDb) (o : Option StockLevel)
    → is_warehouse w s.warehouses ≡ true
    → is_orphan w s o ≡ false
known_not_orphan w s none known = rw known refl
known_not_orphan w s (some l) known = refl

recorded_ok :
    (i : TransferStockInput) (a b : ℕ) (x d : StockLevel) (t : InventoryDb)
    → (res : TransferStockResult) × (u : InventoryDb) × (recorded i a b x d t ≡ (ok (some res), u))
      × (u.levels ≡ t.levels)
      × (u.reservations ≡ t.reservations)
      × (u.lines ≡ t.lines)
unfolding recorded insert_movement
recorded_ok i a b x d t = (_, _, refl, refl, refl, refl)

transferred_ok :
    (i : TransferStockInput) (a b : ℕ) (x : StockLevel) (t : InventoryDb)
    → is_warehouse i.destination_warehouse_id t.warehouses ≡ true
    → (res : TransferStockResult) × (u : InventoryDb) × (transferred i a b (some x) t
        ≡ (ok (some res), u))
      × (u.levels ≡ (put i t).1.levels)
      × (u.reservations ≡ (put i t).1.reservations)
      × (u.lines ≡ (put i t).1.lines)
unfolding transferred upsert_level
transferred_ok i a b x t known =
    let fine =
      known_not_orphan i.destination_warehouse_id t
        (find_level i.destination_warehouse_id i.product_id t.levels) known in
    let (res, u, e, el, er, en) = recorded_ok i a b x (put i t).0 (put i t).1 in
    (res, u, rw fine e, el, er, en)

transfer_rows_ok :
    (i : TransferStockInput) (a b : ℕ) (s : InventoryDb) (l : StockLevel)
    → find_level i.source_warehouse_id i.product_id s.levels ≡ some l
    → i.qty ≤ l.on_hand
    → is_warehouse i.destination_warehouse_id s.warehouses ≡ true
    → (res : TransferStockResult) × (t : InventoryDb) × (transfer_rows i a b s ≡ (ok (some res), t))
      × (t.levels ≡ (put i (taken i l s)).1.levels)
      × (t.reservations ≡ (put i (taken i l s)).1.reservations)
      × (t.lines ≡ (put i (taken i l s)).1.lines)
unfolding transfer_rows
transfer_rows_ok i a b s l found fits known =
    let step =
      update_level_hit i.source_warehouse_id i.product_id (λ x. leb i.qty x.on_hand)
        (λ x. record x { on_hand = x.on_hand - i.qty }) s l found (le→leb _ _ fits) in
    let (res, t, e, el, er, en) =
      transferred_ok i a b (record l { on_hand = l.on_hand - i.qty }) (taken i l s) known in
    (res, t, rw step (rw e refl), el, er, en)

module _ (i : TransferStockInput) (a b : ℕ) (s : InventoryDb) (l : StockLevel) where
  -- A transfer between two different warehouses, the destination a known one, of no more than the
  -- source has on hand succeeds: its quantity leaves the source and arrives at the destination, no
  -- other level's stock changes, and no reserved quantity does.
  pub transfer_stock_lem :
      find_level i.source_warehouse_id i.product_id s.levels ≡ some l
      → i.qty ≤ l.on_hand
      → i.source_warehouse_id ≢ i.destination_warehouse_id
      → is_warehouse i.destination_warehouse_id s.warehouses ≡ true
      → (res : TransferStockResult) × (t : InventoryDb) × (transfer_stock i a b s ≡ (ok res, t))
        × ((w p : ℕ)
            → (reserved_at w p t ≡ reserved_at w p s)
              × (on_hand_at w p t
                    + (if i.source_warehouse_id == w && i.product_id == p then i.qty else 0)
                  ≡ on_hand_at w p s
                    + (if i.destination_warehouse_id == w && i.product_id == p then i.qty else 0)))
  unfolding transfer_stock
  transfer_stock_lem found fits differ known =
      let (res, t, e, el, er, en) = transfer_rows_ok i a b s l found fits known in
      (
        res,
        t,
        rw (ne→==_false _ _ differ) (rw e refl),
        λ w p.
            let first =
              find_level-written w p i.source_warehouse_id i.product_id
                (record l { on_hand = l.on_hand - i.qty }) l s.levels found refl refl in
            let second =
              upserted-levels w p i.destination_warehouse_id i.product_id i.qty (taken i l s) _
                refl in
            (ground (arith, first, second, el), ground (arith, first, second, el)),
      )

  -- The guard of the transfer looks at the stock alone: a transfer to another, known warehouse, of no
  -- more than the source has on hand but more than is free there, returns, and leaves the source with
  -- less on hand than is reserved there.
  pub transfer_overdraws :
      find_level i.source_warehouse_id i.product_id s.levels ≡ some l
      → i.qty ≤ l.on_hand
      → i.source_warehouse_id ≢ i.destination_warehouse_id
      → is_warehouse i.destination_warehouse_id s.warehouses ≡ true
      → l.on_hand < l.reserved + i.qty
      → (res : TransferStockResult) × (t : InventoryDb) × (transfer_stock i a b s ≡ (ok res, t))
        × (on_hand_at i.source_warehouse_id i.product_id t
            < reserved_at i.source_warehouse_id i.product_id t)
  transfer_overdraws found fits differ known short =
      let (res, t, e, moved) = transfer_stock_lem found fits differ known in
      let here = moved i.source_warehouse_id i.product_id in
      (res, t, e, ground (arith, here, found))

-- The state after a count that was accepted.
abbrev count_written : CycleCountInput → StockLevel → InventoryDb → InventoryDb
count_written i l s = record s {
  levels = replace_level (record l { on_hand = i.counted_on_hand }) s.levels;
}

counted_ok :
    (i : CycleCountInput) (m : ℕ) (l x : StockLevel) (t : InventoryDb)
    → (res : CycleCountResult) × (u : InventoryDb) × (counted i m l (some x) t ≡ (ok (some res), u))
      × (u.levels ≡ t.levels)
      × (u.reservations ≡ t.reservations)
      × (u.lines ≡ t.lines)
      × (res.counted_on_hand ≡ x.on_hand)
      × (res.previous_on_hand ≡ l.on_hand)
unfolding counted insert_movement
counted_ok i m l x t = (_, _, refl, refl, refl, refl, refl, refl)

module _ (i : CycleCountInput) (m : ℕ) (s : InventoryDb) (l : StockLevel) where
  count_rows_ok :
      find_level i.warehouse_id i.product_id s.levels ≡ some l
      → l.reserved ≤ i.counted_on_hand
      → (res : CycleCountResult) × (t : InventoryDb) × (record_cycle_count i m s ≡ (ok res, t))
        × (t.levels ≡ (count_written i l s).levels)
        × (t.reservations ≡ s.reservations)
        × (t.lines ≡ s.lines)
        × (res.counted_on_hand ≡ i.counted_on_hand)
        × (res.previous_on_hand ≡ l.on_hand)
  unfolding record_cycle_count count_rows count_current
  count_rows_ok found fits =
      let step =
        update_level_hit i.warehouse_id i.product_id (λ x. leb x.reserved i.counted_on_hand)
          (λ x. record x { on_hand = i.counted_on_hand }) s l found (le→leb _ _ fits) in
      let (res, t, e, el, er, en, ec, ep) =
        counted_ok i m l (record l { on_hand = i.counted_on_hand }) (count_written i l s) in
      (res, t, rw found (rw (le→ltb_false _ _ fits) (rw step (rw e refl))), el, er, en, ec, ep)

  count_rows_refused :
      find_level i.warehouse_id i.product_id s.levels ≡ some l
      → i.counted_on_hand < l.reserved
      → record_cycle_count i m s ≡ (err cycle_count_rejected, s)
  unfolding record_cycle_count count_rows count_current
  count_rows_refused found short = rw found (rw (lt→ltb _ _ short) refl)

  -- Both outcomes of a cycle count.
  record_cycle_count_lem :
      find_level i.warehouse_id i.product_id s.levels ≡ some l
      → StockInv s
      → (l.reserved ≤ i.counted_on_hand
          → (res : CycleCountResult) × (t : InventoryDb) × (record_cycle_count i m s ≡ (ok res, t))
            × (on_hand_at i.warehouse_id i.product_id t ≡ i.counted_on_hand)
            × (res.previous_on_hand ≡ l.on_hand)
            × StockInv t)
        × (i.counted_on_hand < l.reserved
            → record_cycle_count i m s ≡ (err cycle_count_rejected, s))
  record_cycle_count_lem found inv = (
    (λ fits.
        let (res, t, e, el, er, en, ec, ep) = count_rows_ok found fits in
        let read = λ (w p : ℕ).
          find_level-written w p i.warehouse_id i.product_id
            (record l { on_hand = i.counted_on_hand }) l s.levels found refl refl in
        (
          res,
          t,
          e,
          ground (arith, read i.warehouse_id i.product_id, el),
          ep,
          record {
            balanced = λ w p. ground (arith, read w p, el, er, en, inv.balanced w p, found);
            within = λ w p. ground (arith, read w p, el, inv.within w p, found);
          },
        )),
    count_rows_refused found,
  )

  -- A cycle count that leaves the reserved stock on hand is accepted: the level has the counted
  -- stock, the answer shows the previous one, and the invariant is kept.
  pub record_cycle_count_ok :
      find_level i.warehouse_id i.product_id s.levels ≡ some l
      → StockInv s
      → l.reserved ≤ i.counted_on_hand
      → (res : CycleCountResult) × (t : InventoryDb) × (record_cycle_count i m s ≡ (ok res, t))
        × (on_hand_at i.warehouse_id i.product_id t ≡ i.counted_on_hand)
        × (res.previous_on_hand ≡ l.on_hand)
        × StockInv t
  record_cycle_count_ok found inv fits = (record_cycle_count_lem found inv).0 fits
