-- ===== src/Inventory/Reserve.antt =====
-- What `createReservation` does to the stock levels.
use atlas_commerce.Prelude.{
  ℕ, suc, ◌+◌, ◌≤◌, ◌≡◌, refl, inl, inr, true, List, [], ◌∷◌, some, arith, ◌∙◌, leb, length,
  ==_refl, ◌*◌,
}
use atlas_commerce.Shared.Tx.{◌>>◌, with_tx}
use atlas_commerce.Shared.Post.{
  Ensures, Ensures-and_then, Ensures-pure_then, throw_if-keeps, Ensures-weaken,
}
use atlas_commerce.Inventory.Types.{
  StockLevel, Reservation, ReservationStatus, is_pending, ReservationLine, InventoryDb,
  AllocationLine, RequestedLine, Env, CreateReservationInput,
}
use atlas_commerce.Inventory.Allocation.{plan_allocations, normalize_reservation_lines}
use atlas_commerce.Inventory.Levels.{
  find_level, replace_level, reserve_available, list_available_for_product,
}
use atlas_commerce.Inventory.Reservations.{
  find_reservation, create_pending, insert_line, list_lines,
}
use atlas_commerce.Inventory.Service.{
  reserve_allocations, reserve_lines, create_body, create_reservation, is_empty, empty_reservation,
}
use atlas_commerce.Inventory.Settle.{with_tx-StockInv}
use atlas_commerce.Inventory.Accounts.{
  find_level-written, reserved_at, on_hand_at, held_at, IsUnused, StockInv, Moved, update_level_lem,
  pending_in, held-cons, held-new,
}

found_new :
    (r : Reservation) (rs : List Reservation)
    → pending_in (find_reservation r.id (r ∷ rs)) ≡ is_pending r.status
unfolding find_reservation
found_new r rs = rw (==_refl r.id)

module _ (w p : ℕ) where
  -- Reserved and held stock rise together, and nothing else moves.
  abbrev Reserves : InventoryDb → InventoryDb → Type 0
  Reserves s t =
      (t.reservations ≡ s.reservations)
      × (reserved_at w p t + held_at w p s ≡ reserved_at w p s + held_at w p t)
      × (on_hand_at w p t ≡ on_hand_at w p s)
      × (reserved_at w p s ≤ on_hand_at w p s → reserved_at w p t ≤ on_hand_at w p t)

  reserve_step :
      (s : InventoryDb) (l : StockLevel) (n : ReservationLine)
      → find_level n.warehouse_id n.product_id s.levels ≡ some l
      → leb (l.reserved + n.qty) l.on_hand ≡ true
      → pending_in (find_reservation n.reservation_id s.reservations) ≡ true
      → Reserves s (record s {
        levels = replace_level (record l { reserved = l.reserved + n.qty }) s.levels;
        lines = n ∷ s.lines;
      })
  reserve_step s l n found fits pending =
      let read =
        find_level-written w p n.warehouse_id n.product_id
          (record l { reserved = l.reserved + n.qty }) l s.levels found refl refl in
      let lines = held-cons w p s.reservations n s.lines pending in
      (refl, ground arith, ground arith, ground arith)

  Reserves-trans : (s t u : InventoryDb) → Reserves s t → Reserves t u → Reserves s u
  Reserves-trans s t u a b = (b.0 ∙ a.0, omega arith, omega arith, λ h. b.3 (a.3 h))

  reserve_allocations-Reserves :
      (env : Env) (rid k : ℕ) (as' : List AllocationLine) (s : InventoryDb)
      → pending_in (find_reservation rid s.reservations) ≡ true
      → Ensures (λ _ t. Reserves s t) (reserve_allocations env rid k as' s)
  unfolding reserve_allocations reserve_available insert_line
  reserve_allocations-Reserves env rid k [] s pending = (refl, refl, refl, λ h. h)
  reserve_allocations-Reserves env rid k (a ∷ as') s pending =
      elim (update_level_lem a.warehouse_id a.product_id (λ l. leb (l.reserved + a.qty) l.on_hand)
        (λ l. record l { reserved = l.reserved + a.qty }) s) [
          | inl e ↦ rw e tt
          | inr (l, found, fits, e) ↦ rw e (
              let n : ReservationLine = record {
                id = env.new_id k;
                reservation_id = rid;
                product_id = a.product_id;
                warehouse_id = a.warehouse_id;
                qty = a.qty;
              } in
              let t : InventoryDb = record s {
                levels = replace_level (record l { reserved = l.reserved + a.qty }) s.levels;
                lines = n ∷ s.lines;
              } in
              Ensures-weaken (λ _ u. Reserves t u) (λ _ u. Reserves s u)
                (reserve_allocations env rid (suc k) as' t)
                (λ _ u. Reserves-trans s t u (reserve_step s l n found fits pending))
                (reserve_allocations-Reserves env rid (suc k) as' t pending))
        ]

  reserve_lines-Reserves :
      (env : Env) (rid k : ℕ) (ls : List RequestedLine) (s : InventoryDb)
      → pending_in (find_reservation rid s.reservations) ≡ true
      → Ensures (λ _ t. Reserves s t) (reserve_lines env rid k ls s)
  unfolding reserve_lines list_available_for_product
  reserve_lines-Reserves env rid k [] s pending = (refl, refl, refl, λ h. h)
  reserve_lines-Reserves env rid k (l ∷ ls) s pending =
      Ensures-pure_then (λ _ u. Reserves s u) (plan_allocations l.product_id l.qty _) s
        (λ as'. reserve_allocations env rid k as' >> reserve_lines env rid (k + length as') ls)
        λ as' _.
          Ensures-and_then (λ _ t. Reserves s t) (λ _ u. Reserves s u)
            (reserve_allocations env rid k as' s) (λ _. reserve_lines env rid (k + length as') ls)
            (reserve_allocations-Reserves env rid k as' s pending)
            λ _ t h.
              Ensures-weaken (λ _ u. Reserves t u) (λ _ u. Reserves s u)
                (reserve_lines env rid (k + length as') ls t) (λ _ u. Reserves-trans s t u h)
                (reserve_lines-Reserves env rid (k + length as') ls t (rw (h.0) pending))

  -- `createReservation` up to its last SELECT.
  create_body-Moved :
      (env : Env) (ttl order : ℕ) (ls : List RequestedLine) (s : InventoryDb)
      → IsUnused (env.new_id 0) s
      → Ensures (λ _ t. Moved w p s t) (create_body env ttl order ls s)
  unfolding create_body create_pending list_lines
  create_body-Moved env ttl order ls s unused =
      let r : Reservation = record {
        id = env.new_id 0;
        order_id = order;
        status = ReservationStatus.pending;
        expires_at = env.clock + ttl * 1000;
        created_at = env.db_now;
      } in
      let t : InventoryDb = record s { reservations = r ∷ s.reservations } in
      let nothing = held-new w p r s.reservations s.lines unused.1 in
      rw (unused.0) (
        Ensures-and_then (λ _ u. Reserves t u) _ (reserve_lines env (env.new_id 0) 1 ls t) _
          (reserve_lines-Reserves env (env.new_id 0) 1 ls t (found_new r s.reservations))
          (λ _ u h. (omega arith, h.3)))

-- Whatever `createReservation` answers, every level has exactly the stock of the pending
-- reservations reserved, and no more than is on hand, if it had before and no reservation or line has the
-- id that is drawn.
pub create_reservation-StockInv :
    (env : Env) (ttl : ℕ) (input : CreateReservationInput) (s : InventoryDb)
    → IsUnused (env.new_id 0) s
    → StockInv s
    → StockInv (create_reservation env ttl input s).1
unfolding create_reservation
create_reservation-StockInv env ttl input s unused inv =
    let lines = normalize_reservation_lines input.lines in
    let body = create_body env ttl input.order_id lines in
    throw_if-keeps StockInv (is_empty lines) empty_reservation (with_tx body) s inv (
      with_tx-StockInv body s (λ k. create_body-Moved k.0 k.1 env ttl input.order_id lines s unused)
        inv)
