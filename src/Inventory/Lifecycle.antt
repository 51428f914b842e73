-- ===== src/Inventory/Lifecycle.antt =====
-- Committing and releasing a pending reservation (reservationService.ts of services/inventory).
use atlas_commerce.Prelude.{
  ℕ, suc, ◌+◌, ◌-◌, ◌≤◌, ◌<◌, ◌≡◌, refl, ap, subst, inl, inr, true, ◌&&◌, List, [], ◌∷◌, some,
  arith, ◌==◌, leb, All, Option-cases, All-sort_by, All-keep_if, keep_if,
}
use atlas_commerce.Shared.Tx.{ok}
use atlas_commerce.Shared.Post.{Ensures}
use atlas_commerce.Inventory.Types.{
  StockLevel, Reservation, ReservationStatus, is_pending, ReservationLine, InventoryDb,
  ReservationResult, Env,
}
use atlas_commerce.Inventory.Levels.{find_level, commit_reserved, release_reserved}
use atlas_commerce.Inventory.Reservations.{
  find_reservation, replace_status, insert_movement, find_by_id, list_lines, lines_of, line_order,
  set_status,
}
use atlas_commerce.Inventory.Service.{
  reservation_result, commit_lines, commit_by_status, commit_body, commit_reservation,
  release_lines, release_by_status, release_body, release_reservation,
}
use atlas_commerce.Inventory.Accounts.{
  update_level_hit, qty_at, held-replace_status, reserved_at, on_hand_at, StockInv,
}
use atlas_commerce.Inventory.Settle.{lowered, Ships, commit_lines-Ships, Frees, release_lines-Frees}

abbrev pub IsPositive : ReservationLine → Type 0
IsPositive l = 0 < l.qty

-- The levels cover a list of lines.
abbrev Covers : List ReservationLine → InventoryDb → Type 0
Covers ls s =
    ((w p : ℕ) → qty_at w p ls ≤ reserved_at w p s)
    × ((w p : ℕ) → reserved_at w p s ≤ on_hand_at w p s)

-- The row of the first line, with enough on both columns.
covered_row :
    (l : ReservationLine) (ls : List ReservationLine) (s : InventoryDb)
    → Covers (l ∷ ls) s
    → 0 < l.qty
    → (x : StockLevel) × (find_level l.warehouse_id l.product_id s.levels ≡ some x)
      × (l.qty ≤ x.reserved)
      × (l.qty ≤ x.on_hand)
covered_row l ls s (cover, within) h =
    let c = cover l.warehouse_id l.product_id in
    let i = within l.warehouse_id l.product_id in
    elim (Option-cases (find_level l.warehouse_id l.product_id s.levels)) [
      | inl e ↦ absurd (ground (arith, c, e))
      | inr (x, e) ↦ (x, e, ground (arith, c, e), ground (arith, c, i, e))
    ]

commit_lines-returns :
    (env : Env) (rid k : ℕ) (ls : List ReservationLine) (s : InventoryDb)
    → Covers ls s
    → All IsPositive ls
    → (t : InventoryDb) × (commit_lines env rid k ls s ≡ (ok tt, t))
unfolding commit_lines commit_reserved insert_movement
commit_lines-returns env rid k [] s cover positive = (s, refl)
commit_lines-returns env rid k (l ∷ ls) s cover positive =
    let (x, e, fits, fits') = covered_row l ls s cover positive.0 in
    let f : StockLevel → StockLevel =
      λ y. record y { on_hand = y.on_hand - l.qty; reserved = y.reserved - l.qty } in
    let low = λ (w p : ℕ).
      lowered w p l.warehouse_id l.product_id l.qty l.qty (f x) x s e refl refl (omega arith)
        (omega arith) in
    rw
      (update_level_hit l.warehouse_id l.product_id
        (λ y. leb l.qty y.reserved && leb l.qty y.on_hand) f s x e (ground arith))
      (commit_lines-returns env rid (suc k) ls _
        ((λ w p. omega (arith, low w p, cover.0 w p)), (λ w p. omega (arith, low w p, cover.1 w p)))
        positive.1)

release_lines-returns :
    (ls : List ReservationLine) (s : InventoryDb)
    → Covers ls s
    → All IsPositive ls
    → (t : InventoryDb) × (release_lines ls s ≡ (ok tt, t))
unfolding release_lines release_reserved
release_lines-returns [] s cover positive = (s, refl)
release_lines-returns (l ∷ ls) s cover positive =
    let (x, e, fits, fits') = covered_row l ls s cover positive.0 in
    let f : StockLevel → StockLevel = λ y. record y { reserved = y.reserved - l.qty } in
    let low = λ (w p : ℕ).
      lowered w p l.warehouse_id l.product_id l.qty 0 (f x) x s e refl refl (omega arith)
        (omega arith) in
    rw
      (update_level_hit l.warehouse_id l.product_id (λ y. leb l.qty y.reserved) f s x e
        (ground arith))
      (release_lines-returns ls _
        (
          (λ w p. omega (arith, low w p, cover.0 w p)),
          (λ w p. ground (arith, low w p, cover.1 w p)),
        )
        positive.1)

-- The lines of a pending reservation are covered.
pending-Covers :
    (id : ℕ) (r : Reservation) (s : InventoryDb)
    → StockInv s
    → find_reservation id s.reservations ≡ some r
    → is_pending r.status ≡ true
    → Covers (lines_of id s.lines) s
pending-Covers id r s inv found was = (
  λ w p. omega (
    arith,
    held-replace_status w p id ReservationStatus.released r s.reservations s.lines found was refl,
    inv.balanced w p,
  ),
  inv.within,
)

lines_of-IsPositive :
    (id : ℕ) (ls : List ReservationLine) → All IsPositive ls → All IsPositive (lines_of id ls)
unfolding lines_of
lines_of-IsPositive id ls h =
    All-sort_by IsPositive line_order (keep_if (λ l. l.reservation_id == id) ls)
      (All-keep_if IsPositive (λ l. l.reservation_id == id) ls h)

-- The state after the last write of a commit or a release.
abbrev settled : ℕ → ReservationStatus → InventoryDb → InventoryDb
settled id st u = record u { reservations = replace_status id st u.reservations }

commit_after_lines :
    (env : Env) (id : ℕ) (r : Reservation) (s u : InventoryDb)
    → find_reservation id s.reservations ≡ some r
    → r.status ≡ ReservationStatus.pending
    → commit_lines env id 0 (lines_of id s.lines) s ≡ (ok tt, u)
    → u.reservations ≡ s.reservations
    → commit_reservation env id s ≡ (
      ok (
          reservation_result
            (record r { status = ReservationStatus.committed })
            (lines_of id s.lines)),
      settled id ReservationStatus.committed u,
    )
unfolding commit_reservation commit_body find_by_id list_lines commit_by_status set_status
commit_after_lines env id r s u found was e same =
    let there : find_reservation id u.reservations ≡ some r = rw same found in
    rw found (rw was (rw e (rw there refl)))

release_after_lines :
    (id : ℕ) (r : Reservation) (s u : InventoryDb)
    → find_reservation id s.reservations ≡ some r
    → r.status ≡ ReservationStatus.pending
    → release_lines (lines_of id s.lines) s ≡ (ok tt, u)
    → u.reservations ≡ s.reservations
    → release_reservation id s ≡ (
      ok (
          reservation_result
            (record r { status = ReservationStatus.released })
            (lines_of id s.lines)),
      settled id ReservationStatus.released u,
    )
unfolding release_reservation release_body find_by_id list_lines release_by_status set_status
release_after_lines id r s u found was e same =
    let there : find_reservation id u.reservations ≡ some r = rw same found in
    rw found (rw was (rw e (rw there refl)))

-- Releasing a pending reservation returns, and of the reservations and lines writes its status alone.
pub release_reservation-rows :
    (id : ℕ) (r : Reservation) (s : InventoryDb)
    → StockInv s
    → All IsPositive s.lines
    → find_reservation id s.reservations ≡ some r
    → r.status ≡ ReservationStatus.pending
    → (res : ReservationResult) × (t : InventoryDb) × (release_reservation id s ≡ (ok res, t))
      × (t.reservations ≡ replace_status id ReservationStatus.released s.reservations)
      × (t.lines ≡ s.lines)
release_reservation-rows id r s inv positive found was =
    let ls = lines_of id s.lines in
    let (u, e) =
      release_lines-returns ls s (pending-Covers id r s inv found (rw was refl))
        (lines_of-IsPositive id s.lines positive) in
    let frees = subst (Ensures (λ _ t. Frees 0 0 ls s t)) e (release_lines-Frees 0 0 ls s) in
    (
      _,
      settled id ReservationStatus.released u,
      release_after_lines id r s u found was e frees.0,
      ap (replace_status id ReservationStatus.released) frees.0,
      frees.1,
    )

-- Committing a pending reservation succeeds whenever the stock levels are balanced and the stored
-- lines have positive quantities. The answer is the reservation, now committed, with its lines; its
-- quantities leave both the reserved and the physical stock of their levels, and no other level
-- changes.
pub commit_reservation-pending :
    (env : Env) (id : ℕ) (r : Reservation) (s : InventoryDb)
    → StockInv s
    → All IsPositive s.lines
    → find_reservation id s.reservations ≡ some r
    → r.status ≡ ReservationStatus.pending
    → (t : InventoryDb) × (commit_reservation env id s ≡ (
      ok (
          reservation_result
            (record r { status = ReservationStatus.committed })
            (lines_of id s.lines)),
      t,
    ))
      × ((w p : ℕ)
          → (reserved_at w p t + qty_at w p (lines_of id s.lines) ≡ reserved_at w p s)
            × (on_hand_at w p t + qty_at w p (lines_of id s.lines) ≡ on_hand_at w p s))
commit_reservation-pending env id r s inv positive found was =
    let ls = lines_of id s.lines in
    let (u, e) =
      commit_lines-returns env id 0 ls s (pending-Covers id r s inv found (rw was refl))
        (lines_of-IsPositive id s.lines positive) in
    let ships = λ (w p : ℕ).
      subst (Ensures (λ _ t. Ships w p ls s t)) e (commit_lines-Ships w p env id 0 ls s) in
    (
      settled id ReservationStatus.committed u,
      commit_after_lines env id r s u found was e (ships 0 0).0,
      λ w p. ((ships w p).2, (ships w p).3),
    )

-- Releasing a pending reservation succeeds under the same conditions: its quantities leave the
-- reserved stock of their levels, and the physical stock stays as it is.
pub release_reservation-pending :
    (id : ℕ) (r : Reservation) (s : InventoryDb)
    → StockInv s
    → All IsPositive s.lines
    → find_reservation id s.reservations ≡ some r
    → r.status ≡ ReservationStatus.pending
    → (t : InventoryDb) × (release_reservation id s ≡ (
      ok (
          reservation_result
            (record r { status = ReservationStatus.released })
            (lines_of id s.lines)),
      t,
    ))
      × ((w p : ℕ)
          → (reserved_at w p t + qty_at w p (lines_of id s.lines) ≡ reserved_at w p s)
            × (on_hand_at w p t ≡ on_hand_at w p s))
release_reservation-pending id r s inv positive found was =
    let ls = lines_of id s.lines in
    let (u, e) =
      release_lines-returns ls s (pending-Covers id r s inv found (rw was refl))
        (lines_of-IsPositive id s.lines positive) in
    let frees =
      λ (w p : ℕ). subst (Ensures (λ _ t. Frees w p ls s t)) e (release_lines-Frees w p ls s) in
    (
      settled id ReservationStatus.released u,
      release_after_lines id r s u found was e (frees 0 0).0,
      λ w p. ((frees w p).2, (frees w p).3),
    )
