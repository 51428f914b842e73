-- ===== src/Inventory/Settle.antt =====
-- What `commitReservation`, `releaseReservation` and the expiry job do to the stock levels.
use atlas_commerce.Prelude.{
  ℕ, suc, ◌+◌, ◌-◌, ◌≤◌, ◌≡◌, refl, inl, inr, true, false, ◌&&◌, List, [], ◌∷◌, some, arith, ◌==◌,
  leb, if◌then◌else◌, Option-cases,
}
use atlas_commerce.Shared.Tx.{pure, Action, with_tx}
use atlas_commerce.Shared.Post.{
  Ensures, Ensures-and_then, Ensures-weaken, Ensures-all, Atomically-keeps, and_then-keeps,
  with_tx-Atomically,
}
use atlas_commerce.Inventory.Types.{
  StockLevel, Reservation, ReservationStatus, is_pending, ReservationLine, InventoryDb, Env,
}
use atlas_commerce.Inventory.Levels.{find_level, replace_level, commit_reserved, release_reserved}
use atlas_commerce.Inventory.Reservations.{
  find_reservation, list_expired_pending, insert_movement, find_by_id, list_lines, lines_of,
  set_status,
}
use atlas_commerce.Inventory.Service.{
  reservation_result, commit_lines, commit_by_status, commit_body, commit_reservation,
  release_lines, release_by_status, release_body, release_reservation, release_each,
  expire_pending_reservations,
}
use atlas_commerce.Inventory.Accounts.{
  find_level-written, update_level_lem, qty_at, held-replace_status, reserved_at, on_hand_at,
  StockInv, Moved, Moved-StockInv,
}

module _ (w p : ℕ) where
  -- A write that takes `q` off the reserved stock and `d` off the stock of one level.
  pub lowered :
      (a b q d : ℕ) (r l : StockLevel) (s : InventoryDb)
      → find_level a b s.levels ≡ some l
      → r.warehouse_id ≡ l.warehouse_id
      → r.product_id ≡ l.product_id
      → r.reserved + q ≡ l.reserved
      → r.on_hand + d ≡ l.on_hand
      → let t : InventoryDb = record s { levels = replace_level r s.levels } in
        (reserved_at w p t + (if a == w && b == p then q else 0) ≡ reserved_at w p s)
        × (on_hand_at w p t + (if a == w && b == p then d else 0) ≡ on_hand_at w p s)
  lowered a b q d r l s found hw hp hq hd =
      let read = find_level-written w p a b r l s.levels found hw hp in (ground arith, ground arith)

  -- The loop of a commit takes every line off both quantities.
  abbrev pub Ships : List ReservationLine → InventoryDb → InventoryDb → Type 0
  Ships ls s t =
      (t.reservations ≡ s.reservations)
      × (t.lines ≡ s.lines)
      × (reserved_at w p t + qty_at w p ls ≡ reserved_at w p s)
      × (on_hand_at w p t + qty_at w p ls ≡ on_hand_at w p s)

  pub commit_lines-Ships :
      (env : Env) (rid k : ℕ) (ls : List ReservationLine) (s : InventoryDb)
      → Ensures (λ _ t. Ships ls s t) (commit_lines env rid k ls s)
  unfolding commit_lines commit_reserved insert_movement
  commit_lines-Ships env rid k [] s = (refl, refl, omega arith, omega arith)
  commit_lines-Ships env rid k (l ∷ ls) s =
      elim (update_level_lem l.warehouse_id l.product_id
        (λ x. leb l.qty x.reserved && leb l.qty x.on_hand)
        (λ x. record x { on_hand = x.on_hand - l.qty; reserved = x.reserved - l.qty }) s) [
          | inl e ↦ rw e tt
          | inr (x, found, fits, e) ↦ rw e (
              let r : StockLevel = record x {
                on_hand = x.on_hand - l.qty;
                reserved = x.reserved - l.qty;
              } in
              let low =
                lowered l.warehouse_id l.product_id l.qty l.qty r x s found refl refl (ground arith)
                  (ground arith) in
              Ensures-weaken _ (λ _ u. Ships (l ∷ ls) s u) _
                (λ _ u h. (h.0, h.1, omega (arith, low), omega (arith, low)))
                (commit_lines-Ships env rid (suc k) ls _))
        ]

  -- The loop of a release takes every line off the reserved quantity.
  abbrev pub Frees : List ReservationLine → InventoryDb → InventoryDb → Type 0
  Frees ls s t =
      (t.reservations ≡ s.reservations)
      × (t.lines ≡ s.lines)
      × (reserved_at w p t + qty_at w p ls ≡ reserved_at w p s)
      × (on_hand_at w p t ≡ on_hand_at w p s)

  pub release_lines-Frees :
      (ls : List ReservationLine) (s : InventoryDb)
      → Ensures (λ _ t. Frees ls s t) (release_lines ls s)
  unfolding release_lines release_reserved
  release_lines-Frees [] s = (refl, refl, omega arith, refl)
  release_lines-Frees (l ∷ ls) s =
      elim (update_level_lem l.warehouse_id l.product_id (λ x. leb l.qty x.reserved)
        (λ x. record x { reserved = x.reserved - l.qty }) s) [
          | inl e ↦ rw e tt
          | inr (x, found, fits, e) ↦ rw e (
              let r : StockLevel = record x { reserved = x.reserved - l.qty } in
              let low =
                lowered l.warehouse_id l.product_id l.qty 0 r x s found refl refl (ground arith)
                  (omega arith) in
              Ensures-weaken _ (λ _ u. Frees (l ∷ ls) s u) _
                (λ _ u h. (h.0, h.1, omega (arith, low), ground (arith, low)))
                (release_lines-Frees ls _))
        ]

  -- The last write of a commit or a release: the reservation stops being pending.
  abbrev Settled : ℕ → InventoryDb → InventoryDb → Type 0
  Settled id s u =
      (u.reservations ≡ s.reservations)
      × (u.lines ≡ s.lines)
      × (reserved_at w p u + qty_at w p (lines_of id s.lines) ≡ reserved_at w p s)
      × (reserved_at w p s ≤ on_hand_at w p s → reserved_at w p u ≤ on_hand_at w p u)

  set_status-Moved :
      (id : ℕ) (st : ReservationStatus) (r : Reservation) (s u : InventoryDb)
      → find_reservation id s.reservations ≡ some r
      → is_pending r.status ≡ true
      → is_pending st ≡ false
      → Settled id s u
      → Ensures (λ _ t. Moved w p s t) (set_status id st u)
  unfolding set_status
  set_status-Moved id st r s u found was now (er, el, eq, within) =
      let there : find_reservation id u.reservations ≡ some r = rw er found in
      let freed = held-replace_status w p id st r s.reservations s.lines found was now in
      rw there (rw (er, el) (omega arith), within)

  commit_by_status-Moved :
      (env : Env) (r : Reservation) (st : ReservationStatus) (id : ℕ) (s : InventoryDb)
      → find_reservation id s.reservations ≡ some r
      → r.status ≡ st
      → Ensures (λ _ t. Moved w p s t) (commit_by_status env r (lines_of id s.lines) st id s)
  unfolding commit_by_status
  commit_by_status-Moved env r ReservationStatus.committed id s found e = (refl, λ h. h)
  commit_by_status-Moved env r ReservationStatus.released id s found e = tt
  commit_by_status-Moved env r ReservationStatus.pending id s found e =
      Ensures-and_then (λ _ u. Ships (lines_of id s.lines) s u) _ _ _
        (commit_lines-Ships env id 0 (lines_of id s.lines) s)
        λ _ u h.
          Ensures-and_then (λ _ t. Moved w p s t) (λ _ t. Moved w p s t)
            (set_status id ReservationStatus.committed u)
            (λ c. pure (reservation_result c (lines_of id s.lines)))
            (set_status-Moved id ReservationStatus.committed r s u found (rw e refl) refl
              (h.0, h.1, h.2, λ within. omega arith))
            (λ _ t m. m)

  release_by_status-Moved :
      (r : Reservation) (st : ReservationStatus) (id : ℕ) (s : InventoryDb)
      → find_reservation id s.reservations ≡ some r
      → r.status ≡ st
      → Ensures (λ _ t. Moved w p s t) (release_by_status r (lines_of id s.lines) st id s)
  unfolding release_by_status
  release_by_status-Moved r ReservationStatus.released id s found e = (refl, λ h. h)
  release_by_status-Moved r ReservationStatus.committed id s found e = tt
  release_by_status-Moved r ReservationStatus.pending id s found e =
      Ensures-and_then (λ _ u. Frees (lines_of id s.lines) s u) _ _ _
        (release_lines-Frees (lines_of id s.lines) s)
        λ _ u h.
          Ensures-and_then (λ _ t. Moved w p s t) (λ _ t. Moved w p s t)
            (set_status id ReservationStatus.released u)
            (λ c. pure (reservation_result c (lines_of id s.lines)))
            (set_status-Moved id ReservationStatus.released r s u found (rw e refl) refl
              (h.0, h.1, h.2, λ within. omega arith))
            (λ _ t m. m)

  commit_body-Moved :
      (env : Env) (id : ℕ) (s : InventoryDb) → Ensures (λ _ t. Moved w p s t) (commit_body env id s)
  unfolding commit_body find_by_id list_lines
  commit_body-Moved env id s = elim (Option-cases (find_reservation id s.reservations)) [
    | inl e ↦ rw e tt
    | inr (r, e) ↦ rw e (commit_by_status-Moved env r r.status id s e refl)
  ]

  release_body-Moved :
      (id : ℕ) (s : InventoryDb) → Ensures (λ _ t. Moved w p s t) (release_body id s)
  unfolding release_body find_by_id list_lines
  release_body-Moved id s = elim (Option-cases (find_reservation id s.reservations)) [
    | inl e ↦ rw e tt
    | inr (r, e) ↦ rw e (release_by_status-Moved r r.status id s e refl)
  ]

-- A transaction that moves reserved and held stock together keeps the invariant.
pub with_tx-StockInv {κ} :
    {A : Type κ} (body : Action InventoryDb A) (s : InventoryDb)
    → ((k : ℕ × ℕ) → Ensures (λ _ t. Moved k.0 k.1 s t) (body s))
    → StockInv s
    → StockInv (with_tx body s).1
with_tx-StockInv body s moved inv =
    Atomically-keeps StockInv s (with_tx body s)
      (with_tx-Atomically (λ _ t. StockInv t) body s
        (Ensures-weaken (λ _ t. (k : ℕ × ℕ) → Moved k.0 k.1 s t) (λ _ t. StockInv t) (body s)
          (λ _ t all. Moved-StockInv s t all inv)
          (Ensures-all (λ k _ t. Moved k.0 k.1 s t) (body s) moved)))
      inv

-- Committing a reservation keeps the reserved stock equal to what the pending reservations hold,
-- and within what is on hand, whatever the answer.
pub commit_reservation-StockInv :
    (env : Env) (id : ℕ) (s : InventoryDb) → StockInv s → StockInv (commit_reservation env id s).1
unfolding commit_reservation
commit_reservation-StockInv env id s inv =
    with_tx-StockInv (commit_body env id) s (λ k. commit_body-Moved k.0 k.1 env id s) inv

-- Releasing a reservation keeps the reserved stock equal to what the pending reservations hold, and
-- within what is on hand, whatever the answer.
pub release_reservation-StockInv :
    (id : ℕ) (s : InventoryDb) → StockInv s → StockInv (release_reservation id s).1
unfolding release_reservation
release_reservation-StockInv id s inv =
    with_tx-StockInv (release_body id) s (λ k. release_body-Moved k.0 k.1 id s) inv

release_each-StockInv :
    (n : ℕ) (rs : List Reservation) (s : InventoryDb)
    → StockInv s
    → StockInv (release_each n rs s).1
unfolding release_each
release_each-StockInv n [] s inv = inv
release_each-StockInv n (r ∷ rs) s inv =
    and_then-keeps StockInv (release_reservation r.id s) (λ _. release_each (n + 1) rs)
      (release_reservation-StockInv r.id s inv) (λ _ t h. release_each-StockInv (n + 1) rs t h)

-- A run of the expiry job keeps the invariant, also when it stops at a release that throws.
pub expire_pending_reservations-StockInv :
    (env : Env) (limit : ℕ) (s : InventoryDb)
    → StockInv s
    → StockInv (expire_pending_reservations env limit s).1
unfolding expire_pending_reservations list_expired_pending
expire_pending_reservations-StockInv env limit s inv = release_each-StockInv 0 _ s inv
