-- ===== src/Inventory/Expiry.antt =====
-- What a run of the expiry job of services/inventory does: `expirePendingReservations` of
-- domain/reservationService.ts over `listExpiredPending`.
use atlas_commerce.Prelude.{
  ℕ, min, ◌≤◌, ◌≡◌, subst, ◌⊎◌, inl, inr, true, List, [], ◌∷◌, some, arith, ◌==◌, if◌then◌else◌,
  length, All, keep_if, sort_by, take, Bool-cases, All-kept, All-sort_by, All-take, keep_if-All,
  take_all, length-take, length-sort_by,
}
use atlas_commerce.Prelude.Sorted.{sort_by-All}
use atlas_commerce.Shared.Tx.{ok}
use atlas_commerce.Inventory.Types.{Reservation, InventoryDb, Env}
use atlas_commerce.Inventory.Reservations.{find_reservation, list_expired_pending, expiry_order}
use atlas_commerce.Inventory.Service.{expire_pending_reservations}
use atlas_commerce.Inventory.Accounts.{StockInv}
use atlas_commerce.Inventory.Lifecycle.{IsPositive}
use atlas_commerce.Inventory.Releases.{
  Due, is_due, released_row, IsKeyed, same_row, find_reservation-id, is_due-Due, Due-is_due,
  release_each_lem,
}

-- A row that is found has what all rows have.
All-find_reservation :
    (P : Reservation → Type 0) (id : ℕ) (rows : List Reservation) (r : Reservation)
    → All P rows
    → find_reservation id rows ≡ some r
    → P r
unfolding find_reservation
All-find_reservation P id [] r h e = cc
All-find_reservation P id (x ∷ xs) r h e = elim (Bool-cases (x.id == id)) [
  | inl hit ↦
      (let it : some x ≡ some r =
          subst (λ b. (if b then some x else find_reservation id xs) ≡ some r) hit e in
        subst P (same_row x r it) h.0)
  | inr miss ↦
      All-find_reservation P id xs r h.1
        (subst (λ b. (if b then some x else find_reservation id xs) ≡ some r) miss e)
]

-- Under the stock invariant, with positive lines and with each row found by its id, a run of the expiry
-- job returns, with the number of the pending reservations past their time or the limit, whichever is
-- less, and keeps the invariant. Every reservation is as it was, or was pending and past its time and is
-- now released; and when there are no more such reservations than the limit, all of them are released.
pub expire_pending_reservations_lem :
    (env : Env) (limit : ℕ) (s : InventoryDb)
    → StockInv s
    → All IsPositive s.lines
    → IsKeyed s.reservations
    → (n : ℕ) × (t : InventoryDb) × (expire_pending_reservations env limit s ≡ (ok n, t))
      × (n ≡ min limit (length (keep_if (is_due env.db_now) s.reservations)))
      × StockInv t
      × ((id : ℕ) (r : Reservation)
          → find_reservation id s.reservations ≡ some r
          → (find_reservation id t.reservations ≡ some r)
            ⊎ (Due env.db_now r × (find_reservation id t.reservations ≡ some (released_row r))))
      × (length (keep_if (is_due env.db_now) s.reservations) ≤ limit
          → (id : ℕ) (r : Reservation) → find_reservation id s.reservations ≡ some r
          → Due env.db_now r
          → find_reservation id t.reservations ≡ some (released_row r))
unfolding expire_pending_reservations list_expired_pending
expire_pending_reservations_lem env limit s inv positive keyed =
    let due = is_due env.db_now in
    let P : Reservation → Type 0 =
      λ r. (find_reservation r.id s.reservations ≡ some r) × (due r ≡ true) in
    let sorted = sort_by expiry_order (keep_if due s.reservations) in
    let listed : All P (take limit sorted) = All-take P limit sorted (
      All-sort_by P expiry_order (keep_if due s.reservations)
        (All-kept (λ r. find_reservation r.id s.reservations ≡ some r) due s.reservations keyed)) in
    let (t, e, (inv', _), only, _, all) =
      release_each_lem env.db_now s 0 (take limit sorted) s (inv, positive) (λ j r h. inl h)
        (all_due (take limit sorted) listed) in
    (
      _,
      t,
      e,
      omega (
        arith,
        length-take limit sorted,
        length-sort_by expiry_order (keep_if due s.reservations),
      ),
      inv',
      only,
      λ room id r found is.
          let Q : Reservation → Type 0 =
            λ r. find_reservation r.id t.reservations ≡ some (released_row r) in
          let every : All Q sorted =
            subst (All Q)
              (take_all limit sorted
                (omega (arith, room, length-sort_by expiry_order (keep_if due s.reservations))))
              all in
          let mine =
            All-find_reservation (λ r. due r ≡ true → Q r) id s.reservations r
              (keep_if-All Q due s.reservations
                (sort_by-All expiry_order Q (keep_if due s.reservations) every))
              found (Due-is_due env.db_now r is) in
          subst (λ k. find_reservation k t.reservations ≡ some (released_row r))
            (find_reservation-id id s.reservations r found) mine,
    )
  where
    all_due :
        (rs : List Reservation)
        → All
            (λ r. (find_reservation r.id s.reservations ≡ some r) × (is_due env.db_now r ≡ true))
            rs
        → All (λ r. (find_reservation r.id s.reservations ≡ some r) × Due env.db_now r) rs
    all_due [] h = tt
    all_due (r ∷ rs) ((found, is), h) = ((found, is_due-Due env.db_now r is), all_due rs h)
