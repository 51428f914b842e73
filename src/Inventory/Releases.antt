-- ===== src/Inventory/Releases.antt =====
-- The loop of `expirePendingReservations` of services/inventory/src/domain/reservationService.ts: releases of
-- reservations that were due when it began.
use atlas_commerce.Prelude.{
  ℕ, ◌+◌, ◌≤◌, ◌≡◌, refl, sym, ap, subst, ◌∙◌, ◌⊎◌, inl, inr, Bool, true, ◌&&◌, List, [], ◌∷◌, some,
  arith, ◌==◌, leb, if◌then◌else◌, length, All, Bool-cases, le→leb,
}
use atlas_commerce.Shared.Tx.{ok}
use atlas_commerce.Inventory.Types.{
  Reservation, ReservationStatus, is_pending, InventoryDb, ReservationResult,
}
use atlas_commerce.Inventory.Reservations.{find_reservation, find_by_id, list_lines, lines_of}
use atlas_commerce.Inventory.Service.{
  reservation_result, release_reservation, release_body, release_by_status, release_each,
}
use atlas_commerce.Inventory.Accounts.{find_reservation-replace_status, StockInv}
use atlas_commerce.Inventory.Lifecycle.{IsPositive, release_reservation-rows}
use atlas_commerce.Inventory.Settle.{release_reservation-StockInv}

-- A pending reservation whose time has come.
abbrev pub Due : ℕ → Reservation → Type 0
Due now r = (r.status ≡ ReservationStatus.pending) × (r.expires_at ≤ now)

abbrev pub is_due : ℕ → Reservation → Bool
is_due now r = is_pending r.status && leb r.expires_at now

-- The row after its release.
abbrev pub released_row : Reservation → Reservation
released_row r = record r { status = ReservationStatus.released }

-- Each row is the one that its id finds, as the primary key has it.
abbrev pub IsKeyed : List Reservation → Type 0
IsKeyed rows = All (λ r. find_reservation r.id rows ≡ some r) rows

-- What a release needs besides its own row.
abbrev pub Sound : InventoryDb → Type 0
Sound s = StockInv s × All IsPositive s.lines

-- A row of the first state is as it was, or it was due and is released.
abbrev pub OnlyDue : ℕ → InventoryDb → InventoryDb → Type 0
OnlyDue now s t =
    (j : ℕ) (r : Reservation)
    → find_reservation j s.reservations ≡ some r
    → (find_reservation j t.reservations ≡ some r)
      ⊎ (Due now r × (find_reservation j t.reservations ≡ some (released_row r)))

-- What is released stays so.
abbrev pub StaysReleased : InventoryDb → InventoryDb → InventoryDb → Type 0
StaysReleased s u t =
    (j : ℕ) (r : Reservation)
    → find_reservation j s.reservations ≡ some r
    → find_reservation j u.reservations ≡ some (released_row r)
    → find_reservation j t.reservations ≡ some (released_row r)

pending_of : (st : ReservationStatus) → is_pending st ≡ true → st ≡ ReservationStatus.pending
pending_of ReservationStatus.pending h = refl
pending_of ReservationStatus.committed h = cc
pending_of ReservationStatus.released h = cc

pub is_due-Due : (now : ℕ) (r : Reservation) → is_due now r ≡ true → Due now r
is_due-Due now r h = (pending_of r.status (ground arith), ground arith)

pub Due-is_due : (now : ℕ) (r : Reservation) → Due now r → is_due now r ≡ true
Due-is_due now r (was, time) = rw (was, le→leb _ _ time) refl

pub same_row : (x y : Reservation) → some x ≡ some y → x ≡ y
same_row x y h = cc

pub find_reservation-id :
    (id : ℕ) (rows : List Reservation) (r : Reservation)
    → find_reservation id rows ≡ some r
    → r.id ≡ id
unfolding find_reservation
find_reservation-id id [] r h = cc
find_reservation-id id (x ∷ xs) r h = ground (arith, find_reservation-id id xs r)

release_again :
    (id : ℕ) (r : Reservation) (s : InventoryDb)
    → find_reservation id s.reservations ≡ some (released_row r)
    → (res : ReservationResult) × (release_reservation id s ≡ (ok res, s))
unfolding release_reservation release_body find_by_id list_lines release_by_status
release_again id r s found =
    (reservation_result (released_row r) (lines_of id s.lines), rw found refl)

module _ (now : ℕ) (s : InventoryDb) where
  -- One turn of the loop, for a row that was due in the first state.
  release_step :
      (r : Reservation) (u : InventoryDb)
      → Sound u
      → OnlyDue now s u
      → find_reservation r.id s.reservations ≡ some r
      → Due now r
      → (res : ReservationResult) × (t : InventoryDb) × (release_reservation r.id u ≡ (ok res, t))
        × Sound t
        × ((j : ℕ)
            → find_reservation j t.reservations
              ≡ (if r.id == j then some (released_row r) else find_reservation j u.reservations))
  release_step r u (inv, positive) only found due = elim (only r.id r found) [
    | inl there ↦
        (let (res, t, e, er, el) = release_reservation-rows r.id r u inv positive there due.0 in
          (
            res,
            t,
            e,
            (subst (λ x. StockInv x.1) e (release_reservation-StockInv r.id u inv), rw el positive),
            λ j. rw er (
                find_reservation-replace_status r.id j ReservationStatus.released r u.reservations
                  there),
          ))
    | inr (_, there) ↦
        (let (res, e) = release_again r.id r u there in
          (res, u, e, (inv, positive), λ j. same r.id j there))
  ]
    where
      same :
          (i j : ℕ)
          → find_reservation i u.reservations ≡ some (released_row r)
          → find_reservation j u.reservations
            ≡ (if i == j then some (released_row r) else find_reservation j u.reservations)
      same i j there = ground arith

  -- The loop over rows that were due in the first state.
  pub release_each_lem :
      (n : ℕ) (rs : List Reservation) (u : InventoryDb)
      → Sound u
      → OnlyDue now s u
      → All (λ r. (find_reservation r.id s.reservations ≡ some r) × Due now r) rs
      → (t : InventoryDb) × (release_each n rs u ≡ (ok (n + length rs), t))
        × Sound t
        × OnlyDue now s t
        × StaysReleased s u t
        × All (λ r. find_reservation r.id t.reservations ≡ some (released_row r)) rs
  unfolding release_each
  release_each_lem n [] u sound only h =
      (u, ap (λ k. (ok k, u)) (omega arith), sound, only, (λ j r _ e. e), tt)
  release_each_lem n (r ∷ rs) u sound only ((found, due), h) =
      let (res, v, e, sound', writes) = release_step r u sound only found due in
      let mine : find_reservation r.id v.reservations ≡ some (released_row r) =
        rw (writes r.id) (ground arith) in
      let only' : OnlyDue now s v =
        λ j x at. only_after r u v found due writes j x at (only j x at) in
      let (t, e', sound_t, only_t, stays, all) = release_each_lem (n + 1) rs v sound' only' h in
      (
        t,
        rw e (e' ∙ ap (λ k. (ok k, t)) (omega arith)),
        sound_t,
        only_t,
        (λ j x at was. stays j x at (stays_after r u v found writes j x at was)),
        (stays r.id r found mine, all),
      )
    where
      only_after :
          (r : Reservation) (u v : InventoryDb)
          → find_reservation r.id s.reservations ≡ some r
          → Due now r
          → ((j : ℕ)
              → find_reservation j v.reservations
                ≡ (if r.id == j then some (released_row r) else find_reservation j u.reservations))
          → (j : ℕ) (x : Reservation) → find_reservation j s.reservations ≡ some x
          → (find_reservation j u.reservations ≡ some x)
            ⊎ (Due now x × (find_reservation j u.reservations ≡ some (released_row x)))
          → (find_reservation j v.reservations ≡ some x)
            ⊎ (Due now x × (find_reservation j v.reservations ≡ some (released_row x)))
      only_after r u v found due writes j x at was = elim (Bool-cases (r.id == j)) [
        | inl hit ↦
            (let id_is : r.id ≡ j = ground (arith, hit) in
              let both : r ≡ x =
                same_row _ _
                  (sym found ∙ (ap (λ k. find_reservation k s.reservations) id_is ∙ at)) in
              inr (
                subst (Due now) both due,
                rw (writes j) (rw hit (ap (λ y. some (released_row y)) both)),
              ))
        | inr miss ↦ rw (writes j) (rw miss was)
      ]

      stays_after :
          (r : Reservation) (u v : InventoryDb)
          → find_reservation r.id s.reservations ≡ some r
          → ((j : ℕ)
              → find_reservation j v.reservations
                ≡ (if r.id == j then some (released_row r) else find_reservation j u.reservations))
          → (j : ℕ) (x : Reservation) → find_reservation j s.reservations ≡ some x
          → find_reservation j u.reservations ≡ some (released_row x)
          → find_reservation j v.reservations ≡ some (released_row x)
      stays_after r u v found writes j x at was = elim (Bool-cases (r.id == j)) [
        | inl hit ↦
            (let id_is : r.id ≡ j = ground (arith, hit) in
              let both : r ≡ x =
                same_row _ _
                  (sym found ∙ (ap (λ k. find_reservation k s.reservations) id_is ∙ at)) in
              rw (writes j) (rw hit (ap (λ y. some (released_row y)) both)))
        | inr miss ↦ rw (writes j) (rw miss was)
      ]
