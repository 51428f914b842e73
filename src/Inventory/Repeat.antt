-- ===== src/Inventory/Repeat.antt =====
-- Calls on a reservation that is committed or released (reservationService.ts of
-- services/inventory).
use atlas_commerce.Prelude.{ℕ, ◌≡◌, refl, subst, inl, inr, some, arith, Option-cases}
use atlas_commerce.Shared.Tx.{pure, Result, ok, err, and_then, commit_or_rollback}
use atlas_commerce.Shared.Post.{Ensures, Ensures-with_tx, Ensures-and_then, Ensures-weaken}
use atlas_commerce.Inventory.Types.{
  Reservation, ReservationStatus, InventoryDb, Env, ReservationResult,
}
use atlas_commerce.Inventory.Reservations.{
  find_reservation, find_by_id, list_lines, lines_of, set_status,
}
use atlas_commerce.Inventory.Service.{
  reservation_result, commit_lines, commit_by_status, commit_body, commit_reservation,
  release_lines, release_by_status, release_body, release_reservation, already_committed,
  already_released,
}
use atlas_commerce.Inventory.Accounts.{find_reservation-replace_status}
use atlas_commerce.Inventory.Settle.{Ships, commit_lines-Ships, Frees, release_lines-Frees}

module _ (id : ℕ) where
  -- The reservation stands in the status, and the answer shows it with its lines.
  abbrev Shows : ReservationStatus → ReservationResult → InventoryDb → Type 0
  Shows st res t =
      (r : Reservation) × (find_reservation id t.reservations ≡ some r)
      × (r.status ≡ st)
      × (res ≡ reservation_result r (lines_of id t.lines))

  set_status-Shows :
      (st : ReservationStatus) (r : Reservation) (s u : InventoryDb)
      → find_reservation id s.reservations ≡ some r
      → u.reservations ≡ s.reservations
      → u.lines ≡ s.lines
      → Ensures
          (Shows st)
          (and_then (set_status id st u) (λ c. pure (reservation_result c (lines_of id s.lines))))
  unfolding set_status
  set_status-Shows st r s u found er el =
      let there : find_reservation id u.reservations ≡ some r = rw er found in
      let read = find_reservation-replace_status id id st r u.reservations there in
      rw there (record r { status = st }, ground (arith, read), refl, rw el)

  commit_by_status-Shows :
      (env : Env) (r : Reservation) (st : ReservationStatus) (s : InventoryDb)
      → find_reservation id s.reservations ≡ some r
      → r.status ≡ st
      → Ensures
          (Shows ReservationStatus.committed)
          (commit_by_status env r (lines_of id s.lines) st id s)
  unfolding commit_by_status
  commit_by_status-Shows env r ReservationStatus.committed s found e = (r, found, e, refl)
  commit_by_status-Shows env r ReservationStatus.released s found e = tt
  commit_by_status-Shows env r ReservationStatus.pending s found e =
      Ensures-and_then (λ _ u. Ships 0 0 (lines_of id s.lines) s u)
        (Shows ReservationStatus.committed) (commit_lines env id 0 (lines_of id s.lines) s) _
        (commit_lines-Ships 0 0 env id 0 (lines_of id s.lines) s)
        (λ _ u h. set_status-Shows ReservationStatus.committed r s u found h.0 h.1)

  release_by_status-Shows :
      (r : Reservation) (st : ReservationStatus) (s : InventoryDb)
      → find_reservation id s.reservations ≡ some r
      → r.status ≡ st
      → Ensures
          (Shows ReservationStatus.released)
          (release_by_status r (lines_of id s.lines) st id s)
  unfolding release_by_status
  release_by_status-Shows r ReservationStatus.released s found e = (r, found, e, refl)
  release_by_status-Shows r ReservationStatus.committed s found e = tt
  release_by_status-Shows r ReservationStatus.pending s found e =
      Ensures-and_then (λ _ u. Frees 0 0 (lines_of id s.lines) s u)
        (Shows ReservationStatus.released) (release_lines (lines_of id s.lines) s) _
        (release_lines-Frees 0 0 (lines_of id s.lines) s)
        (λ _ u h. set_status-Shows ReservationStatus.released r s u found h.0 h.1)

  commit_body-Shows :
      (env : Env) (s : InventoryDb)
      → Ensures (Shows ReservationStatus.committed) (commit_body env id s)
  unfolding commit_body find_by_id list_lines
  commit_body-Shows env s = elim (Option-cases (find_reservation id s.reservations)) [
    | inl e ↦ rw e tt
    | inr (r, e) ↦ rw e (commit_by_status-Shows env r r.status s e refl)
  ]

  release_body-Shows :
      (s : InventoryDb) → Ensures (Shows ReservationStatus.released) (release_body id s)
  unfolding release_body find_by_id list_lines
  release_body-Shows s = elim (Option-cases (find_reservation id s.reservations)) [
    | inl e ↦ rw e tt
    | inr (r, e) ↦ rw e (release_by_status-Shows r r.status s e refl)
  ]

-- A call that returned, by the body that ran.
pub with_tx-returned {ℓ κ} :
    {S : Type ℓ} {A : Type κ} (s t : S) (a : A) (r : Result A × S)
    → commit_or_rollback s r ≡ (ok a, t)
    → r ≡ (ok a, t)
with_tx-returned s t a (ok b, u) h = h
with_tx-returned s t a (err e, u) h = cc

-- Both calls on a reservation that is committed, or released.
pub on_committed :
    (env : Env) (id : ℕ) (r : Reservation) (s : InventoryDb)
    → find_reservation id s.reservations ≡ some r
    → r.status ≡ ReservationStatus.committed
    → (commit_reservation env id s ≡ (ok (reservation_result r (lines_of id s.lines)), s))
      × (release_reservation id s ≡ (err already_committed, s))
unfolding commit_reservation commit_body commit_by_status release_reservation release_body
    release_by_status find_by_id list_lines
on_committed env id r s found is = (rw found (rw is refl), rw found (rw is refl))

pub on_released :
    (env : Env) (id : ℕ) (r : Reservation) (s : InventoryDb)
    → find_reservation id s.reservations ≡ some r
    → r.status ≡ ReservationStatus.released
    → (release_reservation id s ≡ (ok (reservation_result r (lines_of id s.lines)), s))
      × (commit_reservation env id s ≡ (err already_released, s))
unfolding commit_reservation commit_body commit_by_status release_reservation release_body
    release_by_status find_by_id list_lines
on_released env id r s found is = (rw found (rw is refl), rw found (rw is refl))

pub commit_reservation-committed :
    (env : Env) (id : ℕ) (s : InventoryDb)
    → Ensures
        (λ _ t.
          (r : Reservation) × (find_reservation id t.reservations ≡ some r)
          × (r.status ≡ ReservationStatus.committed))
        (commit_reservation env id s)
unfolding commit_reservation
commit_reservation-committed env id s =
    let shows =
      Ensures-with_tx (Shows id ReservationStatus.committed) (commit_body env id) s
        (commit_body-Shows id env s) in
    Ensures-weaken _ _ (commit_reservation env id s) (λ _ _ h. (h.0, h.1, h.2)) shows

-- After a commit that returned, committing again returns the same answer and changes nothing, and
-- releasing is refused with `RESERVATION_ALREADY_COMMITTED` and changes nothing.
pub commit_reservation_once :
    (env later : Env) (id : ℕ) (s t : InventoryDb) (res : ReservationResult)
    → commit_reservation env id s ≡ (ok res, t)
    → (commit_reservation later id t ≡ (ok res, t))
      × (release_reservation id t ≡ (err already_committed, t))
unfolding commit_reservation
commit_reservation_once env later id s t res h =
    let (r, found, is, shown) =
      subst (Ensures (Shows id ReservationStatus.committed))
        (with_tx-returned s t res (commit_body env id s) h) (commit_body-Shows id env s) in
    let both = on_committed later id r t found is in (rw shown both.0, both.1)

-- After a release that returned, releasing again returns the same answer and changes nothing, and
-- committing is refused with `RESERVATION_ALREADY_RELEASED` and changes nothing.
pub release_reservation_once :
    (later : Env) (id : ℕ) (s t : InventoryDb) (res : ReservationResult)
    → release_reservation id s ≡ (ok res, t)
    → (release_reservation id t ≡ (ok res, t))
      × (commit_reservation later id t ≡ (err already_released, t))
unfolding release_reservation
release_reservation_once later id s t res h =
    let (r, found, is, shown) =
      subst (Ensures (Shows id ReservationStatus.released))
        (with_tx-returned s t res (release_body id s) h) (release_body-Shows id s) in
    let both = on_released later id r t found is in (rw shown both.0, both.1)
