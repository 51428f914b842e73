-- ===== src/Orders/Settled.antt =====
-- The `catch` block of `placeOrder` and its compensation (services/orders/src/domain).
use atlas_commerce.Prelude.{
  ℕ, ◌≡◌, refl, sym, subst, ◌∙◌, inl, inr, Option, none, some, List, [], ◌∷◌, Bool-cases,
}
use atlas_commerce.Shared.Errors.{AppError}
use atlas_commerce.Shared.Tx.{Result, ok, err, pure, handled}
use atlas_commerce.Shared.Post.{Ensures, Ensures-true, and_then-keeps, Holds}
use atlas_commerce.Orders.Types.{OrderStatus, Customer, OrderRow, Order, OrdersDb, PricedLine, Env}
use atlas_commerce.Orders.Repository.{update_status, mark_failed}
use atlas_commerce.Orders.Rows.{RowIs, update_order-RowIs, Rows}
use atlas_commerce.Orders.Attempt.{IsPending, IsOpen, IsConfirmed, Confirms, place_body-Holds}
use atlas_commerce.Orders.Clients.{Apis, void_intent}
use atlas_commerce.Orders.Place.{
  Compensation, place_body, place_failed, place_created, compensate, fail_order, after_compensation,
  settle, undo_reservation, undo_intent, is_insufficient_stock,
}

abbrev pub IsFailed : OrderRow → Type 0
IsFailed r = r.status ≡ OrderStatus.failed

module _ (id : ℕ) {R : Type 0} (K : ℕ → R → Type 0) where
  -- The row is confirmed with its reservation and intent and so is the order returned, or an error
  -- is thrown and the row is failed.
  abbrev pub Settles : Result Order × (OrdersDb × R) → Type 0
  Settles =
      Holds
        (λ o u.
          RowIs id (IsConfirmed (λ res. K res u.1)) u.0 × (IsConfirmed (λ res. K res u.1)) o.row)
        (λ _ u. RowIs id IsFailed u.0)

  fail_order-Settles :
      (env : Env) (e : AppError) (w : OrdersDb × R)
      → RowIs id IsOpen w.0
      → Settles (fail_order env id e w)
  unfolding mark_failed update_status
  fail_order-Settles env e w h =
      let (o, u, eq, at, row) =
        update_order-RowIs id IsOpen IsFailed
          (λ r. record r { status = OrderStatus.failed; updated_at = env.now })
          (OrderStatus.pending ∷ OrderStatus.reserved ∷ []) w.0
          (λ r x. elim x [ inl p ↦ rw p refl | inr p ↦ rw p refl ]) (λ r. refl) (λ r x. refl) h in
      rw eq at

  -- What the compensation calls leaves the orders alone.
  handled-keeps :
      (db : OrdersDb) (x : Result (Unit {0}) × R)
      → (handled {S = OrdersDb × R} (λ _. pure tt) (x.0, (db, x.1))).1.0 ≡ db
  handled-keeps db (ok a, u) = refl
  handled-keeps db (err e, u) = refl

  undo_intent-keeps :
      (apis : Apis R) (i : Option ℕ) (w : OrdersDb × R) → (undo_intent apis i w).1.0 ≡ w.0
  undo_intent-keeps apis none w = refl
  undo_intent-keeps apis (some i) w = handled-keeps w.0 (void_intent apis i w.1)

  undo_reservation-keeps :
      (apis : Apis R) (i : Option ℕ) (w : OrdersDb × R) → (undo_reservation apis i w).1.0 ≡ w.0
  undo_reservation-keeps apis none w = refl
  undo_reservation-keeps apis (some i) w = refl

  compensate-keeps :
      (apis : Apis R) (c : Compensation) (w : OrdersDb × R) → (compensate apis c w).1.0 ≡ w.0
  unfolding compensate
  compensate-keeps apis c w =
      and_then-keeps (λ u. u.0 ≡ w.0) (undo_reservation apis c.reservation_id w)
        (λ _. undo_intent apis c.payment_intent_id) (undo_reservation-keeps apis c.reservation_id w)
        (λ _ u h. undo_intent-keeps apis c.payment_intent_id u ∙ h)

  after_compensation-Settles :
      (apis : Apis R) (env : Env) (e : AppError) (x : Result (Unit {0}) × (OrdersDb × R))
      → RowIs id IsOpen x.1.0
      → Settles (after_compensation apis env id e x)
  after_compensation-Settles apis env e (ok _, w) h = fail_order-Settles env e w h
  after_compensation-Settles apis env e (err e', w) h = fail_order-Settles env e' w h

  place_failed-Settles :
      (apis : Apis R) (env : Env) (c : Compensation) (e : AppError) (w : OrdersDb × R)
      → RowIs id IsOpen w.0
      → Settles (place_failed apis env id c e w)
  unfolding place_failed
  place_failed-Settles apis env c e w h = elim (Bool-cases (is_insufficient_stock e)) [
    | inl short ↦ rw short (fail_order-Settles env e w h)
    | inr other ↦ rw other (
        after_compensation-Settles apis env e (compensate apis c w)
          (subst (RowIs id IsOpen) (sym (compensate-keeps apis c w)) h))
  ]

  settle-Settles :
      (apis : Apis R) (env : Env) (x : Result Order × ((OrdersDb × R) × Compensation))
      → Holds (Confirms id K) (Rows id IsOpen) x
      → Settles (settle apis env id x)
  settle-Settles apis env (ok o, (w, c)) h = h
  settle-Settles apis env (err e, (w, c)) h = place_failed-Settles apis env c e w h

  -- The attempt, when each commit that returns guarantees `K` of its reservation.
  pub place_created-Settles_with :
      (apis : Apis R) (env : Env) (c : Customer) (lines : List PricedLine) (w : OrdersDb × R)
      → ((res : ℕ) (u : R) → Ensures (λ _ v. K res v) (apis.commit res u))
      → RowIs id IsPending w.0
      → Settles (place_created apis env id c lines w)
  unfolding place_created
  place_created-Settles_with apis env c lines w commits h =
      let none_yet : Compensation = record { reservation_id = none; payment_intent_id = none } in
      settle-Settles apis env (place_body apis env id c lines (w, none_yet))
        (place_body-Holds id apis env K commits c lines (w, none_yet) h)

-- A pending order that is placed ends confirmed or failed, whatever the other services answer: the
-- attempt returns an order whose row is confirmed with a reservation and a payment intent, or it
-- throws and the row is failed.
pub place_created-Settles :
    {R : Type 0} (apis : Apis R) (env : Env) (id : ℕ) (c : Customer) (lines : List PricedLine)
    (w : OrdersDb × R)
    → RowIs id IsPending w.0
    → Settles id (λ _ _. Unit {0}) (place_created apis env id c lines w)
place_created-Settles apis env id c lines w h =
    place_created-Settles_with id (λ _ _. Unit {0}) apis env c lines w
      (λ res u. Ensures-true (apis.commit res u)) h
