-- ===== src/Orders/Cancel.antt =====
-- What `cancelOrder` does on each branch (services/orders/src/domain/cancelOrder.ts).
use atlas_commerce.Prelude.{
  ℕ, ◌≡◌, refl, sym, subst, ◌∙◌, ◌⊎◌, inl, inr, true, false, Option, none, some, [], ◌∷◌,
  Option-cases, Bool-cases, first, sort_by, keep_if, ◌==◌,
}
use atlas_commerce.Shared.Errors.{Code, AppError}
use atlas_commerce.Shared.Tx.{Action, Result, ok, err, ◌>>◌, and_then, on_first, roll_first}
use atlas_commerce.Shared.Post.{and_then-keeps, Holds, and_then_assoc}
use atlas_commerce.Orders.Types.{OrderStatus, OrderRow, Order, Shipment, OrdersDb, Env}
use atlas_commerce.Orders.Repository.{
  find_order, replace_order, load_order, find_by_id, find_by_order_id, update_status, newest_first,
  mark_cancelled, order_not_found,
}
use atlas_commerce.Orders.Clients.{Apis}
use atlas_commerce.Orders.Rows.{update_order_hit}
use atlas_commerce.Orders.Fulfil.{
  confirmed_order, is_confirmed, order_conflict_error, release_if, void_if, cancel_order,
}

-- The order may be cancelled or shipped: its row is there and confirmed, and it has no shipment.
abbrev pub IsOpenFor : ℕ → OrderRow → OrdersDb → Type 0
IsOpenFor id r s =
    (find_order id s.orders ≡ some r)
    × (r.status ≡ OrderStatus.confirmed)
    × (find_by_order_id id s ≡ (ok none, s))

module _ (wrong_status has_shipment : Code) (id : ℕ) where
  pub confirmed_order_ok :
      (r : OrderRow) (s : OrdersDb)
      → IsOpenFor id r s
      → confirmed_order wrong_status has_shipment id s ≡ (ok (load_order r s), s)
  unfolding confirmed_order find_by_id load_order
  confirmed_order_ok r s (found, was, free) = rw found (rw was (rw free refl))

  is_confirmed_lem : (st : OrderStatus) → is_confirmed st ≡ true → st ≡ OrderStatus.confirmed
  is_confirmed_lem OrderStatus.pending h = cc
  is_confirmed_lem OrderStatus.reserved h = cc
  is_confirmed_lem OrderStatus.confirmed h = refl
  is_confirmed_lem OrderStatus.shipped h = cc
  is_confirmed_lem OrderStatus.cancelled h = cc
  is_confirmed_lem OrderStatus.failed h = cc

  confirmed_order_missing :
      (s : OrdersDb)
      → find_order id s.orders ≡ none
      → confirmed_order wrong_status has_shipment id s ≡ (err order_not_found, s)
  unfolding confirmed_order find_by_id
  confirmed_order_missing s miss = rw miss refl

  -- What the reads answer, by the first test that fails.
  pub confirmed_order_err :
      (r : OrderRow) (s : OrdersDb)
      → (find_order id s.orders ≡ some r
          → is_confirmed r.status ≡ false
          → confirmed_order wrong_status has_shipment id s
            ≡ (err (order_conflict_error wrong_status), s))
        × ((x : Shipment)
            → find_order id s.orders ≡ some r
            → is_confirmed r.status ≡ true
            → find_by_order_id id s ≡ (ok (some x), s)
            → confirmed_order wrong_status has_shipment id s
              ≡ (err (order_conflict_error has_shipment), s))
  unfolding confirmed_order find_by_id load_order
  confirmed_order_err r s =
      (λ found other. rw found (rw other refl), λ x found was has. rw found (rw was (rw has refl)))

  -- The reads go through for such an order only, and write nothing.
  pub confirmed_order_cases :
      (s : OrdersDb)
      → ((r : OrderRow) × IsOpenFor id r s
          × (confirmed_order wrong_status has_shipment id s ≡ (ok (load_order r s), s)))
        ⊎ ((e : AppError) × (confirmed_order wrong_status has_shipment id s ≡ (err e, s)))
  unfolding find_by_order_id
  confirmed_order_cases s = elim (Option-cases (find_order id s.orders)) [
    | inl miss ↦ inr (order_not_found, confirmed_order_missing s miss)
    | inr (r, found) ↦ elim (Bool-cases (is_confirmed r.status)) [
      | inr other ↦ inr (order_conflict_error wrong_status, (confirmed_order_err r s).0 found other)
      | inl was ↦
          elim (Option-cases
            (first (sort_by newest_first (keep_if (λ x. x.order_id == id) s.shipments)))) [
              | inl free ↦
                  (let open_for : IsOpenFor id r s =
                      (found, is_confirmed_lem r.status was, rw free refl) in
                    inl (r, open_for, confirmed_order_ok r s open_for))
              | inr (x, has) ↦ inr (
                order_conflict_error has_shipment,
                (confirmed_order_err r s).1 x found was (rw has refl),
              )
            ]
    ]
  ]

module _ {R : Type 0} (apis : Apis R) (env : Env) (id : ℕ) where
  -- The release and the void, one after the other.
  abbrev pub undo : OrderRow → Action (OrdersDb × R) (Unit {0})
  undo r = release_if apis r.reservation_id >> void_if apis r.payment_intent_id

  void_if-keeps : (i : Option ℕ) (w : OrdersDb × R) → (void_if apis i w).1.0 ≡ w.0
  void_if-keeps none w = refl
  void_if-keeps (some i) w = refl

  release_if-keeps : (i : Option ℕ) (w : OrdersDb × R) → (release_if apis i w).1.0 ≡ w.0
  release_if-keeps none w = refl
  release_if-keeps (some i) w = refl

  undo-keeps : (r : OrderRow) (w : OrdersDb × R) → (undo r w).1.0 ≡ w.0
  undo-keeps r w =
      and_then-keeps (λ u. u.0 ≡ w.0) (release_if apis r.reservation_id w)
        (λ _. void_if apis r.payment_intent_id) (release_if-keeps r.reservation_id w)
        (λ _ u h. void_if-keeps r.payment_intent_id u ∙ h)

  abbrev pub cancelled : OrderRow → OrderRow
  cancelled r = record r { status = OrderStatus.cancelled; updated_at = env.now }

  -- The order was confirmed and had no shipment, the other services took the release and the void,
  -- and the row is now cancelled.
  abbrev pub Cancels : OrdersDb × R → Order → OrdersDb × R → Type 0
  Cancels w o u =
      (r : OrderRow) × IsOpenFor id r w.0
      × (undo r w ≡ (ok tt, (w.0, u.1)))
      × (o ≡ load_order (cancelled r) w.0)
      × (u.0 ≡ record w.0 { orders = replace_order (cancelled r) w.0.orders })

  mark_cancelled-Cancels :
      (r : OrderRow) (w : OrdersDb × R) (x : Result (Unit {0}) × (OrdersDb × R))
      → IsOpenFor id r w.0
      → undo r w ≡ x
      → x.1.0 ≡ w.0
      → Holds
          (Cancels w)
          (λ _ u. u.0 ≡ w.0)
          (roll_first w.0 (and_then x (λ _. on_first (mark_cancelled env id))))
  unfolding mark_cancelled update_status
  mark_cancelled-Cancels r w (err e, u) h did keeps = refl
  mark_cancelled-Cancels r w (ok _, (v, t)) h did keeps =
      let there : find_order id v.orders ≡ some r = rw keeps h.0 in
      rw (update_order_hit id cancelled (OrderStatus.confirmed ∷ []) v r there (rw h.1 refl))
        (r, h, subst (λ z. undo r w ≡ (ok tt, (z, t))) keeps did, rw keeps refl, rw keeps refl)

  -- Cancelling an order, whatever the other services answer. Where the call returns, the order was
  -- confirmed without a shipment, both calls went through and the row becomes cancelled; where it
  -- throws, the orders are as they were.
  pub cancel_order_lem :
      (w : OrdersDb × R) → Holds (Cancels w) (λ _ u. u.0 ≡ w.0) (cancel_order apis env id w)
  unfolding cancel_order load_order
  cancel_order_lem w =
      elim (confirmed_order_cases Code.order_not_cancellable Code.order_already_shipped id w.0) [
        | inr (e, eq) ↦ rw eq refl
        | inl (r, h, eq) ↦ rw eq (
            rw
              (sym (
                and_then_assoc (release_if apis r.reservation_id w)
                  (λ _. void_if apis r.payment_intent_id) (λ _. on_first (mark_cancelled env id))))
              (mark_cancelled-Cancels r w (undo r w) h refl (undo-keeps r w)))
      ]
