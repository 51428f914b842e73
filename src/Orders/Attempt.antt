-- ===== src/Orders/Attempt.antt =====
-- The `try` block of `placeOrder` (services/orders/src/domain/placeOrder.ts), step by step.
use atlas_commerce.Prelude.{ℕ, ◌≡◌, refl, ◌⊎◌, inl, inr, some, List, [], ◌∷◌, map}
use atlas_commerce.Shared.Errors.{Code}
use atlas_commerce.Shared.Tx.{renamed, Action, Result, ok, err, ◌>>=◌, ◌>>◌, on_first, on_second}
use atlas_commerce.Shared.Post.{Ensures, Ensures, Holds, Holds-and_then}
use atlas_commerce.Orders.Types.{OrderStatus, Customer, OrderRow, Order, OrdersDb, PricedLine, Env}
use atlas_commerce.Orders.Repository.{
  update_status, mark_reserved, attach_payment_intent, mark_confirmed,
}
use atlas_commerce.Orders.Rows.{
  RowIs, update_order-RowIs, Rows, remote-Holds, remote-Holds_with, update-Holds,
}
use atlas_commerce.Orders.Clients.{
  map_upstream, Apis, create_reservation, create_intent, capture_intent, commit_reservation,
}
use atlas_commerce.Orders.Place.{
  Compensation, place_body, payment_key, set_reservation, set_intent, calculate_subtotal, input_of,
}

abbrev pub IsPending : OrderRow → Type 0
IsPending r = r.status ≡ OrderStatus.pending

abbrev IsReserved : ℕ → OrderRow → Type 0
IsReserved res r = (r.status ≡ OrderStatus.reserved) × (r.reservation_id ≡ some res)

abbrev IsPayable : ℕ → ℕ → OrderRow → Type 0
IsPayable res intent r =
    (r.status ≡ OrderStatus.reserved)
    × (r.reservation_id ≡ some res)
    × (r.payment_intent_id ≡ some intent)

-- Confirmed, with a payment intent and a reservation that satisfies `K`.
abbrev pub IsConfirmed : (ℕ → Type 0) → OrderRow → Type 0
IsConfirmed K r =
    (r.status ≡ OrderStatus.confirmed)
    × ((res : ℕ) × (r.reservation_id ≡ some res) × K res)
    × ((intent : ℕ) × (r.payment_intent_id ≡ some intent))

abbrev pub IsOpen : OrderRow → Type 0
IsOpen r = (r.status ≡ OrderStatus.pending) ⊎ (r.status ≡ OrderStatus.reserved)

module _ (id : ℕ) where
  abbrev pub Confirms :
      {R : Type 0} → (ℕ → R → Type 0) → Order → (OrdersDb × R) × Compensation → Type 0
  Confirms K o u =
      RowIs id (IsConfirmed (λ res. K res u.0.1)) u.0.0 × IsConfirmed (λ res. K res u.0.1) o.row

  -- `K res` is what the commit of a reservation guarantees of the rest of the system.
  module _ {R : Type 0} (apis : Apis R) (env : Env) (K : ℕ → R → Type 0)
      (commits : (res : ℕ) (u : R) → Ensures (λ _ v. K res v) (apis.commit res u)) where
    commit_reservation-K :
        (res : ℕ) (u : R) → Ensures (λ _ v. K res v) (commit_reservation apis res u)
    commit_reservation-K res u = go (apis.commit res u) (commits res u)
      where
        go :
            (x : Result (Unit {0}) × R)
            → Ensures (λ _ v. K res v) x
            → Ensures
                (λ _ v. K res v)
                (renamed (map_upstream Code.inventory_commit_upstream_error) x)
        go (ok a, v) k = k
        go (err e, v) k = tt

    confirm-Holds :
        (res intent : ℕ) (t : (OrdersDb × R) × Compensation)
        → RowIs id (IsPayable res intent) t.0.0 × K res t.0.1
        → Holds (Confirms K) (Rows id IsOpen) (on_first (on_first (mark_confirmed env id)) t)
    unfolding mark_confirmed update_status
    confirm-Holds res intent t (h, k) =
        let (o, u, e, at, row) =
          update_order-RowIs id (IsPayable res intent) (IsConfirmed (λ i. K i t.0.1))
            (λ r. record r { status = OrderStatus.confirmed; updated_at = env.now })
            (OrderStatus.reserved ∷ []) t.0.0 (λ r x. rw x.0 refl) (λ r. refl)
            (λ r x. (refl, (res, x.1, k), (intent, x.2))) h in
        rw e (at, row)

    -- From the capture on.
    abbrev finish : ℕ → ℕ → Action ((OrdersDb × R) × Compensation) Order
    finish res intent = do
      on_first (on_second (capture_intent apis intent (payment_key id)))
      on_first (on_second (commit_reservation apis res))
      on_first (on_first (mark_confirmed env id))

    finish-Holds :
        (res intent : ℕ) (t : (OrdersDb × R) × Compensation)
        → RowIs id (IsPayable res intent) t.0.0
        → Holds (Confirms K) (Rows id IsOpen) (finish res intent t)
    unfolding mark_confirmed update_status
    finish-Holds res intent t h =
        Holds-and_then (Rows id (IsPayable res intent)) (Confirms K) (Rows id IsOpen)
          (on_first (on_second (capture_intent apis intent (payment_key id))) t)
          (λ _.
            on_first (on_second (commit_reservation apis res))
            >> on_first (on_first (mark_confirmed env id)))
          (remote-Holds id (IsPayable res intent) IsOpen
            (capture_intent apis intent (payment_key id)) t (λ r p. inr p.0) h)
          (λ _ u p.
            Holds-and_then (λ _ v. RowIs id (IsPayable res intent) v.0.0 × K res v.0.1) (Confirms K)
              (Rows id IsOpen) (on_first (on_second (commit_reservation apis res)) u)
              (λ _. on_first (on_first (mark_confirmed env id)))
              (remote-Holds_with id (K res) (IsPayable res intent) IsOpen
                (commit_reservation apis res) u (λ r q. inr q.0) (commit_reservation-K res u.0.1) p)
              (λ _ v q. confirm-Holds res intent v q))

    -- From the intent on.
    abbrev pay : Customer → List PricedLine → ℕ → Action ((OrdersDb × R) × Compensation) Order
    pay c lines res = do
      intent ← on_first (
          on_second (
            create_intent apis (record {
              order_id = id;
              amount_cents = calculate_subtotal lines;
              currency = c.currency;
              idempotency_key = payment_key id;
            })))
      set_intent intent
      on_first (on_first (attach_payment_intent env id intent))
      finish res intent

    pay-Holds :
        (c : Customer) (lines : List PricedLine) (res : ℕ) (t : (OrdersDb × R) × Compensation)
        → RowIs id (IsReserved res) t.0.0
        → Holds (Confirms K) (Rows id IsOpen) (pay c lines res t)
    unfolding attach_payment_intent
    pay-Holds c lines res t h =
        let call = create_intent apis (record {
          order_id = id;
          amount_cents = calculate_subtotal lines;
          currency = c.currency;
          idempotency_key = payment_key id;
        }) in
        Holds-and_then (Rows id (IsReserved res)) (Confirms K) (Rows id IsOpen)
          (on_first (on_second call) t)
          (λ intent.
            set_intent intent
            >> (on_first (on_first (attach_payment_intent env id intent)) >> finish res intent))
          (remote-Holds id (IsReserved res) IsOpen call t (λ r p. inr p.0) h)
          (λ intent u p.
            let v : (OrdersDb × R) × Compensation =
              (u.0, record u.1 { payment_intent_id = some intent }) in
            Holds-and_then
              (λ o w. RowIs id (IsPayable res intent) w.0.0 × IsPayable res intent o.row)
              (Confirms K) (Rows id IsOpen)
              (on_first (on_first (attach_payment_intent env id intent)) v) (λ _. finish res intent)
              (update-Holds id (IsReserved res) (IsPayable res intent) IsOpen
                (λ r. record r { payment_intent_id = some intent; updated_at = env.now })
                (OrderStatus.reserved ∷ []) v (λ r x. rw x.0 refl) (λ r. refl)
                (λ r x. (x.0, x.1, refl)) p)
              (λ _ w q. finish-Holds res intent w q.0))

    pub place_body-Holds :
        (c : Customer) (lines : List PricedLine) (t : (OrdersDb × R) × Compensation)
        → RowIs id IsPending t.0.0
        → Holds (Confirms K) (Rows id IsOpen) (place_body apis env id c lines t)
    unfolding place_body mark_reserved attach_payment_intent mark_confirmed update_status
    place_body-Holds c lines t h =
        let call = create_reservation apis id (map input_of lines) in
        Holds-and_then (Rows id IsPending) (Confirms K) (Rows id IsOpen)
          (on_first (on_second call) t)
          (λ res.
            set_reservation res
            >> (on_first (on_first (mark_reserved env id res)) >> pay c lines res))
          (remote-Holds id IsPending IsOpen call t (λ r p. inl p) h)
          (λ res u p.
            let v : (OrdersDb × R) × Compensation =
              (u.0, record u.1 { reservation_id = some res }) in
            Holds-and_then (λ o w. RowIs id (IsReserved res) w.0.0 × IsReserved res o.row)
              (Confirms K) (Rows id IsOpen) (on_first (on_first (mark_reserved env id res)) v)
              (λ _. pay c lines res)
              (update-Holds id IsPending (IsReserved res) IsOpen
                (λ r. record r {
                  status = OrderStatus.reserved;
                  updated_at = env.now;
                  reservation_id = some res;
                })
                (OrderStatus.pending ∷ []) v (λ r x. rw x refl) (λ r. refl) (λ r x. (refl, refl)) p)
              (λ _ w q. pay-Holds c lines res w q.0))
