-- ===== src/Orders/Progress.antt =====
-- What a run of the shipment progress job does to each shipment
-- (services/orders/src/jobs/shipmentProgressTick.ts).
use atlas_commerce.Prelude.{
  ℕ, ◌≡◌, refl, sym, subst, ◌∙◌, inl, inr, some, List, [], ◌∷◌, ◌≤◌, ◌==◌, ==_iff, if◌then◌else◌,
  Option-cases, Bool-cases, arith,
}
use atlas_commerce.Shared.Tx.{pure}
use atlas_commerce.Shared.Post.{and_then-keeps}
use atlas_commerce.Orders.Types.{ShipmentStatus, Shipment, OrdersDb, Env, shipment_rank}
use atlas_commerce.Orders.Repository.{
  find_shipment, replace_shipment, advance_status, list_ready_to_advance,
}
use atlas_commerce.Orders.Fulfil.{
  next_status, count_updated, advance_one, advance_each, run_shipment_progress_tick,
}

pub find_shipment-replace_shipment :
    (j : ℕ) (r old : Shipment) (rs : List Shipment)
    → find_shipment r.id rs ≡ some old
    → find_shipment j (replace_shipment r rs) ≡ (if r.id == j then some r else find_shipment j rs)
unfolding find_shipment replace_shipment
find_shipment-replace_shipment j r old [] h = cc
find_shipment-replace_shipment j r old (x ∷ rs) h =
    ground (arith, find_shipment-replace_shipment j r old rs)

pub find_shipment-id :
    (id : ℕ) (rs : List Shipment) (r : Shipment) → find_shipment id rs ≡ some r → r.id ≡ id
unfolding find_shipment
find_shipment-id id [] r h = cc
find_shipment-id id (x ∷ rs) r h = ground (arith, find_shipment-id id rs r)

-- What a shipment keeps, and how it moves.
abbrev IsAhead : Shipment → Shipment → Type 0
IsAhead x y =
    (shipment_rank x.status ≤ shipment_rank y.status)
    × (y.order_id ≡ x.order_id)
    × (y.carrier ≡ x.carrier)
    × (y.tracking_no ≡ x.tracking_no)

-- Each shipment of `s` is in `t` too, and not behind; the orders are the same.
abbrev pub Advances : OrdersDb → OrdersDb → Type 0
Advances s t =
    (t.orders ≡ s.orders)
    × ((id : ℕ) (x : Shipment)
        → find_shipment id s.shipments ≡ some x
        → (y : Shipment) × (find_shipment id t.shipments ≡ some y) × IsAhead x y)

Advances-refl : (s : OrdersDb) → Advances s s
Advances-refl s = (refl, λ id x found. (x, found, (omega arith, refl, refl, refl)))

Advances-trans : (s t u : OrdersDb) → Advances s t → Advances t u → Advances s u
Advances-trans s t u (same, f) (same', g) = (
  same' ∙ same,
  λ id x found.
      let (y, there, (up, e, e', e'')) = f id x found in
      let (z, there', (up', d, d', d'')) = g id y there in
      (z, there', (omega arith, d ∙ e, d' ∙ e', d'' ∙ e'')),
)

module _ (env : Env) where
  abbrev moved : ShipmentStatus → Shipment → Shipment
  moved to z = record z { status = to; created_at = env.now }

  -- One shipment moves from `from` to `to`.
  moved-Advances :
      (id : ℕ) (from to : ShipmentStatus) (s : OrdersDb) (z : Shipment)
      → shipment_rank from ≤ shipment_rank to
      → find_shipment id s.shipments ≡ some z
      → shipment_rank z.status ≡ shipment_rank from
      → Advances s (record s { shipments = replace_shipment (moved to z) s.shipments })
  moved-Advances id from to s z up found was = (
    refl,
    λ j x at.
        let at_z : find_shipment z.id s.shipments ≡ some z =
          subst (λ i. find_shipment i s.shipments ≡ some z)
            (sym (find_shipment-id id s.shipments z found)) found in
        let read = find_shipment-replace_shipment j (moved to z) z s.shipments at_z in
        elim (Bool-cases (z.id == j)) [
          | inl same ↦
              (let here =
                  subst (λ i. find_shipment i s.shipments ≡ some z) ((==_iff z.id j).0 same) at_z in
                let e : z ≡ x = cc in
                (
                  moved to z,
                  ground (arith, read, same),
                  subst (λ q. IsAhead q (moved to z)) e (omega arith, refl, refl, refl),
                ))
          | inr other ↦ (x, ground (arith, read, at, other), (omega arith, refl, refl, refl))
        ],
  )

  advance_status-Advances :
      (id : ℕ) (from to : ShipmentStatus) (s : OrdersDb)
      → shipment_rank from ≤ shipment_rank to
      → Advances s (advance_status env id from to s).1
  unfolding advance_status
  advance_status-Advances id from to s up = elim (Option-cases (find_shipment id s.shipments)) [
    | inl miss ↦ rw miss (Advances-refl s)
    | inr (z, found) ↦ elim (Bool-cases (shipment_rank z.status == shipment_rank from)) [
      | inl was ↦ rw found (
          rw was (
            moved-Advances id from to s z up found
              ((==_iff (shipment_rank z.status) (shipment_rank from)).0 was)))
      | inr other ↦ rw found (rw other (Advances-refl s))
    ]
  ]

  advance_one-Advances :
      (x : Shipment) (st : ShipmentStatus) (n : ℕ) (s : OrdersDb)
      → x.status ≡ st
      → Advances s (advance_one env x (next_status st) n s).1
  advance_one-Advances x ShipmentStatus.preparing n s is =
      and_then-keeps (Advances s) (advance_status env x.id x.status ShipmentStatus.dispatched s)
        (λ updated. pure (count_updated n updated))
        (advance_status-Advances x.id x.status ShipmentStatus.dispatched s (rw is (omega arith)))
        (λ _ _ h. h)
  advance_one-Advances x ShipmentStatus.dispatched n s is =
      and_then-keeps (Advances s) (advance_status env x.id x.status ShipmentStatus.delivered s)
        (λ updated. pure (count_updated n updated))
        (advance_status-Advances x.id x.status ShipmentStatus.delivered s (rw is (omega arith)))
        (λ _ _ h. h)
  advance_one-Advances x ShipmentStatus.delivered n s is = Advances-refl s

  advance_each-Advances :
      (xs : List Shipment) (n : ℕ) (s : OrdersDb) → Advances s (advance_each env xs n s).1
  unfolding advance_each
  advance_each-Advances [] n s = Advances-refl s
  advance_each-Advances (x ∷ xs) n s =
      and_then-keeps (Advances s) (advance_one env x (next_status x.status) n s)
        (advance_each env xs) (advance_one-Advances x x.status n s refl)
        (λ m t h. Advances-trans s t (advance_each env xs m t).1 h (advance_each-Advances xs m t))

  -- A run of the shipment progress job loses no shipment and moves none backwards, keeps each one's
  -- order, carrier and tracking number, and leaves the orders alone.
  pub run_shipment_progress_tick-Advances :
      (s : OrdersDb) → Advances s (run_shipment_progress_tick env s).1
  unfolding run_shipment_progress_tick list_ready_to_advance
  run_shipment_progress_tick-Advances s = advance_each-Advances _ 0 s
