-- ===== src/Orders/Placed.antt =====
-- The whole of `placeOrder`, from the request to the order that it leaves.
use atlas_commerce.Prelude.{
  arith, ℕ, suc, ◌≡◌, refl, subst, ◌∙◌, ◌⊎◌, inl, inr, none, List, [], ◌∷◌, ◌++◌, map, length,
  ==_refl, Option-cases,
}
use atlas_commerce.Shared.Tx.{
  Action, Result, ok, err, ◌>>=◌, ◌>>◌, pure, and_then, on_first, on_second,
}
use atlas_commerce.Shared.Post.{Holds, Holds-and_then}
use atlas_commerce.Orders.Types.{
  OrderStatus, Customer, OrderRow, Order, OrdersDb, LineInput, PlaceOrderInput, PricedLine, Env,
}
use atlas_commerce.Orders.Repository.{
  item_of, find_order, load_order, find_by_id, find_by_id_or_throw, find_customer, CreateOrderInput,
  create_pending,
}
use atlas_commerce.Orders.Clients.{Apis, Price, get_product, get_price}
use atlas_commerce.Orders.Place.{
  validate_order_lines, price_each, price_lines, calculate_subtotal, place_created, place_order,
}
use atlas_commerce.Orders.Rows.{RowIs}
use atlas_commerce.Orders.Attempt.{IsPending, IsConfirmed}
use atlas_commerce.Orders.Settled.{IsFailed, Settles, place_created-Settles}

abbrev new_row : Env → CreateOrderInput → OrderRow
new_row env i = record {
  id = i.id;
  customer_id = i.customer_id;
  status = OrderStatus.pending;
  currency = i.currency;
  subtotal_cents = i.subtotal_cents;
  total_cents = i.total_cents;
  reservation_id = none;
  payment_intent_id = none;
  placed_at = env.now;
  updated_at = env.now;
}

-- The new order's row can be read and is pending.
create_pending-RowIs :
    (env : Env) (i : CreateOrderInput) (s : OrdersDb)
    → (o : Order) × (t : OrdersDb) × (create_pending env i s ≡ (ok o, t)) × RowIs i.id IsPending t
unfolding create_pending find_by_id_or_throw find_by_id find_order
create_pending-RowIs env i s =
    let t : OrdersDb = record s {
      orders = new_row env i ∷ s.orders;
      items = map (item_of i.id) i.items ++ s.items;
    } in
    (
      load_order (new_row env i) t,
      t,
      rw (==_refl i.id) refl,
      (new_row env i, rw (==_refl i.id) refl, refl),
    )

module _ {R : Type 0} (apis : Apis R) (env : Env) where
  abbrev priced : ℕ → LineInput → Price → PricedLine
  priced k l price = record {
    id = env.new_id k;
    product_id = l.product_id;
    qty = l.qty;
    unit_price_cents = price.unit_price_cents;
    line_total_cents = price.line_total_cents;
  }

  -- Pricing leaves the orders alone and prices each line.
  abbrev Prices : OrdersDb → List LineInput → Result (List PricedLine) × (OrdersDb × R) → Type 0
  Prices db ls = Holds (λ lines u. (u.0 ≡ db) × (length lines ≡ length ls)) (λ _ u. u.0 ≡ db)

  remote-keeps :
      {A : Type 0} (db : OrdersDb) (x : Result A × R)
      → Holds {S = OrdersDb × R} (λ _ u. u.0 ≡ db) (λ _ u. u.0 ≡ db) (x.0, (db, x.1))
  remote-keeps db (ok a, u) = refl
  remote-keeps db (err e, u) = refl

  -- The rest of a round, after the product was found.
  price_one :
      (k : ℕ) (c : Customer) (l : LineInput) (ls : List LineInput) (u : OrdersDb × R)
      (db : OrdersDb)
      → u.0 ≡ db
      → ((v : OrdersDb × R) → Prices v.0 ls (price_each apis env (suc k) c ls v))
      → Prices db (l ∷ ls) (
          and_then (on_second (get_price apis l.product_id c.tier c.currency l.qty) u) (λ price.
            price_each apis env (suc k) c ls >>= (λ rest. pure (priced k l price ∷ rest))))
  price_one k c l ls u db h ih = go_price (get_price apis l.product_id c.tier c.currency l.qty u.1)
    where
      go_rest :
          (price : Price) (v : OrdersDb × R) (x : Result (List PricedLine) × (OrdersDb × R))
          → v.0 ≡ db
          → Prices v.0 ls x
          → Prices db (l ∷ ls) (and_then x (λ rest. pure (priced k l price ∷ rest)))
      go_rest price v (ok rest, x) e (same, n) = (same ∙ e, omega (arith, n))
      go_rest price v (err _, x) e same = same ∙ e

      go_price :
          (x : Result Price × R)
          → Prices db (l ∷ ls) (
              and_then {S = OrdersDb × R}
                (x.0, (u.0, x.1))
                (λ price.
                  price_each apis env (suc k) c ls >>= (λ rest. pure (priced k l price ∷ rest))))
      go_price (ok price, r) =
          go_rest price (u.0, r) (price_each apis env (suc k) c ls (u.0, r)) h (ih (u.0, r))
      go_price (err e, r) = h

  price_each-Prices :
      (k : ℕ) (c : Customer) (ls : List LineInput) (w : OrdersDb × R)
      → Prices w.0 ls (price_each apis env k c ls w)
  unfolding price_each
  price_each-Prices k c [] w = (refl, refl)
  price_each-Prices k c (l ∷ ls) w =
      Holds-and_then (λ _ u. u.0 ≡ w.0) (λ lines u. (u.0 ≡ w.0) × (length lines ≡ length (l ∷ ls)))
        (λ _ u. u.0 ≡ w.0) (on_second (get_product apis l.product_id) w)
        (λ _. on_second (get_price apis l.product_id c.tier c.currency l.qty) >>= (λ price.
          price_each apis env (suc k) c ls >>= (λ rest. pure (priced k l price ∷ rest))))
        (remote-keeps w.0 (get_product apis l.product_id w.1))
        (λ _ u h. price_one k c l ls u w.0 h (price_each-Prices (suc k) c ls))

  -- What a placement of `n` lines may leave: the new order confirmed, and then it is the answer, or
  -- an error with the orders as they were or with the new order failed. Its id is drawn after those
  -- of its lines.
  abbrev pub Places : ℕ → OrdersDb × R → Result Order × (OrdersDb × R) → Type 0
  Places n w =
      Holds
        (λ o u.
          RowIs (env.new_id n) (IsConfirmed (λ _. Unit {0})) u.0
          × IsConfirmed (λ _. Unit {0}) o.row)
        (λ _ u. (u.0 ≡ w.0) ⊎ RowIs (env.new_id n) IsFailed u.0)

  -- From the priced lines on.
  abbrev create_and_place : Customer → List PricedLine → Action (OrdersDb × R) Order
  create_and_place c lines =
      on_first (
        create_pending env (record {
          id = env.new_id (length lines);
          customer_id = c.id;
          currency = c.currency;
          subtotal_cents = calculate_subtotal lines;
          total_cents = calculate_subtotal lines;
          items = lines;
        }))
      >> place_created apis env (env.new_id (length lines)) c lines

  Settles-Places :
      (n : ℕ) (w : OrdersDb × R) (x : Result Order × (OrdersDb × R))
      → Settles (env.new_id n) (λ _ _. Unit {0}) x
      → Places n w x
  Settles-Places n w (ok o, u) h = h
  Settles-Places n w (err e, u) h = inr h

  create_and_place-Places :
      (c : Customer) (lines : List PricedLine) (w u : OrdersDb × R)
      → Places (length lines) w (create_and_place c lines u)
  create_and_place-Places c lines w u =
      let id = env.new_id (length lines) in
      let i : CreateOrderInput = record {
        id = id;
        customer_id = c.id;
        currency = c.currency;
        subtotal_cents = calculate_subtotal lines;
        total_cents = calculate_subtotal lines;
        items = lines;
      } in
      let (o, t, e, at) = create_pending-RowIs env i u.0 in
      rw e (
        Settles-Places (length lines) w (place_created apis env id c lines (t, u.1))
          (place_created-Settles apis env id c lines (t, u.1) at))

  priced-Places :
      (c : Customer) (ls : List LineInput) (w : OrdersDb × R)
      (x : Result (List PricedLine) × (OrdersDb × R))
      → Prices w.0 ls x
      → Places (length ls) w (and_then x (create_and_place c))
  priced-Places c ls w (ok lines, u) (same, n) =
      subst (λ n. Places n w (create_and_place c lines u)) n (create_and_place-Places c lines w u)
  priced-Places c ls w (err e, u) same = inl same

  validated-Places :
      (c : Customer) (lines : List LineInput) (w : OrdersDb × R) (x : Result (Unit {0}))
      → Places
          (length lines)
          w
          (and_then (and_then (x, w) (λ _. price_each apis env 0 c lines)) (create_and_place c))
  validated-Places c lines w (ok _) =
      priced-Places c lines w (price_each apis env 0 c lines w) (price_each-Prices 0 c lines w)
  validated-Places c lines w (err e) = inl refl

  -- Placing an order, whatever the other services answer: the call returns an order that is
  -- confirmed with a reservation and a payment intent, and so is the new order's row; or it throws,
  -- and then the orders are as they were or the new order's row is failed.
  pub place_order-Places :
      (input : PlaceOrderInput) (w : OrdersDb × R)
      → Places (length input.lines) w (place_order apis env input w)
  unfolding place_order price_lines
  place_order-Places input w = elim (Option-cases (find_customer input.customer_id w.0.customers)) [
    | inl miss ↦ rw miss (inl refl)
    | inr (c, found) ↦
        rw found (validated-Places c input.lines w (validate_order_lines input.lines))
  ]
