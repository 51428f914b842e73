-- ===== src/Orders/Rows.antt =====
-- Reading and updating the row of one order, and the calls that leave it alone.
use atlas_commerce.Prelude.{
  ℕ, ◌≡◌, sym, subst, ◌∙◌, true, some, List, [], ◌∷◌, arith, ◌==◌, if◌then◌else◌,
}
use atlas_commerce.Shared.Tx.{Action, Result, ok, err, on_first, on_second}
use atlas_commerce.Shared.Post.{Ensures, Holds}
use atlas_commerce.Orders.Types.{OrderStatus, OrderRow, Order, OrdersDb, is_in}
use atlas_commerce.Orders.Repository.{find_order, replace_order, update_order, load_order}

pub find_order-replace_order :
    (j : ℕ) (r old : OrderRow) (rs : List OrderRow)
    → find_order r.id rs ≡ some old
    → find_order j (replace_order r rs) ≡ (if r.id == j then some r else find_order j rs)
unfolding find_order replace_order
find_order-replace_order j r old [] h = cc
find_order-replace_order j r old (x ∷ rs) h = ground (arith, find_order-replace_order j r old rs)

pub find_order-id :
    (id : ℕ) (rs : List OrderRow) (r : OrderRow) → find_order id rs ≡ some r → r.id ≡ id
unfolding find_order
find_order-id id [] r h = cc
find_order-id id (x ∷ rs) r h = ground (arith, find_order-id id rs r)

-- Reading the row that was written.
pub find_order-written :
    (id : ℕ) (r old : OrderRow) (rs : List OrderRow)
    → find_order id rs ≡ some old
    → r.id ≡ id
    → find_order id (replace_order r rs) ≡ some r
find_order-written id r old rs h e =
    let there = subst (λ x. find_order x rs ≡ some old) (sym e) h in
    ground (arith, find_order-replace_order id r old rs there, e)

pub update_order_hit :
    (id : ℕ) (f : OrderRow → OrderRow) (allowed : List OrderStatus) (s : OrdersDb) (r : OrderRow)
    → find_order id s.orders ≡ some r
    → is_in r.status allowed ≡ true
    → update_order id f allowed s
      ≡ (ok (load_order (f r) s), record s { orders = replace_order (f r) s.orders })
unfolding update_order
update_order_hit id f allowed s r found fits = rw (found, fits)

module _ (id : ℕ) where
  -- The row of the order is there and satisfies `P`.
  abbrev pub RowIs : (OrderRow → Type 0) → OrdersDb → Type 0
  RowIs P s = (r : OrderRow) × (find_order id s.orders ≡ some r) × P r

  -- An update by status goes through when the row has an allowed status.
  pub update_order-RowIs :
      (P Q : OrderRow → Type 0) (f : OrderRow → OrderRow) (allowed : List OrderStatus)
      (s : OrdersDb)
      → ((r : OrderRow) → P r → is_in r.status allowed ≡ true)
      → ((r : OrderRow) → (f r).id ≡ r.id)
      → ((r : OrderRow) → P r → Q (f r))
      → RowIs P s
      → (o : Order) × (t : OrdersDb) × (update_order id f allowed s ≡ (ok o, t))
        × RowIs Q t
        × (Q o.row)
  unfolding load_order
  update_order-RowIs P Q f allowed s fits keep step (r, found, p) = (
    load_order (f r) s,
    record s { orders = replace_order (f r) s.orders },
    update_order_hit id f allowed s r found (fits r p),
    (
      f r,
      find_order-written id (f r) r s.orders found (keep r ∙ find_order-id id s.orders r found),
      step r p,
    ),
    step r p,
  )

  module _ {R C : Type 0} where
    abbrev pub Rows : {A : Type 0} → (OrderRow → Type 0) → A → (OrdersDb × R) × C → Type 0
    Rows P _ t = RowIs P t.0.0

    -- A call of another service leaves the orders alone.
    pub remote-Holds :
        {A : Type 0} (P E : OrderRow → Type 0) (m : Action R A) (t : (OrdersDb × R) × C)
        → ((r : OrderRow) → P r → E r)
        → RowIs P t.0.0
        → Holds (Rows P) (Rows E) (on_first (on_second m) t)
    remote-Holds {A} P E m t weaken p = go (m t.0.1)
      where
        go : (x : Result A × R) → Holds (Rows P) (Rows E) (x.0, ((t.0.0, x.1), t.1))
        go (ok a, u) = p
        go (err e, u) = (p.0, p.1, weaken p.0 p.2)

    pub update-Holds :
        (P Q E : OrderRow → Type 0) (f : OrderRow → OrderRow) (allowed : List OrderStatus)
        (t : (OrdersDb × R) × C)
        → ((r : OrderRow) → P r → is_in r.status allowed ≡ true)
        → ((r : OrderRow) → (f r).id ≡ r.id)
        → ((r : OrderRow) → P r → Q (f r))
        → RowIs P t.0.0
        → Holds
            (λ o u. RowIs Q u.0.0 × Q o.row)
            (Rows E)
            (on_first (on_first (update_order id f allowed)) t)
    update-Holds P Q E f allowed t fits keep step h =
        let (o, u, e, at, row) = update_order-RowIs P Q f allowed t.0.0 fits keep step h in
        rw e (at, row)

    -- A call that guarantees `K` of the rest of the system when it returns.
    pub remote-Holds_with :
        {A : Type 0} (K : R → Type 0) (P E : OrderRow → Type 0) (m : Action R A)
        (t : (OrdersDb × R) × C)
        → ((r : OrderRow) → P r → E r)
        → Ensures (λ _ v. K v) (m t.0.1)
        → RowIs P t.0.0
        → Holds (λ _ u. RowIs P u.0.0 × K u.0.1) (Rows E) (on_first (on_second m) t)
    remote-Holds_with {A} K P E m t weaken k p = go (m t.0.1) k
      where
        go :
            (x : Result A × R)
            → Ensures (λ _ v. K v) x
            → Holds (λ _ u. RowIs P u.0.0 × K u.0.1) (Rows E) (x.0, ((t.0.0, x.1), t.1))
        go (ok a, u) k = (p, k)
        go (err e, u) k = (p.0, p.1, weaken p.0 p.2)
