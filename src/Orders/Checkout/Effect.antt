-- ===== src/Orders/Checkout/Effect.antt =====
-- What a checkout reserves and orders.
use mathlib.Core.Path.{subst}
use mallbyte_api.Common.{
  ℕ, ◌+◌, ◌≡◌, refl, ap, ◌∙◌, inl, inr, some, List, [], ◌∷◌, ◌++◌, arith, Option-cases, pos, ok,
  Result-cases,
}
use mallbyte_api.Inventory.Stock.{Stock, reserve, with_stock}
use mallbyte_api.Inventory.Stock.Table.{AllSound, with_stock-AllSound}
use mallbyte_api.Inventory.Stock.Reservation.{reserve-IsSound}
use mallbyte_api.Inventory.Movement.{Ledger}
use mallbyte_api.Inventory.Movement.Effect.{quantity_at, reserved_at}
use mallbyte_api.Inventory.Place.{with_stock-quantity, with_stock-reserve, reserve-KeepsTotal}
use mallbyte_api.Market.Row.{CartItem, OrderItem}
use mallbyte_api.Market.State.{Market}
use mallbyte_api.Discounts.{cart_subtotal, total_price}
use mallbyte_api.Orders.Query.{items_of}
use mallbyte_api.Payments.Complete.Sale.{taken_by}
use mallbyte_api.Orders.Checkout.{first_available, new_item, order_item, order_items}

items_of-append :
    (order : ℕ) (xs ys : List (ℕ × OrderItem))
    → items_of order (xs ++ ys) ≡ items_of order xs ++ items_of order ys
unfolding items_of
items_of-append order [] ys = refl
items_of-append order ((k, i) ∷ xs) ys = ground (arith, items_of-append order xs ys)

items_of_one :
    (order k : ℕ) (i : OrderItem) → i.order ≡ order → items_of order ((k, i) ∷ []) ≡ i ∷ []
unfolding items_of
items_of_one order k i h = ground arith

taken_by-append :
    (p v : ℕ) (xs ys : List OrderItem) → taken_by p v (xs ++ ys) ≡ taken_by p v xs + taken_by p v ys
taken_by-append p v [] ys = omega arith
taken_by-append p v (i ∷ xs) ys = omega (arith, taken_by-append p v xs ys)

-- The money of the items, and the units of them.
abbrev pub price_of : List OrderItem → ℕ
price_of [] = 0
price_of (i ∷ is) = i.total_price + price_of is

price_of-append : (xs ys : List OrderItem) → price_of (xs ++ ys) ≡ price_of xs + price_of ys
price_of-append [] ys = omega arith
price_of-append (i ∷ xs) ys = omega (arith, price_of-append xs ys)

-- From one state of the loop to a later one: what is reserved more at each place is what the items
-- of the order take there more, and the items cost `cost` more.
pub record Reserves (order cost : ℕ) (db db' : Market) : Type 0 where
  pub totals : (p v : ℕ) → quantity_at p v db'.ledger.stocks ≡ quantity_at p v db.ledger.stocks
  pub reserved :
      (p v : ℕ)
      → reserved_at p v db'.ledger.stocks + taken_by p v (items_of order db.items)
        ≡ reserved_at p v db.ledger.stocks + taken_by p v (items_of order db'.items)
  pub priced : price_of (items_of order db'.items) ≡ price_of (items_of order db.items) + cost
  pub movements : db'.ledger.movements ≡ db.ledger.movements
  pub orders : db'.orders ≡ db.orders
  pub sound : AllSound db.ledger.stocks → AllSound db'.ledger.stocks

module _ (user order : ℕ) where
  order_item_inv :
      (i : CartItem) (db db' : Market)
      → order_item user order i db ≡ ok db'
      → (w : ℕ) × (t : List Stock) × (first_available i.product i.quantity db.active_warehouses
            db.ledger.stocks
          ≡ some w)
        × (with_stock i.product w (reserve (pos i.quantity) (some user)) db.ledger.stocks ≡ ok t)
        × (db'.ledger ≡ record db.ledger { stocks = t })
        × (db'.items ≡ db.items ++ (db.next_key, new_item db.catalog order w i) ∷ [])
        × (db'.orders ≡ db.orders)
  unfolding order_item
  order_item_inv i db db' h =
      elim (Option-cases
        (first_available i.product i.quantity db.active_warehouses db.ledger.stocks)) [
          | inl nowhere ↦ ground arith
          | inr (w, found) ↦
              elim (Result-cases
                (with_stock i.product w (reserve (pos i.quantity) (some user)) db.ledger.stocks)) [
                  | inr (x, raised) ↦ ground arith
                  | inl (t, done) ↦ (w, t, found, done, ground arith, ground arith, ground arith)
                ]
        ]

  order_item-Reserves :
      (i : CartItem) (db db' : Market)
      → order_item user order i db ≡ ok db'
      → Reserves order (total_price i) db db'
  unfolding new_item total_price
  order_item-Reserves i db db' h =
      let (w, t, found, done, ledger, items, orders) = order_item_inv i db db' h in
      let new = new_item db.catalog order w i in
      let more : items_of order db'.items ≡ items_of order db.items ++ new ∷ [] =
        ap (items_of order) items
        ∙ items_of-append order db.items ((db.next_key, new) ∷ [])
        ∙ ap (λ l. items_of order db.items ++ l) (items_of_one order db.next_key new refl) in
      record {
        totals = λ p v. rw ledger (
            with_stock-quantity i.product w (reserve (pos i.quantity) (some user)) db.ledger.stocks
              t (reserve-KeepsTotal (pos i.quantity) (some user)) done p v);
        reserved = λ p v.
            rw (ledger, more)
              (ground (
                arith,
                with_stock-reserve i.product w i.quantity (some user) db.ledger.stocks t done p v,
                taken_by-append p v (items_of order db.items) (new ∷ []),
              ));
        priced = rw more (omega (arith, price_of-append (items_of order db.items) (new ∷ [])));
        movements = ap (λ (l : Ledger). l.movements) ledger;
        orders = orders;
        sound = λ v. rw ledger (
            with_stock-AllSound i.product w (reserve (pos i.quantity) (some user)) db.ledger.stocks
              (reserve-IsSound (pos i.quantity) (some user)) v done);
      }

  Reserves-trans :
      (a b : ℕ) (db₁ db₂ db₃ : Market)
      → Reserves order a db₁ db₂
      → Reserves order b db₂ db₃
      → Reserves order (a + b) db₁ db₃
  Reserves-trans a b db₁ db₂ db₃ f g = record {
    totals = λ p v. g.totals p v ∙ f.totals p v;
    reserved = λ p v. omega (arith, f.reserved p v, g.reserved p v);
    priced = omega (arith, f.priced, g.priced);
    movements = g.movements ∙ f.movements;
    orders = g.orders ∙ f.orders;
    sound = λ v. g.sound (f.sound v);
  }

  Reserves-refl : (db : Market) → Reserves order 0 db db
  Reserves-refl db = record {
    totals = λ p v. refl;
    reserved = λ p v. refl;
    priced = omega arith;
    movements = refl;
    orders = refl;
    sound = λ v. v;
  }

  -- The loop over the cart reserves for each item, and prices the items as the cart.
  pub order_items-Reserves :
      (is : List CartItem) (db db' : Market)
      → order_items user order is db ≡ ok db'
      → Reserves order (cart_subtotal is) db db'
  unfolding order_items cart_subtotal
  order_items-Reserves [] db db' h =
      let same : db ≡ db' = ground arith in
      subst (λ d. Reserves order 0 db d) same (Reserves-refl db)
  order_items-Reserves (i ∷ is) db db' h = elim (Result-cases (order_item user order i db)) [
    | inr (x, raised) ↦ ground arith
    | inl (db₁, done) ↦
        Reserves-trans (total_price i) (cart_subtotal is) db db₁ db'
          (order_item-Reserves i db db₁ done) (order_items-Reserves is db₁ db' (ground arith))
  ]
