-- ===== src/Orders/Cart/Adding.antt =====
-- What adding a product to a cart does.
use mathlib.Core.Path.{subst}
use mallbyte_api.Common.Table.{lookup, save, AllRows, lookup-AllRows, lookup-save_self}
use mallbyte_api.Common.{
  ℕ, ◌+◌, ◌<◌, ◌≡◌, ◌≢◌, ap, sym, ◌∙◌, inl, inr, true, none, some, List, [], ◌∷◌, ℤ, pos, ◌≤ℤ◌, ok,
  arith, Option-cases, Result-cases,
}
use mallbyte_api.Inventory.Stock.{Stock}
use mallbyte_api.Market.Row.{CartItem}
use mallbyte_api.Market.State.{Market}
use mallbyte_api.Orders.Checkout.{available_stock}
use mallbyte_api.Orders.Cart.{
  Listing, get_cart, find_item, check_quantity, check_stock, check_listing, added, add_item,
}
use mallbyte_api.Orders.Cart.Item.{IsCart, quantity_of, added_effect}

abbrev pub AreCarts : Market → Type 0
AreCarts db = AllRows IsCart db.carts

abbrev pub cart_of : ℕ → Market → List CartItem
cart_of user db = (get_cart user db).0

get_cart-missing :
    (user : ℕ) (db : Market)
    → lookup user db.carts ≡ none
    → get_cart user db ≡ ([], record db { carts = (user, []) ∷ db.carts })
unfolding get_cart
get_cart-missing user db e = ground arith

get_cart-found :
    (user : ℕ) (db : Market) (cart : List CartItem)
    → lookup user db.carts ≡ some cart
    → get_cart user db ≡ (cart, db)
unfolding get_cart
get_cart-found user db cart e = ground arith

pub get_cart-AreCarts :
    (user : ℕ) (db : Market)
    → AreCarts db
    → IsCart (cart_of user db) × AreCarts (get_cart user db).1
get_cart-AreCarts user db v = elim (Option-cases (lookup user db.carts)) [
  | inl missing ↦
      subst (λ g. IsCart g.0 × AreCarts g.1) (sym (get_cart-missing user db missing)) (tt, (tt, v))
  | inr (cart, found) ↦
      subst (λ g. IsCart g.0 × AreCarts g.1) (sym (get_cart-found user db cart found))
        (lookup-AllRows IsCart user cart db.carts v found, v)
]

get_cart-stored :
    (user : ℕ) (db : Market) → lookup user (get_cart user db).1.carts ≡ some (cart_of user db)
get_cart-stored user db = elim (Option-cases (lookup user db.carts)) [
  | inl missing ↦
      subst (λ g. lookup user g.1.carts ≡ some g.0) (sym (get_cart-missing user db missing))
        (ground arith)
  | inr (cart, found) ↦
      subst (λ g. lookup user g.1.carts ≡ some g.0) (sym (get_cart-found user db cart found)) found
]

pub check_quantity-ok : (a : ℤ) (n : ℕ) → check_quantity a ≡ ok n → (a ≡ pos n) × (0 < n)
unfolding check_quantity
check_quantity-ok a n h = ground arith

check_listing-ok :
    (l : Listing) (price : ℕ)
    → check_listing l ≡ ok price
    → (l.is_active ≡ true) × (l.is_approved ≡ true) × (price ≡ l.final_price)
unfolding check_listing
check_listing-ok l price h = ground arith

pub check_stock-ok :
    (product n : ℕ) (stocks : List Stock)
    → check_stock product n stocks ≡ ok tt
    → pos n ≤ℤ available_stock product stocks
unfolding check_stock
check_stock-ok product n stocks h = ground arith

module _ (listings : ℕ → Listing) (user product : ℕ) (quantity : ℤ) (db db' : Market) where
  pub record Adding : Type 0 where
    pub price : ℕ
    listed : check_listing (listings product) ≡ ok price
    pub n : ℕ
    pub amount : check_quantity quantity ≡ ok n
    pub stock : check_stock product n db.ledger.stocks ≡ ok tt
    pub items : List CartItem
    pub placed : added product n price db.ledger.stocks (cart_of user db) ≡ ok items
    pub stored :
        db' ≡ record (get_cart user db).1 { carts = save user items (get_cart user db).1.carts }

  pub adding : add_item listings user product quantity db ≡ ok db' → Adding
  unfolding add_item
  adding h = elim (Result-cases (check_listing (listings product))) [
    | inr (failure, bad) ↦ ground arith
    | inl (price, listed) ↦ elim (Result-cases (check_quantity quantity)) [
      | inr (failure, bad) ↦ ground arith
      | inl (n, amount) ↦ elim (Result-cases (check_stock product n db.ledger.stocks)) [
        | inr (failure, bad) ↦ ground arith
        | inl (done, stock) ↦
            elim (Result-cases (added product n price db.ledger.stocks (cart_of user db))) [
              | inr (failure, bad) ↦ ground arith
              | inl (items, placed) ↦ record {
                price = price;
                listed = listed;
                n = n;
                amount = amount;
                stock = stock;
                items = items;
                placed = placed;
                stored = ground arith;
              }
            ]
      ]
    ]
  ]

-- A product that is added to a cart is active and approved, and it then stands in the user's cart
-- with the quantity that it had there and the one that was asked for together, which the available
-- stock covers, at the present price; the other products of the cart stay as they are.
pub add_item_effect :
    (listings : ℕ → Listing) (user product : ℕ) (quantity : ℤ) (db db' : Market)
    → add_item listings user product quantity db ≡ ok db'
    → (n : ℕ) × (m : ℕ) × (quantity ≡ pos n)
      × (m ≡ n + quantity_of product (cart_of user db))
      × (pos m ≤ℤ available_stock product db.ledger.stocks)
      × (items : List CartItem) × (lookup user db'.carts ≡ some items)
      × (find_item product items
          ≡ some (record {
            product = product;
            quantity = m;
            unit_price = (listings product).final_price;
          }))
      × ((other : ℕ) → other ≢ product → find_item other items ≡ find_item other (cart_of user db))
      × ((listings product).is_active ≡ true)
      × ((listings product).is_approved ≡ true)
add_item_effect listings user product quantity db db' h =
    let a = adding listings user product quantity db db' h in
    let (same, some_of) = check_quantity-ok quantity a.n a.amount in
    let (m, sum, there, covered, others, cart) =
      added_effect product a.n a.price db.ledger.stocks (cart_of user db) a.items some_of
        (check_stock-ok product a.n db.ledger.stocks a.stock) a.placed in
    let (active, approved, price) = check_listing-ok (listings product) a.price a.listed in
    (
      a.n,
      m,
      same,
      sum,
      covered,
      a.items,
      ap (λ s. lookup user s.carts) a.stored
          ∙ lookup-save_self user a.items (cart_of user db) (get_cart user db).1.carts
              (get_cart-stored user db),
      subst
          (λ n.
            find_item product a.items
            ≡ some (record { product = product; quantity = m; unit_price = n }))
          price there,
      others,
      active,
      approved,
    )
