-- ===== src/Orders/Cart/Kept.antt =====
-- What every change of a cart keeps.
use mathlib.Core.Path.{subst}
use mallbyte_api.Common.Table.{save, save-AllRows}
use mallbyte_api.Common.{
  ℕ, ◌≡◌, refl, sym, inl, inr, List, [], ℤ, ok, arith, Option-cases, Result-cases,
}
use mallbyte_api.Market.Row.{CartItem}
use mallbyte_api.Market.State.{Market}
use mallbyte_api.Orders.Cart.{
  Listing, get_cart, find_item, save_item, delete_item, check_quantity, check_stock, add_item,
  update_item, remove_item, clear_cart,
}
use mallbyte_api.Orders.Cart.Item.{IsCart, save_item-IsCart, delete_item-IsCart, added_effect}
use mallbyte_api.Orders.Cart.Adding.{
  AreCarts, cart_of, get_cart-AreCarts, check_quantity-ok, check_stock-ok, adding,
}

-- One change of a cart that succeeds.
pub data Step (listings : ℕ → Listing) (db : Market) : Market → Type 0 where
  adding_item :
      {db' : Market} (user product : ℕ) (quantity : ℤ)
      → add_item listings user product quantity db ≡ ok db'
      → Step listings db db'
  updating_item :
      {db' : Market} (user product : ℕ) (quantity : ℤ)
      → update_item listings user product quantity db ≡ ok db'
      → Step listings db db'
  removing_item :
      {db' : Market} (user product : ℕ)
      → remove_item user product db ≡ ok db'
      → Step listings db db'
  clearing : (user : ℕ) → Step listings db (clear_cart user db)

stored-AreCarts :
    (user : ℕ) (db db' : Market) (items : List CartItem)
    → AreCarts db
    → IsCart items
    → db' ≡ record (get_cart user db).1 { carts = save user items (get_cart user db).1.carts }
    → AreCarts db'
stored-AreCarts user db db' items v w e =
    subst AreCarts (sym e)
      (save-AllRows IsCart user items (get_cart user db).1.carts (get_cart-AreCarts user db v).1 w)

update_item-ok :
    (listings : ℕ → Listing) (user product : ℕ) (quantity : ℤ) (db db' : Market)
    → update_item listings user product quantity db ≡ ok db'
    → (n : ℕ) × (check_quantity quantity ≡ ok n)
      × (db' ≡ record (get_cart user db).1 {
        carts =
            save user
              (save_item
                (record {
                  product = product;
                  quantity = n;
                  unit_price = (listings product).final_price;
                })
                (cart_of user db))
              (get_cart user db).1.carts;
      })
unfolding update_item
update_item-ok listings user product quantity db db' h =
    elim (Option-cases (find_item product (cart_of user db))) [
      | inl missing ↦ ground arith
      | inr (i, found) ↦ elim (Result-cases (check_quantity quantity)) [
        | inr (failure, bad) ↦ ground arith
        | inl (n, amount) ↦ elim (Result-cases (check_stock product n db.ledger.stocks)) [
          | inr (failure, bad) ↦ ground arith
          | inl (done, stock) ↦ (n, amount, ground arith)
        ]
      ]
    ]

remove_item-ok :
    (user product : ℕ) (db db' : Market)
    → remove_item user product db ≡ ok db'
    → db' ≡ record (get_cart user db).1 {
      carts = save user (delete_item product (cart_of user db)) (get_cart user db).1.carts;
    }
unfolding remove_item
remove_item-ok user product db db' h = elim (Option-cases (find_item product (cart_of user db))) [
  | inl missing ↦ ground arith
  | inr (i, found) ↦ ground arith
]

-- Every change of a cart, adding a product, changing a quantity, removing a product and clearing,
-- keeps the carts in order: each product stands in a cart once, with a positive quantity.
pub Step-AreCarts :
    (listings : ℕ → Listing) (db db' : Market) → AreCarts db → Step listings db db' → AreCarts db'
unfolding clear_cart
Step-AreCarts listings db db' v (adding_item user product quantity h) =
    let a = adding listings user product quantity db db' h in
    let (same, some_of) = check_quantity-ok quantity a.n a.amount in
    let (m, sum, there, covered, others, cart) =
      added_effect product a.n a.price db.ledger.stocks (cart_of user db) a.items some_of
        (check_stock-ok product a.n db.ledger.stocks a.stock) a.placed in
    stored-AreCarts user db db' a.items v (cart (get_cart-AreCarts user db v).0) a.stored
Step-AreCarts listings db db' v (updating_item user product quantity h) =
    let (n, amount, e) = update_item-ok listings user product quantity db db' h in
    let new : CartItem = record {
      product = product;
      quantity = n;
      unit_price = (listings product).final_price;
    } in
    stored-AreCarts user db db' (save_item new (cart_of user db)) v
      (save_item-IsCart new (cart_of user db) (check_quantity-ok quantity n amount).1
        (get_cart-AreCarts user db v).0)
      e
Step-AreCarts listings db db' v (removing_item user product h) =
    stored-AreCarts user db db' (delete_item product (cart_of user db)) v
      (delete_item-IsCart product (cart_of user db) (get_cart-AreCarts user db v).0)
      (remove_item-ok user product db db' h)
Step-AreCarts listings db db' v (clearing user) = stored-AreCarts user db db' [] v tt refl
