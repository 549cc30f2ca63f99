-- ===== src/Orders/Checkout.antt =====
-- Checkout: `CheckoutSerializer` of apps/orders/serializers.py, with
-- `SETTLEMENTS_LEDGER_ENABLED` off, as it is by default.
pub mod Effect
pub mod Placed
use Prim.Native.String.{String}
use text.Mathlib.Text.{◌==◌ as str_eq}
use mallbyte_api.Common.Account.{User}
use mallbyte_api.Common.Table.{lookup, save}
use mallbyte_api.Common.{
  ℕ, zero, suc, ◌+◌, ◌-◌, ◌*◌, ◌/◌, ◌%◌, ◌≤◌, ◌<◌, min, ◌≡◌, refl, sym, ap, ◌∙◌, ◌≢◌, ◌↔◌, ◌⊎◌, inl,
  inr, Bool, true, false, not, ◌&&◌, ◌||◌, Option, none, some, List, [], ◌∷◌, ◌++◌, arith, ltb, leb,
  ◌==◌, if◌then◌else◌, Bool-cases, Option-cases, is_some, is_id, ℤ, pos, negsuc, pos_part, neg_part,
  sub_ℕ, ◌+ℤ◌, ◌-ℤ◌, ◌≤ℤ◌, ltb_ℤ, leb_ℤ, +ℤ_parts, -ℤ_parts, eq_of_parts, int_laws, Result, ok, err,
  ◌>>=◌, ◌>>◌, raise_if, or_raise, map_err, Result-cases,
}
use mallbyte_api.Inventory.Stock.{Stock, available_quantity, reserve, with_stock}
use mallbyte_api.Inventory.Movement.{Ledger}
use mallbyte_api.Market.Row.{
  Product, CartItem, Address, Order, OrderItem, pending_payment, unpaid, SellerOrderFulfillment,
  OrderStatusHistory, Discount,
}
use mallbyte_api.Market.State.{Market}
use mallbyte_api.Discounts.{cart_subtotal, total_price, is_in}
use mallbyte_api.Discounts.Service.{validate_discount_for_cart, apply_discount_to_order}
use mallbyte_api.Orders.Failure.{
  Error, stock_error, discount_invalid, discount_error, does_not_exist, cart_empty,
  not_enough_stock,
}
use mallbyte_api.Orders.Total.{with_total}
use mallbyte_api.Orders.Query.{find_fulfillment}

-- `Product.available_stock`: total less reserved, over all warehouses.
unfoldable pub available_stock : ℕ → List Stock → ℤ
unfolding available_quantity
available_stock p [] = pos 0
available_stock p (s ∷ t) =
    if p == s.product then available_quantity s +ℤ available_stock p t else available_stock p t

-- Whether the stock covers each item of the cart.
unfoldable pub covers : List Stock → List CartItem → Bool
unfolding available_stock
covers stocks [] = true
covers stocks (i ∷ is) =
    not (ltb_ℤ (available_stock i.product stocks) (pos i.quantity)) && covers stocks is

-- `stock.available_quantity >= quantity` in an active warehouse
unfoldable pub fits : ℕ → ℕ → List ℕ → Stock → Bool
unfolding available_quantity
fits p n active s =
    (p == s.product) && is_in s.warehouse active && not (ltb_ℤ (available_quantity s) (pos n))

-- The warehouse of the oldest row that has enough; the table has its newest row first.
unfoldable pub first_available : ℕ → ℕ → List ℕ → List Stock → Option ℕ
unfolding fits
first_available p n active [] = none
first_available p n active (s ∷ t) =
    let older = first_available p n active t in
    if is_some older then older else if fits p n active s then some s.warehouse else none

unfoldable pub new_item : (ℕ → Product) → ℕ → ℕ → CartItem → OrderItem
new_item catalog order w i = record {
  order = order;
  product = i.product;
  warehouse = some w;
  product_name = (catalog i.product).name;
  product_sku = (catalog i.product).sku;
  quantity = i.quantity;
  unit_price = i.unit_price;
  total_price = i.unit_price * i.quantity;
}

-- `SellerOrderFulfillment.objects.get_or_create`
unfoldable pub add_fulfillment :
    ℕ → ℕ → ℕ → List (ℕ × SellerOrderFulfillment) → List (ℕ × SellerOrderFulfillment)
add_fulfillment key order seller fs = elim (find_fulfillment order seller fs) [
  | some f ↦ fs
  | none ↦ (key, record { order = order; seller = seller; status = pending_payment }) ∷ fs
]

-- One round of the loop over the cart.
unfoldable pub order_item : ℕ → ℕ → CartItem → Market → Result Error Market
order_item user order i db = do
  w ←
      or_raise (first_available i.product i.quantity db.active_warehouses db.ledger.stocks)
        not_enough_stock
  stocks ←
      map_err stock_error
        (with_stock i.product w (reserve (pos i.quantity) (some user)) db.ledger.stocks)
  let ledger : Ledger = record db.ledger { stocks = stocks }
  ok (record db {
    ledger = ledger;
    items = db.items ++ (db.next_key, new_item db.catalog order w i) ∷ [];
    fulfillments =
        add_fulfillment (db.next_key + 1) order (db.catalog i.product).seller db.fulfillments;
    next_key = db.next_key + 2;
  })

unfoldable pub order_items : ℕ → ℕ → List CartItem → Market → Result Error Market
order_items user order [] db = ok db
order_items user order (i ∷ is) db = do
  db' ← order_item user order i db
  order_items user order is db'

abbrev pub is_nil : List CartItem → Bool
is_nil [] = true
is_nil (i ∷ is) = false

-- What the request says.
pub record Request : Type 0 where
  pub address : Address
  pub customer_note : String
  pub discount_code : String
  pub shipping_cost : ℕ

unfoldable pub new_order : String → ℕ → List CartItem → Request → Order
unfolding with_total
new_order number user cart r = with_total (record {
  order_number = number;
  user = user;
  status = pending_payment;
  payment_status = unpaid;
  subtotal = cart_subtotal cart;
  discount_amount = 0;
  shipping_cost = r.shipping_cost;
  tax_amount = 0;
  total_amount = 0;
  address = r.address;
  customer_note = r.customer_note;
  paid_at = none;
  cancelled_at = none;
  delivered_at = none;
})

-- `strip` and `upper` are Python's, `store` is the rounding of a money column.
module _ (strip upper : String → String) (store : ℕ → ℕ) where
  -- The cart and, where the request has a code, the key of its discount.
  unfoldable pub validate : ℕ → User → Request → Market → Result Error (List CartItem × Option ℕ)
  validate now user r db = do
    cart ← or_raise (lookup user.id db.carts) does_not_exist
    raise_if (is_nil cart) cart_empty
    raise_if (not (covers db.ledger.stocks cart)) not_enough_stock
    let code = strip r.discount_code
    elim (str_eq code "") [
      | true ↦ ok (cart, none)
      | false ↦ do
        (discount, d, amount) ←
            map_err discount_invalid
              (validate_discount_for_cart (λ c. upper (strip c)) now code (some user) cart db)
        ok (cart, some discount)
    ]

  unfoldable pub apply_discount :
      ℕ → User → List CartItem → ℕ → Option ℕ → Market → Result Error Market
  apply_discount now user cart order none db = ok db
  apply_discount now user cart order (some discount) db =
      map_err discount_error (apply_discount_to_order store now discount user cart order db)

  -- The key of the new order, and the tables with it.
  unfoldable pub checkout : String → ℕ → User → Request → Market → Result Error (ℕ × Market)
  checkout number now user r db = do
    (cart, discount) ← validate now user r db
    let order = db.next_key
    let db₁ : Market = record db {
      orders = (order, new_order number user.id cart r) ∷ db.orders;
      next_key = order + 1;
    }
    db₂ ← order_items user.id order cart db₁
    db₃ ← apply_discount now user cart order discount db₂
    let entry : OrderStatusHistory = record {
      order = order;
      old_status = none;
      new_status = pending_payment;
      changed_by = some user.id;
    }
    ok (
      order,
      record db₃ { order_history = entry ∷ db₃.order_history; carts = save user.id [] db₃.carts },
    )
