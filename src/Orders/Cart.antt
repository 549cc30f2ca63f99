-- ===== src/Orders/Cart.antt =====
-- The cart of a user: `CartViewSet` of apps/orders/views.py and its serializers.
pub mod Item
pub mod Adding
pub mod Kept
use mallbyte_api.Common.Table.{lookup, save}
use mallbyte_api.Common.{
  ℕ, ◌+◌, Bool, true, false, not, Option, none, some, List, [], ◌∷◌, ◌==◌, if◌then◌else◌, is_some,
  ℤ, pos, negsuc, ltb_ℤ, Result, ok, err, ◌>>=◌, ◌>>◌, raise_if, or_raise,
}
use mallbyte_api.Inventory.Stock.{Stock}
use mallbyte_api.Market.Row.{CartItem}
use mallbyte_api.Market.State.{Market}
use mallbyte_api.Orders.Checkout.{available_stock}

-- What the cart reads of a product besides its stock; a product that is not there is not active.
pub record Listing : Type 0 where
  pub is_active : Bool
  pub is_approved : Bool
  pub final_price : ℕ

pub data Error : Type 0 where
  no_product not_approved bad_quantity not_enough not_found : Error

-- `get_cart`: the cart of the user, which is made where there is none. The empty cart that a refused
-- call may leave behind is not kept: to every call it is as no cart.
unfoldable pub get_cart : ℕ → Market → List CartItem × Market
get_cart user db = elim (lookup user db.carts) [
  | some cart ↦ (cart, db)
  | none ↦ ([], record db { carts = (user, []) ∷ db.carts })
]

-- The item of a product in a cart, which is unique.
unfoldable pub find_item : ℕ → List CartItem → Option CartItem
find_item product [] = none
find_item product (i ∷ is) = if i.product == product then some i else find_item product is

unfoldable pub save_item : CartItem → List CartItem → List CartItem
save_item new [] = []
save_item new (i ∷ is) = if i.product == new.product then new ∷ is else i ∷ save_item new is

unfoldable pub delete_item : ℕ → List CartItem → List CartItem
delete_item product [] = []
delete_item product (i ∷ is) = if i.product == product then is else i ∷ delete_item product is

-- `IntegerField(min_value=1)`
unfoldable pub check_quantity : ℤ → Result Error ℕ
check_quantity (negsuc n) = err bad_quantity
check_quantity (pos n) = if n == 0 then err bad_quantity else ok n

-- `product.available_stock < quantity`
unfoldable pub check_stock : ℕ → ℕ → List Stock → Result Error (Unit {0})
unfolding available_stock
check_stock product quantity stocks =
    raise_if (ltb_ℤ (available_stock product stocks) (pos quantity)) not_enough

-- `AddToCartSerializer`
unfoldable pub check_listing : Listing → Result Error ℕ
check_listing l =
    if not l.is_active
    then err no_product
    else if not l.is_approved
    then err not_approved
    else ok l.final_price

-- The items of the cart after the block of `add_item`.
unfoldable pub added : ℕ → ℕ → ℕ → List Stock → List CartItem → Result Error (List CartItem)
unfolding find_item save_item check_stock
added product quantity price stocks cart = elim (find_item product cart) [
  | none ↦ ok (record { product = product; quantity = quantity; unit_price = price } ∷ cart)
  | some i ↦ do
    check_stock product (i.quantity + quantity) stocks
    ok (
        save_item
          (record { product = product; quantity = i.quantity + quantity; unit_price = price }) cart)
]

module _ (listings : ℕ → Listing) where
  unfoldable pub add_item : ℕ → ℕ → ℤ → Market → Result Error Market
  unfolding check_listing check_quantity check_stock get_cart added
  add_item user product quantity db = do
    price ← check_listing (listings product)
    n ← check_quantity quantity
    check_stock product n db.ledger.stocks
    let (cart, db') = get_cart user db
    items ← added product n price db.ledger.stocks cart
    ok (record db' { carts = save user items db'.carts })

  -- The PATCH of `item_detail`; the item stands for its product.
  unfoldable pub update_item : ℕ → ℕ → ℤ → Market → Result Error Market
  unfolding check_quantity check_stock get_cart find_item save_item
  update_item user product quantity db = do
    let (cart, db') = get_cart user db
    i ← or_raise (find_item product cart) not_found
    n ← check_quantity quantity
    check_stock product n db.ledger.stocks
    let new : CartItem = record {
      product = product;
      quantity = n;
      unit_price = (listings product).final_price;
    }
    ok (record db' { carts = save user (save_item new cart) db'.carts })

-- The DELETE of `item_detail`.
unfoldable pub remove_item : ℕ → ℕ → Market → Result Error Market
unfolding get_cart find_item delete_item
remove_item user product db = do
  let (cart, db') = get_cart user db
  i ← or_raise (find_item product cart) not_found
  ok (record db' { carts = save user (delete_item product cart) db'.carts })

-- `Cart.clear`
unfoldable pub clear_cart : ℕ → Market → Market
unfolding get_cart
clear_cart user db =
    let (cart, db') = get_cart user db in record db' { carts = save user [] db'.carts }
