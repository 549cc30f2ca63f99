-- ===== src/Examples/Carting.antt =====
-- Two more mugs in a cart that holds four.
use mallbyte_api.Common.Table.{lookup}
use mallbyte_api.Common.{
  ℕ, ◌+◌, ◌≡◌, ◌≢◌, refl, true, some, List, [], ◌∷◌, pos, ◌+ℤ◌, ◌-ℤ◌, ◌≤ℤ◌, ok, arith,
}
use mallbyte_api.Market.Row.{CartItem}
use mallbyte_api.Market.State.{Market}
use mallbyte_api.Orders.Checkout.{available_stock}
use mallbyte_api.Orders.Cart.{Listing, find_item, add_item}
use mallbyte_api.Orders.Cart.Item.{quantity_of}
use mallbyte_api.Orders.Cart.Adding.{AreCarts, cart_of, add_item_effect}
use mallbyte_api.Orders.Cart.Kept.{adding_item, Step-AreCarts}
use mallbyte_api.Examples.Shop.{shop}

abbrev listings : ℕ → Listing
listings p = record { is_active = true; is_approved = true; final_price = 30 }

-- The price of the cart follows the price of the product.
abbrev six : List CartItem
six = record { product = 1; quantity = 6; unit_price = 30 } ∷ []

abbrev filled : Market
filled = record shop { carts = (3, six) ∷ [] }

filling : add_item listings 3 1 (pos 2) shop ≡ ok filled
unfolding add_item ◌+ℤ◌ ◌-ℤ◌
filling = refl

add_item_effect_example :
    (n : ℕ) × (m : ℕ) × (pos 2 ≡ pos n)
    × (m ≡ n + quantity_of 1 (cart_of 3 shop))
    × (pos m ≤ℤ available_stock 1 shop.ledger.stocks)
    × (items : List CartItem) × (lookup 3 filled.carts ≡ some items)
    × (find_item 1 items ≡ some (record { product = 1; quantity = m; unit_price = 30 }))
    × ((other : ℕ) → other ≢ 1 → find_item other items ≡ find_item other (cart_of 3 shop))
    × ((listings 1).is_active ≡ true)
    × ((listings 1).is_approved ≡ true)
add_item_effect_example = add_item_effect listings 3 1 (pos 2) shop filled filling

shop-AreCarts : AreCarts shop
unfolding find_item
shop-AreCarts = ((refl, omega arith, tt), tt)

Step-AreCarts_example : AreCarts filled
Step-AreCarts_example =
    Step-AreCarts listings shop filled shop-AreCarts (adding_item 3 1 (pos 2) filling)
