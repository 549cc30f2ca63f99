-- ===== src/Examples/Discounting.antt =====
-- The discount of the shop on its cart.
use mallbyte_api.Common.{◌*◌, ◌≤◌, ◌≡◌, ◌↔◌, refl, some, [], ◌∷◌, arith, ok, ◌+ℤ◌, ◌-ℤ◌}
use mallbyte_api.Market.State.{Market}
use mallbyte_api.Discounts.{
  clean, calculate_discount_amount, get_eligible_subtotal, cart_subtotal, validate_for_cart,
  is_started, is_expired, has_total_usage_left, has_user_usage_left, get_user_usage_count,
  targeted_subtotal, is_eligible, total_price, count_usages,
}
use mallbyte_api.Discounts.Amount.{
  IsUsable, calculate_discount_amount_bounds, validate_for_cart_iff,
}
use mallbyte_api.Discounts.Service.{apply_discount_to_order, has_usage}
use mallbyte_api.Discounts.Service.Usage.{AllCounted, apply-AllCounted}
use mallbyte_api.Orders.Total.{calculate_total, with_discount}
use mallbyte_api.Examples.Shop.{ali, cart, tenth, catalog, shop, fresh_order, whole}

clean-tenth : clean tenth ≡ ok tt
unfolding clean
clean-tenth = refl

calculate_discount_amount_bounds_example :
    (calculate_discount_amount catalog tenth cart ≤ 100 * get_eligible_subtotal catalog tenth cart)
    × (calculate_discount_amount catalog tenth cart ≤ 100 * cart_subtotal cart)
calculate_discount_amount_bounds_example =
    calculate_discount_amount_bounds catalog tenth cart clean-tenth

validate_for_cart_iff_example :
    (validate_for_cart catalog 20 9 tenth (some ali) [] cart ≡ ok 1000) ↔ (
      IsUsable catalog 20 9 tenth (some ali) [] cart
      × (1000 ≡ calculate_discount_amount catalog tenth cart))
validate_for_cart_iff_example = validate_for_cart_iff catalog 20 9 tenth (some ali) [] cart 1000

-- The order before its discount.
abbrev placed : Market
placed = record shop {
  orders = (100, record fresh_order { discount_amount = 0; total_amount = 108 }) ∷ [];
}

abbrev discounted : Market
discounted = record placed {
  orders = (100, fresh_order) ∷ [];
  usages =
      (
        100,
        record { discount = 9; user = 3; order = 100; code_snapshot = "TEN"; discount_amount = 10 },
      )
      ∷ [];
  discounts = (9, record tenth { used_count = 1 }) ∷ [];
  next_key = 101;
}

applied : apply_discount_to_order whole 20 9 ali cart 100 placed ≡ ok discounted
unfolding apply_discount_to_order has_usage validate_for_cart is_started is_expired
    has_total_usage_left has_user_usage_left get_user_usage_count cart_subtotal
    calculate_discount_amount get_eligible_subtotal targeted_subtotal is_eligible total_price
    count_usages calculate_total with_discount ◌+ℤ◌ ◌-ℤ◌
applied = refl

none_used : AllCounted placed
unfolding count_usages
none_used pk d found = record {
  counted = ground arith;
  within = λ n limit. ground arith;
  each = λ n user limit. ground arith;
}

apply-AllCounted_example : AllCounted discounted
apply-AllCounted_example =
    apply-AllCounted whole 20 9 ali cart 100 placed discounted applied none_used
