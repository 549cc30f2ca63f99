-- ===== src/Discounts.antt =====
-- apps/discounts: `Discount` and `services.py`. An amount that a percentage gives is in
-- hundredths, in which it is exact; what the columns hold is in whole units.

pub mod Amount
pub mod Service
use mallbyte_api.Common.Account.{User}
use mallbyte_api.Common.{
  ℕ, ◌+◌, ◌*◌, min, Bool, true, false, not, ◌&&◌, ◌||◌, Option, none, some, List, [], ◌∷◌, ltb, leb,
  ◌==◌, if◌then◌else◌, Result, ok, ◌>>◌, raise_if,
}
use mallbyte_api.Market.Row.{
  Product, CartItem, Discount, DiscountUsage, DiscountType, percentage, fixed_amount,
}

pub data Error : Type 0 where
  above_hundred_percent end_before_start invalid_code not_active not_started expired : Error
  usage_limit_reached user_limit_reached below_minimum not_applicable : Error

-- `CartItem.total_price`
unfoldable pub total_price : CartItem → ℕ
total_price i = i.unit_price * i.quantity

-- `Cart.subtotal`
unfoldable pub cart_subtotal : List CartItem → ℕ
unfolding total_price
cart_subtotal [] = 0
cart_subtotal (i ∷ is) = total_price i + cart_subtotal is

-- `Cart.total_items`
unfoldable pub total_items : List CartItem → ℕ
total_items [] = 0
total_items (i ∷ is) = i.quantity + total_items is

abbrev pub is_in : ℕ → List ℕ → Bool
is_in k [] = false
is_in k (j ∷ js) = (k == j) || is_in k js

abbrev pub is_nil : List ℕ → Bool
is_nil [] = true
is_nil (j ∷ js) = false

-- `a and b and b <= a` of the two ends of the period
abbrev ends_early : Option ℕ → Option ℕ → Bool
ends_early (some start) (some end) = leb end start
ends_early _ _ = false

abbrev pub is_percentage : DiscountType → Bool
is_percentage percentage = true
is_percentage fixed_amount = false

-- `Discount.clean`. A negative maximum is no value of the field's type here.
unfoldable pub clean : Discount → Result Error (Unit {0})
clean d = do
  raise_if (is_percentage d.discount_type && ltb 100 d.value) above_hundred_percent
  raise_if (ends_early d.start_at d.end_at) end_before_start

unfoldable pub is_expired : ℕ → Discount → Bool
is_expired now d = elim d.end_at [ none ↦ false | some end ↦ ltb end now ]

unfoldable pub is_started : ℕ → Discount → Bool
is_started now d = elim d.start_at [ none ↦ true | some start ↦ leb start now ]

unfoldable pub has_total_usage_left : Discount → Bool
has_total_usage_left d = elim d.usage_limit_total [ none ↦ true | some n ↦ ltb d.used_count n ]

-- `self.usages.filter(user=user).count()`
unfoldable pub count_usages : ℕ → ℕ → List (ℕ × DiscountUsage) → ℕ
count_usages discount user [] = 0
count_usages discount user ((k, u) ∷ us) =
    (if (u.discount == discount) && (u.user == user) then 1 else 0) + count_usages discount user us

-- An anonymous user has used nothing.
unfoldable pub get_user_usage_count : ℕ → Option User → List (ℕ × DiscountUsage) → ℕ
unfolding count_usages
get_user_usage_count pk none usages = 0
get_user_usage_count pk (some user) usages = count_usages pk user.id usages

unfoldable pub has_user_usage_left : ℕ → Discount → Option User → List (ℕ × DiscountUsage) → Bool
has_user_usage_left pk d user usages = elim d.usage_limit_per_user [
  | none ↦ true
  | some n ↦ ltb (get_user_usage_count pk user usages) n
]

module _ (catalog : ℕ → Product) where
  unfoldable pub is_eligible : Discount → CartItem → Bool
  is_eligible d item =
      is_in item.product d.applicable_products
      || is_in (catalog item.product).category d.applicable_categories

  -- The loop over the matching items.
  unfoldable pub targeted_subtotal : Discount → List CartItem → ℕ
  unfolding total_price is_eligible
  targeted_subtotal d [] = 0
  targeted_subtotal d (i ∷ is) =
      (if is_eligible d i then total_price i else 0) + targeted_subtotal d is

  unfoldable pub get_eligible_subtotal : Discount → List CartItem → ℕ
  get_eligible_subtotal d cart =
      let has_targeting = not (is_nil d.applicable_products && is_nil d.applicable_categories) in
      if not has_targeting then cart_subtotal cart else targeted_subtotal d cart

  -- In hundredths: `eligible * value / 100` is `eligible * value` hundredths.
  unfoldable pub calculate_discount_amount : Discount → List CartItem → ℕ
  calculate_discount_amount d cart =
      let eligible = get_eligible_subtotal d cart in
      if eligible == 0 then 0 else elim d.discount_type [
        | percentage ↦ elim d.max_discount_amount [
          | none ↦ eligible * d.value
          | some cap ↦ min (eligible * d.value) (100 * cap)
        ]
        | fixed_amount ↦ 100 * min d.value eligible
      ]

  -- The amount in hundredths, if the discount may be used for the cart now.
  unfoldable pub validate_for_cart :
      ℕ → ℕ → Discount → Option User → List (ℕ × DiscountUsage) → List CartItem → Result Error ℕ
  validate_for_cart now pk d user usages cart = do
    raise_if (not d.is_active) not_active
    raise_if (not (is_started now d)) not_started
    raise_if (is_expired now d) expired
    raise_if (not (has_total_usage_left d)) usage_limit_reached
    raise_if (not (has_user_usage_left pk d user usages)) user_limit_reached
    raise_if (ltb (cart_subtotal cart) d.min_order_amount) below_minimum
    let discount_amount = calculate_discount_amount d cart
    raise_if (discount_amount == 0) not_applicable
    ok discount_amount
