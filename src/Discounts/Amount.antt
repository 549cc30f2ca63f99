-- ===== src/Discounts/Amount.antt =====
-- How large a discount is, and when it may be used.
use mallbyte_api.Common.Account.{User}
use mallbyte_api.Common.{
  ℕ, ◌*◌, ◌≤◌, ◌<◌, ◌≡◌, ◌↔◌, inl, inr, true, false, Option, some, List, [], ◌∷◌, arith,
  Option-cases, ok,
}
use mallbyte_api.Market.Row.{Product, CartItem, Discount, DiscountUsage, percentage}
use mallbyte_api.Discounts.{
  clean, cart_subtotal, targeted_subtotal, get_eligible_subtotal, calculate_discount_amount,
  validate_for_cart, is_started, is_expired, has_total_usage_left, get_user_usage_count,
  has_user_usage_left,
}

product-le : (e v : ℕ) → v ≤ 100 → e * v ≤ 100 * e
product-le e v h = grind arith

started_now :
    (now : ℕ) (d : Discount)
    → ((start : ℕ) → d.start_at ≡ some start → start ≤ now)
    → is_started now d ≡ true
unfolding is_started
started_now now d h = elim (Option-cases d.start_at) [
  | inl open_start ↦ ground arith
  | inr (start, e) ↦ ground (arith, h start e)
]

not_expired :
    (now : ℕ) (d : Discount)
    → ((end : ℕ) → d.end_at ≡ some end → now ≤ end)
    → is_expired now d ≡ false
unfolding is_expired
not_expired now d h = elim (Option-cases d.end_at) [
  | inl open_end ↦ ground arith
  | inr (end, e) ↦ ground (arith, h end e)
]

some_left :
    (d : Discount)
    → ((n : ℕ) → d.usage_limit_total ≡ some n → d.used_count < n)
    → has_total_usage_left d ≡ true
unfolding has_total_usage_left
some_left d h = elim (Option-cases d.usage_limit_total) [
  | inl unlimited ↦ ground arith
  | inr (n, e) ↦ ground (arith, h n e)
]

some_left_for :
    (pk : ℕ) (d : Discount) (user : Option User) (usages : List (ℕ × DiscountUsage))
    → ((n : ℕ) → d.usage_limit_per_user ≡ some n → get_user_usage_count pk user usages < n)
    → has_user_usage_left pk d user usages ≡ true
unfolding has_user_usage_left
some_left_for pk d user usages h = elim (Option-cases d.usage_limit_per_user) [
  | inl unlimited ↦ ground arith
  | inr (n, e) ↦ ground (arith, h n e)
]

module _ (catalog : ℕ → Product) where
  targeted-le-subtotal :
      (d : Discount) (cart : List CartItem) → targeted_subtotal catalog d cart ≤ cart_subtotal cart
  unfolding targeted_subtotal cart_subtotal
  targeted-le-subtotal d [] = omega arith
  targeted-le-subtotal d (i ∷ is) = ground (arith, targeted-le-subtotal d is)

  -- The eligible part of a cart is at most the cart.
  pub eligible-le-subtotal :
      (d : Discount) (cart : List CartItem)
      → get_eligible_subtotal catalog d cart ≤ cart_subtotal cart
  unfolding get_eligible_subtotal
  eligible-le-subtotal d cart = ground (arith, targeted-le-subtotal d cart)

  -- A discount that `clean` accepts is worth no more than the eligible part of the cart, so no
  -- more than the cart.
  pub calculate_discount_amount_bounds :
      (d : Discount) (cart : List CartItem)
      → clean d ≡ ok tt
      → (calculate_discount_amount catalog d cart ≤ 100 * get_eligible_subtotal catalog d cart)
        × (calculate_discount_amount catalog d cart ≤ 100 * cart_subtotal cart)
  unfolding calculate_discount_amount clean
  calculate_discount_amount_bounds d cart h =
      let e = get_eligible_subtotal catalog d cart in
      let le = eligible-le-subtotal d cart in
      let small : calculate_discount_amount catalog d cart ≤ 100 * e =
        ground (arith, product-le e d.value) in
      (small, omega arith)

  -- A percentage with a maximum is worth no more than its maximum.
  pub calculate_discount_amount-le-max :
      (d : Discount) (cart : List CartItem) (cap : ℕ)
      → d.discount_type ≡ percentage
      → d.max_discount_amount ≡ some cap
      → calculate_discount_amount catalog d cart ≤ 100 * cap
  unfolding calculate_discount_amount
  calculate_discount_amount-le-max d cart cap p m = ground arith

  -- What a usable discount meets, at one time and for one user and cart.
  pub record IsUsable (now pk : ℕ) (d : Discount) (user : Option User)
      (usages : List (ℕ × DiscountUsage)) (cart : List CartItem) : Type 0 where
    pub active : d.is_active ≡ true
    pub started : (start : ℕ) → d.start_at ≡ some start → start ≤ now
    pub running : (end : ℕ) → d.end_at ≡ some end → now ≤ end
    pub total_left : (n : ℕ) → d.usage_limit_total ≡ some n → d.used_count < n
    pub user_left :
        (n : ℕ) → d.usage_limit_per_user ≡ some n → get_user_usage_count pk user usages < n
    pub enough : d.min_order_amount ≤ cart_subtotal cart
    pub worth : 0 < calculate_discount_amount catalog d cart

  usable :
      (now pk : ℕ) (d : Discount) (user : Option User) (usages : List (ℕ × DiscountUsage))
      (cart : List CartItem) (amount : ℕ)
      → validate_for_cart catalog now pk d user usages cart ≡ ok amount
      → IsUsable now pk d user usages cart × (amount ≡ calculate_discount_amount catalog d cart)
  unfolding validate_for_cart is_started is_expired has_total_usage_left has_user_usage_left
  usable now pk d user usages cart amount h = (
    record {
      active = ground arith;
      started = λ start e. ground arith;
      running = λ end e. ground arith;
      total_left = λ n e. ground arith;
      user_left = λ n e. ground arith;
      enough = ground arith;
      worth = ground arith;
    },
    ground arith,
  )

  accepted :
      (now pk : ℕ) (d : Discount) (user : Option User) (usages : List (ℕ × DiscountUsage))
      (cart : List CartItem) (amount : ℕ)
      → IsUsable now pk d user usages cart
      → amount ≡ calculate_discount_amount catalog d cart
      → validate_for_cart catalog now pk d user usages cart ≡ ok amount
  unfolding validate_for_cart
  accepted now pk d user usages cart amount u e = ground (
    arith,
    started_now now d u.started,
    not_expired now d u.running,
    some_left d u.total_left,
    some_left_for pk d user usages u.user_left,
  )

  -- Validation accepts exactly the usable discounts, with the amount that is computed for the cart.
  pub validate_for_cart_iff :
      (now pk : ℕ) (d : Discount) (user : Option User) (usages : List (ℕ × DiscountUsage))
      (cart : List CartItem) (amount : ℕ)
      → (validate_for_cart catalog now pk d user usages cart ≡ ok amount)
        ↔ (IsUsable now pk d user usages cart × (amount ≡ calculate_discount_amount catalog d cart))
  validate_for_cart_iff now pk d user usages cart amount = (
    usable now pk d user usages cart amount,
    λ (u, e). accepted now pk d user usages cart amount u e,
  )
