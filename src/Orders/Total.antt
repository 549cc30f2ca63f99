-- ===== src/Orders/Total.antt =====
-- `Order.calculate_total` and the totals that `Order.save` stores.
use mallbyte_api.Common.{
  ℕ, ◌+◌, ◌-◌, ◌*◌, ◌≤◌, ◌≡◌, arith, if◌then◌else◌, pos, pos_part, ◌+ℤ◌, ◌-ℤ◌, ltb_ℤ, int_laws,
}
use mallbyte_api.Market.Row.{Order}

-- The sum of the four amounts in one unit of money, or 0 where it is negative.
unfoldable pub calculate_total : ℕ → ℕ → ℕ → ℕ → ℕ
calculate_total subtotal discount shipping tax =
    let total = pos subtotal -ℤ pos discount +ℤ pos shipping +ℤ pos tax in
    if ltb_ℤ total (pos 0) then 0 else pos_part total

-- `Order.save` of a row as it was read: the total is computed from the stored amounts.
unfoldable pub with_total : Order → Order
unfolding calculate_total
with_total o = record o {
  total_amount = calculate_total o.subtotal o.discount_amount o.shipping_cost o.tax_amount;
}

module _ (store : ℕ → ℕ) where
  -- `order.discount_amount = …; order.save(…)` with an amount in hundredths: both columns hold
  -- what the database stores of the exact amounts.
  unfoldable pub with_discount : ℕ → Order → Order
  unfolding calculate_total
  with_discount amount o = record o {
    discount_amount = store amount;
    total_amount =
        store
          (calculate_total (100 * o.subtotal) amount (100 * o.shipping_cost) (100 * o.tax_amount));
  }

calculate_total-eq : (s d h t : ℕ) → calculate_total s d h t ≡ s + h + t - d
unfolding calculate_total
calculate_total-eq s d h t = grind int_laws

-- With a discount of at most the subtotal, the total and the discount add up to the subtotal,
-- the shipping and the tax.
pub calculate_total-add : (s d h t : ℕ) → d ≤ s → calculate_total s d h t + d ≡ s + h + t
calculate_total-add s d h t le = omega (arith, calculate_total-eq s d h t)

-- A discount above the order's value makes the order free, and no less.
pub calculate_total-above : (s d h t : ℕ) → s + h + t ≤ d → calculate_total s d h t ≡ 0
calculate_total-above s d h t le = omega (arith, calculate_total-eq s d h t)

calculate_total-scale :
    (s d h t : ℕ)
    → calculate_total (100 * s) (100 * d) (100 * h) (100 * t) ≡ 100 * calculate_total s d h t
calculate_total-scale s d h t =
    omega (
      arith,
      calculate_total-eq s d h t,
      calculate_total-eq (100 * s) (100 * d) (100 * h) (100 * t),
    )

-- Where the database keeps whole amounts, an order that is saved again after a whole discount
-- stays as it is.
pub with_total-with_discount :
    (store : ℕ → ℕ) (d : ℕ) (o : Order)
    → ((n : ℕ) → store (100 * n) ≡ n)
    → with_total (with_discount store (100 * d) o) ≡ with_discount store (100 * d) o
unfolding with_total with_discount
with_total-with_discount store d o whole =
    let scaled = calculate_total-scale o.subtotal d o.shipping_cost o.tax_amount in
    ground
      (arith, whole d, whole (calculate_total o.subtotal d o.shipping_cost o.tax_amount), scaled)
