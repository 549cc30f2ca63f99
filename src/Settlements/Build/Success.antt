-- ===== src/Settlements/Build/Success.antt =====
-- When the allocations of an order are built.
use Prim.Native.String.{String}
use mallbyte_api.Common.Table.{lookup, AllRows}
use mallbyte_api.Common.{
  ℕ, ◌+◌, ◌-◌, ◌*◌, ◌≤◌, ◌<◌, ◌≡◌, false, not, ◌==◌, some, List, [], ◌∷◌, ◌++◌, arith, ok, ◌>>◌,
  raise_if, Result,
}
use mallbyte_api.Market.Row.{Order, OrderItem}
use mallbyte_api.Market.State.{Market}
use mallbyte_api.Settlements.Row.{Accounts, ItemAllocation, Books}
use mallbyte_api.Settlements.Failure.{Error, cannot_allocate, not_reconciled}
use mallbyte_api.Settlements.Share.{Quotient, sum}
use mallbyte_api.Settlements.Share.Count.{IsQuotient}
use mallbyte_api.Settlements.Share.Quota.{allocate-proportional, allocate-IsShared}
use mallbyte_api.Settlements.Build.{
  order_items, order_allocations, weights, lacks_profile, total_charged, check_order,
  next_key_after, build_order_allocations,
}
use mallbyte_api.Settlements.Build.Reconciled.{FitsColumns}
use mallbyte_api.Settlements.Build.Created.{
  IsRate, create_allocations-charged, create_allocations-succeeds,
}

check_order-passes :
    (o : Order) (items : List (ℕ × OrderItem))
    → sum (weights items) ≡ 100 * o.subtotal
    → 0 < o.subtotal
    → o.discount_amount ≤ o.subtotal
    → o.total_amount ≡ o.subtotal - o.discount_amount + o.shipping_cost + o.tax_amount
    → check_order o items false ≡ ok tt
unfolding check_order weights
check_order-passes o [] a b c d = absurd (omega arith)
check_order-passes o (i ∷ is) a b c d = ground arith

agrees :
    {V : Type 0} (a c : ℕ) (r : Result Error V)
    → a ≡ c
    → (raise_if (not (a == c)) not_reconciled >> r) ≡ r
agrees a c r e = ground arith

-- For a stored order with a positive subtotal that is the sum of its items' prices, a discount of
-- at most the subtotal, a total that is the sum of its parts, no allocation yet, and a commission
-- rate from 0 to 100 percent for every seller, where the quotients of `decimal` round down as the
-- exact ones do and the amounts fit their columns, the allocations are built: the check of the
-- charged total at the end does not fail.
pub build_order_allocations-succeeds :
    (q : Quotient) (upper : String → String) (accounts : Accounts) (currency : String) (pk : ℕ)
    (db : Market) (b : Books) (order : Order)
    → IsQuotient q
    → FitsColumns order
    → lookup pk db.orders ≡ some order
    → 0 < order.subtotal
    → sum (weights (order_items pk db.items)) ≡ 100 * order.subtotal
    → order.discount_amount ≤ order.subtotal
    → order.total_amount
      ≡ order.subtotal - order.discount_amount + order.shipping_cost + order.tax_amount
    → order_allocations pk db.items b.allocations ≡ []
    → lacks_profile db.catalog accounts.commission_rates (order_items pk db.items) ≡ false
    → AllRows IsRate accounts.commission_rates
    → (created : List (ℕ × ItemAllocation)) × (b' : Books) × (build_order_allocations q upper
          accounts currency pk db b
        ≡ ok (created, b'))
unfolding build_order_allocations
build_order_allocations-succeeds q upper accounts currency pk db b o v fit found p gross fits total
      fresh profiles rates =
    let items = order_items pk db.items in
    let (ds, ds_ok, d_length, d_sum, d_parts) =
      allocate-proportional q cannot_allocate (100 * o.discount_amount) (weights items) v
        (omega (arith, gross)) fit.1 (omega (arith, gross, fit.0)) in
    let (hs, hs_ok, h_length, h_sum, h_parts) =
      allocate-proportional q cannot_allocate (100 * o.shipping_cost) (weights items) v
        (omega (arith, gross)) fit.2 (omega (arith, gross, fit.0)) in
    let (ts, ts_ok, t_length, t_sum, t_parts) =
      allocate-proportional q cannot_allocate (100 * o.tax_amount) (weights items) v
        (omega (arith, gross)) fit.3 (omega (arith, gross, fit.0)) in
    let (created, rows_ok) =
      create_allocations-succeeds db.catalog accounts.commission_rates (upper currency) b.next_key
        items ds hs ts d_length h_length t_length rates profiles in
    let (same_length, same_sum, d_fits) =
      allocate-IsShared q v cannot_allocate (100 * o.discount_amount) (weights items) ds fit.1
        (omega (arith, gross, fit.0)) ds_ok in
    let charged =
      create_allocations-charged db.catalog accounts.commission_rates (upper currency) b.next_key
        items ds hs ts created (λ j. d_fits j (omega (arith, gross))) d_length h_length t_length
        rows_ok in
    (
      created,
      record b {
        allocations = b.allocations ++ created;
        next_key = next_key_after b.next_key created;
      },
      rw
          (
            found,
            fresh,
            check_order-passes o items gross p fits total,
            ds_ok,
            hs_ok,
            ts_ok,
            profiles,
            rows_ok,
          )
          (agrees (total_charged created) (100 * o.total_amount)
            (ok (
              created,
              record b {
                allocations = b.allocations ++ created;
                next_key = next_key_after b.next_key created;
              },
            ))
            (omega (arith, charged, d_sum, h_sum, t_sum, gross, total))),
    )
