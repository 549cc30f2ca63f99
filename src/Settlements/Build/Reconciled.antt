-- ===== src/Settlements/Build/Reconciled.antt =====
-- The allocations of an order are complete and reconcile with its amounts.
use Prim.Native.String.{String}
use mallbyte_api.Common.Table.{lookup, AllRows, lookup-AllRows, sum_rows}
use mallbyte_api.Common.{
  ℕ, ◌+◌, ◌-◌, ◌*◌, ◌≤◌, ◌<◌, ◌≡◌, ap, sym, ◌∙◌, inl, inr, Bool, some, List, ◌++◌, arith, ok,
  Option-cases, Result-cases,
}
use mallbyte_api.Market.Row.{Order, OrderItem}
use mallbyte_api.Market.State.{Market}
use mallbyte_api.Settlements.Row.{Accounts, ItemAllocation, Books}
use mallbyte_api.Settlements.Failure.{cannot_allocate}
use mallbyte_api.Settlements.Share.{Quotient, sum, allocate}
use mallbyte_api.Settlements.Share.Count.{top, IsQuotient}
use mallbyte_api.Settlements.Share.Quota.{allocate-IsShared}
use mallbyte_api.Settlements.Build.{
  order_items, order_allocations, weights, create_allocations, total_charged, check_order, has_rows,
  build_order_allocations,
}
use mallbyte_api.Settlements.Build.Created.{
  IsBalanced, keys, allocated_items, create_allocations-IsBalanced, create_allocations-columns,
}

check_order-ok :
    (o : Order) (items : List (ℕ × OrderItem)) (allocated : Bool)
    → check_order o items allocated ≡ ok tt
    → (sum (weights items) ≡ 100 * o.subtotal)
      × (o.discount_amount ≤ o.subtotal)
      × (o.total_amount ≡ o.subtotal - o.discount_amount + o.shipping_cost + o.tax_amount)
unfolding check_order
check_order-ok o items allocated h = ground arith

module _ (q : Quotient) (upper : String → String) (accounts : Accounts) (currency : String) (pk : ℕ)
    (db : Market) (b : Books) where
  -- What the steps of a successful call give.
  record Built (created : List (ℕ × ItemAllocation)) (b' : Books) : Type 0 where
    order : Order
    found : lookup pk db.orders ≡ some order
    checked :
        check_order order
          (order_items pk db.items)
          (has_rows (order_allocations pk db.items b.allocations))
        ≡ ok tt
    discounts : List ℕ
    discounts_ok :
        allocate q cannot_allocate (100 * order.discount_amount) (weights (order_items pk db.items))
        ≡ ok discounts
    shipping : List ℕ
    shipping_ok :
        allocate q cannot_allocate (100 * order.shipping_cost) (weights (order_items pk db.items))
        ≡ ok shipping
    taxes : List ℕ
    taxes_ok :
        allocate q cannot_allocate (100 * order.tax_amount) (weights (order_items pk db.items))
        ≡ ok taxes
    rows :
        create_allocations db.catalog accounts.commission_rates
          (upper currency)
          b.next_key
          (order_items pk db.items)
          discounts
          shipping
          taxes
        ≡ ok created
    reconciled : total_charged created ≡ 100 * order.total_amount
    kept : b'.allocations ≡ b.allocations ++ created

  built :
      (created : List (ℕ × ItemAllocation)) (b' : Books)
      → build_order_allocations q upper accounts currency pk db b ≡ ok (created, b')
      → Built created b'
  unfolding build_order_allocations
  built created b' h = elim (Option-cases (lookup pk db.orders)) [
    | inl missing ↦ ground arith
    | inr (o, found) ↦
        let items = order_items pk db.items in
        let seen = has_rows (order_allocations pk db.items b.allocations) in
        elim (Result-cases (check_order o items seen)) [
          | inr (failure, bad) ↦ ground arith
          | inl (checked, good) ↦
              elim (Result-cases
                (allocate q cannot_allocate (100 * o.discount_amount) (weights items))) [
                  | inr (failure, bad) ↦ ground arith
                  | inl (ds, ds_ok) ↦
                      elim (Result-cases
                        (allocate q cannot_allocate (100 * o.shipping_cost) (weights items))) [
                          | inr (failure, bad) ↦ ground arith
                          | inl (hs, hs_ok) ↦
                              elim (Result-cases
                                (allocate q cannot_allocate (100 * o.tax_amount) (weights items))) [
                                  | inr (failure, bad) ↦ ground arith
                                  | inl (ts, ts_ok) ↦
                                      elim (Result-cases (
                                        create_allocations db.catalog accounts.commission_rates
                                          (upper currency) b.next_key items ds hs ts)) [
                                            | inr (failure, bad) ↦ ground arith
                                            | inl (rows, rows_ok) ↦
                                                let (same, reconciled, kept) : (rows ≡ created)
                                                    × (total_charged rows ≡ 100 * o.total_amount)
                                                    × (b'.allocations ≡ b.allocations ++ rows) =
                                                  ground arith in
                                                record {
                                                  order = o;
                                                  found = found;
                                                  checked = good;
                                                  discounts = ds;
                                                  discounts_ok = ds_ok;
                                                  shipping = hs;
                                                  shipping_ok = hs_ok;
                                                  taxes = ts;
                                                  taxes_ok = ts_ok;
                                                  rows = rows_ok ∙ ap ok same;
                                                  reconciled =
                                                      ap total_charged (sym same) ∙ reconciled;
                                                  kept = kept ∙ ap (λ l. b.allocations ++ l) same;
                                                }
                                          ]
                                ]
                        ]
                ]
        ]
  ]

-- The amounts of an order fit their columns.
abbrev pub FitsColumns : Order → Type 0
FitsColumns o =
    (100 * o.subtotal < top)
    × (100 * o.discount_amount < top)
    × (100 * o.shipping_cost < top)
    × (100 * o.tax_amount < top)

-- When the allocations of an order are built, where the quotients of `decimal` round down as the
-- exact ones do and the amounts of the orders fit their columns, every item of the order has
-- exactly one, in the order of the items; in each the discount and the net add up to the gross, the commission and
-- the seller's part to the net, and the net, the shipping and the tax to what is charged; the
-- gross amounts, the discounts, the shipping and the taxes sum to those of the order, and what is
-- charged to the order's total.
pub build_order_allocations-reconciles :
    (q : Quotient) (upper : String → String) (accounts : Accounts) (currency : String) (pk : ℕ)
    (db : Market) (b b' : Books) (created : List (ℕ × ItemAllocation))
    → IsQuotient q
    → AllRows FitsColumns db.orders
    → build_order_allocations q upper accounts currency pk db b ≡ ok (created, b')
    → (order : Order) × (lookup pk db.orders ≡ some order)
      × (keys (order_items pk db.items) ≡ allocated_items created)
      × AllRows IsBalanced created
      × (sum_rows (λ a. a.gross) created ≡ 100 * order.subtotal)
      × (sum_rows (λ a. a.discount) created ≡ 100 * order.discount_amount)
      × (sum_rows (λ a. a.shipping) created ≡ 100 * order.shipping_cost)
      × (sum_rows (λ a. a.tax) created ≡ 100 * order.tax_amount)
      × (total_charged created ≡ 100 * order.total_amount)
build_order_allocations-reconciles q upper accounts currency pk db b b' created v columns h =
    let parts = built q upper accounts currency pk db b created b' h in
    let (gross, discount, total) =
      check_order-ok parts.order (order_items pk db.items)
        (has_rows (order_allocations pk db.items b.allocations)) parts.checked in
    let fit = lookup-AllRows FitsColumns pk parts.order db.orders columns parts.found in
    let (d_length, d_sum, d_fits) =
      allocate-IsShared q v cannot_allocate (100 * parts.order.discount_amount)
        (weights (order_items pk db.items)) parts.discounts fit.1 (omega (arith, gross, fit.0))
        parts.discounts_ok in
    let (s_length, s_sum, s_fits) =
      allocate-IsShared q v cannot_allocate (100 * parts.order.shipping_cost)
        (weights (order_items pk db.items)) parts.shipping fit.2 (omega (arith, gross, fit.0))
        parts.shipping_ok in
    let (t_length, t_sum, t_fits) =
      allocate-IsShared q v cannot_allocate (100 * parts.order.tax_amount)
        (weights (order_items pk db.items)) parts.taxes fit.3 (omega (arith, gross, fit.0))
        parts.taxes_ok in
    let (kept_items, g_column, d_column, s_column, t_column) =
      create_allocations-columns db.catalog accounts.commission_rates (upper currency) b.next_key
        (order_items pk db.items) parts.discounts parts.shipping parts.taxes created d_length
        s_length t_length parts.rows in
    (
      parts.order,
      parts.found,
      kept_items,
      create_allocations-IsBalanced db.catalog accounts.commission_rates (upper currency) b.next_key
          (order_items pk db.items) parts.discounts parts.shipping parts.taxes created
          (λ j. d_fits j (omega arith)) parts.rows,
      g_column ∙ gross,
      d_column ∙ d_sum,
      s_column ∙ s_sum,
      t_column ∙ t_sum,
      parts.reconciled,
    )
