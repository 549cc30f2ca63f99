-- ===== src/Settlements/Build.antt =====
-- `build_order_allocations` of apps/settlements/services.py. The columns of orders and items hold
-- whole units, whose `money` is 100 times as many hundredths.
pub mod Created
pub mod Reconciled
pub mod Success
use Prim.Native.String.{String}
use mallbyte_api.Common.Table.{lookup}
use mallbyte_api.Common.{
  ℕ, ◌+◌, ◌-◌, ◌*◌, ◌/◌, Bool, true, false, not, ◌&&◌, ◌||◌, Option, none, some, List, [], ◌∷◌,
  ◌++◌, ltb, ◌==◌, if◌then◌else◌, is_some, ℤ, pos, negsuc, Result, ok, err, ◌>>=◌, ◌>>◌, raise_if,
  or_raise,
}
use mallbyte_api.Market.Row.{Product, Order, OrderItem}
use mallbyte_api.Market.State.{Market}
use mallbyte_api.Settlements.Row.{Accounts, ItemAllocation, Books}
use mallbyte_api.Settlements.Failure.{
  Error, does_not_exist, index_error, cannot_allocate, empty_order, has_snapshots, gross_mismatch,
  discount_exceeds, total_mismatch, no_profile, rate_out_of_range, not_reconciled,
}
use mallbyte_api.Settlements.Share.{Quotient, sum, is_nil, allocate}

-- The items of an order with their keys, oldest first.
unfoldable pub order_items : ℕ → List (ℕ × OrderItem) → List (ℕ × OrderItem)
order_items pk [] = []
order_items pk ((k, i) ∷ is) =
    let rest = order_items pk is in if i.order == pk then (k, i) ∷ rest else rest

-- `order_item__order_id=pk` of an allocation.
unfoldable pub is_for : ℕ → List (ℕ × OrderItem) → ItemAllocation → Bool
is_for pk items a = elim (lookup a.order_item items) [ none ↦ false | some i ↦ i.order == pk ]

unfoldable pub order_allocations :
    ℕ → List (ℕ × OrderItem) → List (ℕ × ItemAllocation) → List (ℕ × ItemAllocation)
order_allocations pk items [] = []
order_allocations pk items ((k, a) ∷ rest) =
    let found = order_allocations pk items rest in
    if is_for pk items a then (k, a) ∷ found else found

-- `[money(i.total_price) for i in items]`
unfoldable pub weights : List (ℕ × OrderItem) → List ℕ
weights [] = []
weights ((k, i) ∷ is) = (100 * i.total_price) ∷ weights is

-- `set(rate_by_seller) != seller_ids`
unfoldable pub lacks_profile : (ℕ → Product) → List (ℕ × ℤ) → List (ℕ × OrderItem) → Bool
lacks_profile catalog rates [] = false
lacks_profile catalog rates ((k, i) ∷ is) =
    not (is_some (lookup (catalog i.product).seller rates)) || lacks_profile catalog rates is

-- A rate in hundredths of a percent, from 0 to 100 percent.
unfoldable pub check_rate : ℤ → Result Error ℕ
check_rate (negsuc n) = err rate_out_of_range
check_rate (pos rate) = if ltb 10000 rate then err rate_out_of_range else ok rate

-- `money(merchandise_net * rate / Decimal("100"))`, a half rounded up.
unfoldable pub commission_of : ℕ → ℕ → ℕ
commission_of merchandise_net rate = (merchandise_net * rate + 5000) / 10000

-- The row that the loop creates.
unfoldable pub new_allocation :
    ℕ → String → ℕ → (ℕ × OrderItem) → (weight discount shipping tax : ℕ) → ItemAllocation
unfolding commission_of
new_allocation seller currency rate (k, i) weight discount shipping tax =
    let merchandise_net = weight - discount in
    let commission = commission_of merchandise_net rate in
    record {
      order_item = k;
      seller = seller;
      currency = currency;
      quantity = i.quantity;
      gross = weight;
      discount = discount;
      shipping = shipping;
      tax = tax;
      charged = merchandise_net + shipping + tax;
      merchandise_net = merchandise_net;
      commission_rate = rate;
      commission = commission;
      seller_payable = merchandise_net - commission;
    }

-- The loop over the items, from the key of the next row.
unfoldable pub create_allocations :
    (ℕ → Product)
    → List (ℕ × ℤ)
    → String
    → ℕ
    → List (ℕ × OrderItem)
    → (discounts shipping taxes : List ℕ) → Result Error (List (ℕ × ItemAllocation))
unfolding check_rate new_allocation
create_allocations catalog rates currency key [] ds hs ts = ok []
create_allocations catalog rates currency key ((k, i) ∷ is) (d ∷ ds) (h ∷ hs) (t ∷ ts) = do
  let seller = (catalog i.product).seller
  stored ← or_raise (lookup seller rates) no_profile
  rate ← check_rate stored
  rest ← create_allocations catalog rates currency (key + 1) is ds hs ts
  ok ((key, new_allocation seller currency rate (k, i) (100 * i.total_price) d h t) ∷ rest)
create_allocations catalog rates currency key (i ∷ is) ds hs ts = err index_error

unfoldable pub total_charged : List (ℕ × ItemAllocation) → ℕ
total_charged [] = 0
total_charged ((k, a) ∷ rest) = a.charged + total_charged rest

-- The guards before the allocation.
unfoldable pub check_order : Order → List (ℕ × OrderItem) → Bool → Result Error (Unit {0})
check_order o items allocated = do
  raise_if (is_nil (weights items)) empty_order
  raise_if allocated has_snapshots
  raise_if (not (sum (weights items) == 100 * o.subtotal)) gross_mismatch
  raise_if (ltb (100 * o.subtotal) (100 * o.discount_amount)) discount_exceeds
  raise_if
      (not (
        100 * o.total_amount
        == 100 * (o.subtotal - o.discount_amount + o.shipping_cost + o.tax_amount)))
      total_mismatch

abbrev has_rows : List (ℕ × ItemAllocation) → Bool
has_rows [] = false
has_rows (a ∷ rest) = true

-- The sequence of keys after the rows that have their keys from it.
unfoldable pub next_key_after : ℕ → List (ℕ × ItemAllocation) → ℕ
next_key_after key [] = key
next_key_after key (a ∷ rest) = next_key_after (key + 1) rest

-- `quotient` is the division of `decimal`, `upper` Python's on the currency.
unfoldable pub build_order_allocations :
    Quotient
    → (String → String)
    → Accounts
    → String
    → ℕ
    → Market
    → Books
    → Result Error (List (ℕ × ItemAllocation) × Books)
unfolding check_order create_allocations total_charged
build_order_allocations quotient upper accounts currency pk db b = do
  order ← or_raise (lookup pk db.orders) does_not_exist
  let items = order_items pk db.items
  check_order order items (has_rows (order_allocations pk db.items b.allocations))
  discounts ← allocate quotient cannot_allocate (100 * order.discount_amount) (weights items)
  shipping ← allocate quotient cannot_allocate (100 * order.shipping_cost) (weights items)
  taxes ← allocate quotient cannot_allocate (100 * order.tax_amount) (weights items)
  raise_if (lacks_profile db.catalog accounts.commission_rates items) no_profile
  created ←
      create_allocations db.catalog accounts.commission_rates (upper currency) b.next_key items
        discounts shipping taxes
  raise_if (not (total_charged created == 100 * order.total_amount)) not_reconciled
  ok (
    created,
    record b {
      allocations = b.allocations ++ created;
      next_key = next_key_after b.next_key created;
    },
  )
