-- ===== src/Examples/Ledger.antt =====
-- The allocations of an order and the posting of its payment.

use mallbyte_api.Common.Table.{lookup, AllRows, sum_rows}
use mallbyte_api.Common.{
  ℕ, ◌+◌, ◌*◌, ◌/◌, ◌%◌, ◌<◌, ◌≡◌, refl, ◌⊎◌, false, none, some, List, [], ◌∷◌, pos, ◌+ℤ◌, ok,
  arith,
}
use mallbyte_api.Market.Row.{Order, Payment}
use mallbyte_api.Settlements.Row.{
  Accounts, ItemAllocation, SellerLedgerEntry, sale, capture_key, Books,
}
use mallbyte_api.Settlements.Failure.{cannot_allocate}
use mallbyte_api.Settlements.Share.{sum, Quotient, allocate}
use mallbyte_api.Settlements.Share.Count.{IsQuotient, length, get}
use mallbyte_api.Settlements.Share.Quota.{allocate-proportional}
use mallbyte_api.Settlements.Build.{
  order_items, is_for, order_allocations, weights, lacks_profile, total_charged, next_key_after,
  build_order_allocations,
}
use mallbyte_api.Settlements.Build.Created.{IsBalanced, keys, allocated_items}
use mallbyte_api.Settlements.Build.Reconciled.{build_order_allocations-reconciles}
use mallbyte_api.Settlements.Build.Success.{build_order_allocations-succeeds}
use mallbyte_api.Settlements.Capture.{post_captured_payment, seller_balance}
use mallbyte_api.Settlements.Capture.Posted.{
  due, post_captured_payment-once, post_captured_payment-balance,
}
use mallbyte_api.Examples.Shop.{same, ordered, fresh_order}
use mallbyte_api.Examples.Settled.{settled}

abbrev exact : Quotient
exact u w t = (u * w / t, u * w % t)

exact-IsQuotient : IsQuotient exact
exact-IsQuotient u w t a b c d = (refl, ((λ e. e), (λ e. e)))

abbrev thirds : List ℕ
thirds = 1 ∷ 1 ∷ 1 ∷ []

-- Three equal weights: the first gets the odd unit.
split : allocate exact cannot_allocate 100 thirds ≡ ok (34 ∷ 33 ∷ 33 ∷ [])
unfolding allocate
split = refl

allocate-proportional_example :
    (r : List ℕ) × (allocate exact cannot_allocate 100 thirds ≡ ok r)
    × (length r ≡ length thirds)
    × (sum r ≡ 100)
    × ((k : ℕ)
        → k < length thirds
        → (get r k ≡ 100 * get thirds k / sum thirds)
          ⊎ ((get r k ≡ 100 * get thirds k / sum thirds + 1)
              × (0 < 100 * get thirds k % sum thirds)))
allocate-proportional_example =
    allocate-proportional exact cannot_allocate 100 thirds exact-IsQuotient (omega arith)
      (omega arith) (omega arith)

-- The seller with the key 7 pays a tenth.
abbrev pub accounts : Accounts
accounts = record {
  users = (7, record { id = 7; is_staff = false; is_superuser = false }) ∷ [];
  commission_rates = (7, pos 1000) ∷ [];
}

abbrev no_books : Books
no_books = record {
  allocations = [];
  refunds = [];
  refund_allocations = [];
  entries = [];
  payouts = [];
  next_key = 200;
}

abbrev mugs_allocation : ItemAllocation
mugs_allocation = record {
  order_item = 101;
  seller = 7;
  currency = "IRR";
  quantity = 4;
  gross = 10000;
  discount = 1000;
  shipping = 800;
  tax = 0;
  charged = 9800;
  merchandise_net = 9000;
  commission_rate = 1000;
  commission = 900;
  seller_payable = 8100;
}

abbrev allocated : Books
allocated = record no_books { allocations = (200, mugs_allocation) ∷ []; next_key = 201 }

abbrev sold : List (ℕ × ItemAllocation)
sold = (200, mugs_allocation) ∷ []

allocating :
    build_order_allocations exact same accounts "IRR" 100 ordered no_books
    ≡ ok ((200, mugs_allocation) ∷ [], allocated)
unfolding build_order_allocations order_items order_allocations weights lacks_profile allocate
    next_key_after
allocating = refl

build_order_allocations-reconciles_example :
    (order : Order) × (lookup 100 ordered.orders ≡ some order)
    × (keys (order_items 100 ordered.items) ≡ allocated_items sold)
    × AllRows IsBalanced sold
    × (sum_rows (λ a. a.gross) sold ≡ 100 * order.subtotal)
    × (sum_rows (λ a. a.discount) sold ≡ 100 * order.discount_amount)
    × (sum_rows (λ a. a.shipping) sold ≡ 100 * order.shipping_cost)
    × (sum_rows (λ a. a.tax) sold ≡ 100 * order.tax_amount)
    × (total_charged sold ≡ 100 * order.total_amount)
build_order_allocations-reconciles_example =
    build_order_allocations-reconciles exact same accounts "IRR" 100 ordered no_books allocated sold
      exact-IsQuotient ((omega arith, omega arith, omega arith, omega arith), tt) allocating

weighed : sum (weights (order_items 100 ordered.items)) ≡ 100 * fresh_order.subtotal
unfolding weights order_items
weighed = refl

has_profile :
    lacks_profile ordered.catalog accounts.commission_rates (order_items 100 ordered.items) ≡ false
unfolding lacks_profile order_items
has_profile = refl

none_allocated : order_allocations 100 ordered.items no_books.allocations ≡ []
unfolding order_allocations
none_allocated = refl

build_order_allocations-succeeds_example :
    (created : List (ℕ × ItemAllocation)) × (b' : Books) × (build_order_allocations exact same
        accounts "IRR" 100 ordered no_books
      ≡ ok (created, b'))
build_order_allocations-succeeds_example =
    build_order_allocations-succeeds exact same accounts "IRR" 100 ordered no_books fresh_order
      exact-IsQuotient (omega arith, omega arith, omega arith, omega arith) refl (omega arith)
      weighed (omega arith) refl none_allocated has_profile ((refl, omega arith), tt)

-- The payment of the order, posted.
abbrev pub credit : SellerLedgerEntry
credit = record {
  seller = 7;
  currency = "IRR";
  kind = sale;
  amount = pos 8100;
  source_key = capture_key 104 200;
  allocation = some 200;
  refund = none;
  occurred_at = 30;
}

abbrev pub credited : Books
credited = record allocated { entries = credit ∷ [] }

crediting : post_captured_payment same 104 settled allocated ≡ ok credited
unfolding post_captured_payment order_items order_allocations is_for
crediting = refl

post_captured_payment-once_example : post_captured_payment same 104 settled credited ≡ ok credited
post_captured_payment-once_example =
    post_captured_payment-once same 104 settled allocated credited crediting

post_captured_payment-balance_example :
    (p : Payment) × (lookup 104 settled.payments ≡ some p)
    × (seller_balance same 7 "IRR" credited
        ≡ seller_balance same 7 "IRR" allocated
          +ℤ pos (
              due 104 7 "IRR"
                (order_allocations p.order settled.items allocated.allocations)
                allocated.entries))
post_captured_payment-balance_example =
    post_captured_payment-balance same 104 7 "IRR" settled allocated credited crediting (refl, tt)
