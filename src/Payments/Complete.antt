-- ===== src/Payments/Complete.antt =====
-- `Payment.mark_success` of apps/payments/models.py, with `SETTLEMENTS_LEDGER_ENABLED` off, as it
-- is by default.
pub mod Sale
pub mod Capture
use Prim.Native.String.{String}
use text.Mathlib.Text.{◌==◌ as str_eq}
use mallbyte_api.Common.Table.{lookup, save}
use mallbyte_api.Common.{
  ℕ, ◌+◌, Bool, true, false, not, ◌&&◌, ◌||◌, Option, none, some, List, [], ◌∷◌, ◌==◌,
  if◌then◌else◌, pos, ◌-ℤ◌, Result, ok, err, ◌>>=◌, ◌>>◌, raise_if, or_raise, map_err,
}
use mallbyte_api.Inventory.Stock.{release_reservation, with_stock}
use mallbyte_api.Inventory.Movement.{Ledger, StockMovement, sale, payment, create}
use mallbyte_api.Market.Row.{
  Order, OrderItem, OrderStatus, PaymentStatus, pending_payment, Payment, Provider, mock,
  cash_on_delivery, zarinpal, stripe, AttemptStatus, success, SellerOrderFulfillment,
  SellerOrderFulfillmentHistory, OrderStatusHistory,
}
use mallbyte_api.Market.State.{Market}
use mallbyte_api.Orders.Total.{with_total}
use mallbyte_api.Orders.Query.{is_pending_payment, is_open, items_of, sellers_of, find_fulfillment}
use mallbyte_api.Payments.Failure.{
  Error, stock_error, does_not_exist, integrity, not_pending, not_awaiting_payment, already_paid,
  amount_mismatch, no_warehouse, naive_timestamp,
}
use mallbyte_api.Payments.Attempt.{is_pending, cancel_attempts, cancel_events, has_other_success}

-- A `datetime` knows its time zone or does not.
pub data Moment : Type 0 where
  aware naive : ℕ → Moment

-- `confirmed_at or timezone.now()`, and the check of the result.
unfoldable pub capture_time : ℕ → Option Moment → Result Error ℕ
capture_time now none = ok now
capture_time now (some (aware t)) = ok t
capture_time now (some (naive t)) = err naive_timestamp

-- The movement that an item of a paid order creates.
unfoldable pub sale_of : ℕ → ℕ → ℕ → OrderItem → StockMovement
sale_of pk user w i = record {
  product = i.product;
  warehouse = w;
  movement_type = sale;
  quantity = pos 0 -ℤ pos i.quantity;
  reference_id = payment pk;
  before_quantity = 0;
  after_quantity = 0;
  created_by = some user;
}

-- One round of the loop over the items: the reservation ends and the units leave.
unfoldable pub sell_item : ℕ → ℕ → OrderItem → Ledger → Result Error Ledger
sell_item pk user i l = do
  w ← or_raise i.warehouse no_warehouse
  stocks ←
      map_err stock_error
        (with_stock i.product w (release_reservation (pos i.quantity) (some user)) l.stocks)
  map_err stock_error (create (sale_of pk user w i) (record l { stocks = stocks }))

unfoldable pub sell_items : ℕ → ℕ → List OrderItem → Ledger → Result Error Ledger
sell_items pk user [] l = ok l
sell_items pk user (i ∷ is) l = do l' ← sell_item pk user i l; sell_items pk user is l'

-- The fulfillments and their history while the sellers of the order are visited.
pub record Fulfilled : Type 0 where
  pub fulfillments : List (ℕ × SellerOrderFulfillment)
  pub history : List SellerOrderFulfillmentHistory
  pub next_key : ℕ

unfoldable pub paid_history : ℕ → ℕ → SellerOrderFulfillmentHistory
paid_history user k = record {
  fulfillment = k;
  old_status = pending_payment;
  new_status = OrderStatus.paid;
  changed_by = some user;
}

-- One round of the loop over the sellers: `get_or_create`, and a first payment is noted.
unfoldable pub pay_seller : ℕ → ℕ → ℕ → Fulfilled → Fulfilled
unfolding paid_history
pay_seller order user seller f = elim (find_fulfillment order seller f.fulfillments) [
  | none ↦ record {
    fulfillments =
        (f.next_key, record { order = order; seller = seller; status = OrderStatus.paid })
        ∷ f.fulfillments;
    history = paid_history user f.next_key ∷ f.history;
    next_key = f.next_key + 1;
  }
  | some (k, old) ↦
      if is_pending_payment old.status
      then record f {
        fulfillments = save k (record old { status = OrderStatus.paid }) f.fulfillments;
        history = paid_history user k ∷ f.history;
      }
      else f
]

unfoldable pub pay_sellers : ℕ → ℕ → List ℕ → Fulfilled → Fulfilled
pay_sellers order user [] f = f
pay_sellers order user (s ∷ ss) f = pay_sellers order user ss (pay_seller order user s f)

abbrev provider_code : Provider → ℕ
provider_code mock = 0
provider_code cash_on_delivery = 1
provider_code zarinpal = 2
provider_code stripe = 3

abbrev is_capture : AttemptStatus → Bool
is_capture success = true
is_capture AttemptStatus.refunded = true
is_capture _ = false

-- `unique_provider_verified_capture_reference`: another capture of the provider has the reference.
unfoldable pub reference_taken : ℕ → Provider → String → List (ℕ × Payment) → Bool
reference_taken pk provider reference [] = false
reference_taken pk provider reference ((k, p) ∷ ps) =
    (not (k == pk)
      && (provider_code p.provider == provider_code provider)
      && is_capture p.status
      && not (str_eq reference "")
      && str_eq p.gateway_reference reference)
    || reference_taken pk provider reference ps

-- `Order.mark_paid`
unfoldable pub mark_paid : ℕ → Order → Order
mark_paid at o =
    with_total (record o {
      status = OrderStatus.paid;
      payment_status = PaymentStatus.paid;
      paid_at = some at;
    })

-- The guards, on the locked order and the locked payment.
unfoldable pub check_payable : ℕ → Order → Payment → List (ℕ × Payment) → Result Error (Unit {0})
check_payable pk order p payments = do
  raise_if (not (is_pending p.status)) not_pending
  raise_if (not (is_pending_payment order.status && is_open order.payment_status))
      not_awaiting_payment
  raise_if (has_other_success p.order pk payments) already_paid
  raise_if (not (p.amount == order.total_amount)) amount_mismatch

unfoldable pub captured : ℕ → String → Payment → Payment
captured at reference p = record p {
  status = success;
  gateway_reference = reference;
  paid_at = some at;
}

-- `distinct` is the database's, on the sellers of the items.
unfoldable pub mark_success :
    (List ℕ → List ℕ) → ℕ → String → Option Moment → ℕ → Market → Result Error Market
mark_success distinct now reference confirmed_at pk db = do
  p ← or_raise (lookup pk db.payments) does_not_exist
  order ← or_raise (lookup p.order db.orders) does_not_exist
  check_payable pk order p db.payments
  ledger ← sell_items pk p.user (items_of p.order db.items) db.ledger
  at ← capture_time now confirmed_at
  raise_if (reference_taken pk p.provider reference db.payments) integrity
  let payments = save pk (captured at reference p) db.payments
  let start : Fulfilled = record {
    fulfillments = db.fulfillments;
    history = db.fulfillment_history;
    next_key = db.next_key;
  }
  let done =
      pay_sellers p.order p.user (distinct (sellers_of db.catalog (items_of p.order db.items)))
        start
  let entry : OrderStatusHistory = record {
    order = p.order;
    old_status = some order.status;
    new_status = OrderStatus.paid;
    changed_by = some p.user;
  }
  ok (record db {
    ledger = ledger;
    orders = save p.order (mark_paid at order) db.orders;
    fulfillments = done.fulfillments;
    fulfillment_history = done.history;
    order_history = entry ∷ db.order_history;
    payments =
        cancel_attempts p.order (some pk) at "Another payment attempt completed this order."
          payments;
    payment_events = cancel_events p.order (some pk) none payments db.payment_events;
    next_key = done.next_key;
  })
