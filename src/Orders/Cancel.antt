-- ===== src/Orders/Cancel.antt =====
-- `Order.cancel` of apps/orders/models.py.

pub mod Effect
pub mod Refund
use mallbyte_api.Common.Table.{lookup, save}
use mallbyte_api.Common.{
  ℕ, ◌-◌, not, ◌&&◌, Option, none, some, List, [], ◌∷◌, ltb, ◌==◌, if◌then◌else◌, pos, Result, ok,
  ◌>>=◌, ◌>>◌, raise_if, or_raise, map_err,
}
use mallbyte_api.Inventory.Stock.{Stock, release_reservation, with_stock}
use mallbyte_api.Inventory.Movement.{Ledger}
use mallbyte_api.Market.Row.{OrderItem, Discount, DiscountUsage, OrderStatus}
use mallbyte_api.Market.State.{Market}
use mallbyte_api.Payments.Attempt.{cancel_attempts, cancel_events}
use mallbyte_api.Orders.Failure.{
  Error, stock_error, does_not_exist, already_cancelled, not_cancellable,
}
use mallbyte_api.Orders.Total.{with_total}
use mallbyte_api.Orders.Query.{is_pending_payment, is_cancelled, is_open, items_of}

-- The loop over the items: each gives its reservation back, if it has a warehouse.
unfoldable pub release_items : Option ℕ → List OrderItem → List Stock → Result Error (List Stock)
release_items user [] stocks = ok stocks
release_items user (i ∷ is) stocks = do
  stocks' ← elim i.warehouse [
    | none ↦ ok stocks
    | some w ↦
        map_err stock_error
          (with_stock i.product w (release_reservation (pos i.quantity) user) stocks)
  ]
  release_items user is stocks'

-- `filter(order=order).first()`, and its row deleted.
unfoldable pub usage_of : ℕ → List (ℕ × DiscountUsage) → Option DiscountUsage
usage_of order [] = none
usage_of order ((k, u) ∷ us) = if u.order == order then some u else usage_of order us

unfoldable pub delete_usage : ℕ → List (ℕ × DiscountUsage) → List (ℕ × DiscountUsage)
delete_usage order [] = []
delete_usage order ((k, u) ∷ us) = if u.order == order then us else (k, u) ∷ delete_usage order us

-- `filter(pk=…, used_count__gt=0).update(used_count=F("used_count") - 1)`
unfoldable pub give_back : ℕ → List (ℕ × Discount) → List (ℕ × Discount)
give_back pk [] = []
give_back pk ((k, d) ∷ ds) =
    (k, if (k == pk) && ltb 0 d.used_count then record d { used_count = d.used_count - 1 } else d)
    ∷ give_back pk ds

-- The discount of the order, if it used one, may be used again.
unfoldable pub return_discount : ℕ → Market → Market
return_discount pk db = elim (usage_of pk db.usages) [
  | none ↦ db
  | some u ↦ record db {
    usages = delete_usage pk db.usages;
    discounts = give_back u.discount db.discounts;
  }
]

unfoldable pub cancel : Option ℕ → ℕ → ℕ → Market → Result Error Market
cancel user now pk db = do
  order ← or_raise (lookup pk db.orders) does_not_exist
  raise_if (is_cancelled order.status) already_cancelled
  raise_if (not (is_pending_payment order.status && is_open order.payment_status)) not_cancellable
  stocks ← release_items user (items_of pk db.items) db.ledger.stocks
  let db' = return_discount pk db
  let ledger : Ledger = record db.ledger { stocks = stocks }
  ok (record db' {
    ledger = ledger;
    payments = cancel_attempts pk none now "Order cancelled." db.payments;
    payment_events = cancel_events pk none user db.payments db.payment_events;
    orders =
        save pk
          (with_total (record order { status = OrderStatus.cancelled; cancelled_at = some now }))
          db.orders;
  })
