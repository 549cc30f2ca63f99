-- ===== src/Examples/Settled.antt =====
-- The shop after a payment attempt, after its success, and after a cancellation instead.

use mallbyte_api.Common.{none, some, [], ◌∷◌, negsuc}
use mallbyte_api.Inventory.Stock.{Stock}
use mallbyte_api.Inventory.Movement.{StockMovement, Ledger, sale, payment}
use mallbyte_api.Market.Row.{
  Order, OrderStatus, PaymentStatus, pending_payment, Payment, mock, AttemptStatus, success,
  PaymentEvent, payment_created, payment_cancelled,
}
use mallbyte_api.Market.State.{Market}
use mallbyte_api.Examples.Shop.{mugs, bought, tenth, stocked, fresh_order, seller_order, ordered}

abbrev pub attempt : Payment
attempt = record {
  order = 100;
  user = 3;
  provider = mock;
  status = AttemptStatus.pending;
  amount = 98;
  currency = "IRR";
  gateway_reference = "";
  failure_reason = "";
  paid_at = none;
  failed_at = none;
  cancelled_at = none;
  refunded_at = none;
  created_by = some 3;
}

abbrev pub attempt_event : PaymentEvent
attempt_event = record {
  payment = 104;
  event_type = payment_created;
  old_status = none;
  new_status = AttemptStatus.pending;
  created_by = some 3;
}

-- The tables with a payment attempt for the order.
abbrev pub attempted : Market
attempted = record ordered {
  payments = (104, attempt) ∷ [];
  payment_events = attempt_event ∷ [];
  next_key = 105;
}

abbrev pub sold_mugs : Stock
sold_mugs = record mugs { quantity = 6; updated_by = some 3 }

abbrev pub sold : StockMovement
sold = record {
  product = 1;
  warehouse = 1;
  movement_type = sale;
  quantity = negsuc 3;
  reference_id = payment 104;
  before_quantity = 10;
  after_quantity = 6;
  created_by = some 3;
}

abbrev pub emptied : Ledger
emptied = record {
  stocks = sold_mugs ∷ [];
  movements = (2, sold) ∷ (1, bought) ∷ [];
  next_movement = 3;
  alerts = [];
}

abbrev pub paid_order : Order
paid_order = record fresh_order {
  status = OrderStatus.paid;
  payment_status = PaymentStatus.paid;
  paid_at = some 30;
}

-- The tables after the payment.
abbrev pub settled : Market
settled = record attempted {
  ledger = emptied;
  orders = (100, paid_order) ∷ [];
  fulfillments = (102, seller_order OrderStatus.paid) ∷ [];
  fulfillment_history =
      record {
        fulfillment = 102;
        old_status = pending_payment;
        new_status = OrderStatus.paid;
        changed_by = some 3;
      }
      ∷ [];
  order_history =
      record {
        order = 100;
        old_status = some pending_payment;
        new_status = OrderStatus.paid;
        changed_by = some 3;
      }
      ∷ ordered.order_history;
  payments =
      (104, record attempt { status = success; gateway_reference = "R-1"; paid_at = some 30 }) ∷ [];
}

-- The tables after the cancellation of the order instead.
abbrev pub given_up : Market
given_up = record attempted {
  ledger = record stocked { stocks = record mugs { updated_by = some 3 } ∷ [] };
  orders =
      (100, record fresh_order { status = OrderStatus.cancelled; cancelled_at = some 40 }) ∷ [];
  discounts = (9, tenth) ∷ [];
  usages = [];
  payments =
      (
        104,
        record attempt {
          status = AttemptStatus.cancelled;
          cancelled_at = some 40;
          failure_reason = "Order cancelled.";
        },
      )
      ∷ [];
  payment_events =
      record {
        payment = 104;
        event_type = payment_cancelled;
        old_status = some AttemptStatus.pending;
        new_status = AttemptStatus.cancelled;
        created_by = some 3;
      }
      ∷ attempt_event
      ∷ [];
}
