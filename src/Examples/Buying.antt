-- ===== src/Examples/Buying.antt =====
-- A sale, its payment and its cancellation.
use mallbyte_api.Common.{
  ℕ, ◌+◌, ◌<◌, ◌≡◌, ◌≢◌, ◌⊎◌, refl, true, Option, List, [], arith, ok, none, some, ◌+ℤ◌, ◌-ℤ◌,
  int_laws,
}
use mallbyte_api.Common.Table.{lookup, IsKeyed}
use mallbyte_api.Market.Row.{CartItem, Discount, Order, Payment, AttemptStatus, pending_payment}
use mallbyte_api.Inventory.Stock.Table.{AllSound}
use mallbyte_api.Inventory.Movement.Effect.{quantity_at, reserved_at}
use mallbyte_api.Inventory.Movement.Audit.{IsRecorded}
use mallbyte_api.Orders.Query.{is_pending_payment, is_open}
use mallbyte_api.Orders.Checkout.Effect.{price_of}
use mallbyte_api.Orders.Checkout.Placed.{checkout_effect}
use mallbyte_api.Orders.Cancel.Effect.{cancelled_order, cancel_effect, cancel-excludes-payment}
use mallbyte_api.Orders.Cancel.Refund.{uses_of, cancel-gives_back}
use mallbyte_api.Discounts.Service.Usage.{AllCounted}
use mallbyte_api.Payments.Attempt.Once.{IsOnce, unfinished}
use mallbyte_api.Payments.Complete.Sale.{taken_by}
use mallbyte_api.Payments.Complete.Capture.{
  mark_success_effect, mark_success-IsOnce, mark_success-IsRecorded,
}
use mallbyte_api.Payments.Lifecycle.Attempts.{create_payable}
use mallbyte_api.Payments.Lifecycle.Excluded.{mark_success-excludes-create}
use mallbyte_api.Inventory.Stock.{available_quantity, reserve, release_reservation, with_stock}
use mallbyte_api.Inventory.Movement
use mallbyte_api.Discounts.{
  validate_for_cart, is_started, is_expired, has_total_usage_left, has_user_usage_left,
  get_user_usage_count, cart_subtotal, calculate_discount_amount, get_eligible_subtotal,
  targeted_subtotal, is_eligible, total_price, count_usages,
}
use mallbyte_api.Discounts.Service.{
  validate_discount_for_cart, get_discount_by_code, find_code, apply_discount_to_order, has_usage,
}
use mallbyte_api.Orders.Total.{calculate_total, with_discount, with_total}
use mallbyte_api.Orders.Query.{find_fulfillment, items_of, sellers_of}
use mallbyte_api.Orders.Checkout.{
  checkout, validate, covers, order_items, order_item, add_fulfillment, apply_discount,
  available_stock, first_available, fits, new_item, new_order,
}
use mallbyte_api.Orders.Cancel
use mallbyte_api.Payments.Attempt.{
  cancel_attempts, cancel_events, cancelled_attempt, has_other_success,
}
use mallbyte_api.Payments.Complete.{
  aware, mark_success, capture_time, captured, check_payable, mark_paid, paid_history, pay_seller,
  pay_sellers, reference_taken, sale_of, sell_item, sell_items,
}
use mallbyte_api.Payments.Lifecycle
use mallbyte_api.Examples.Shop.{tenth, ali, request, shop, same, whole, ordered, sellers}
use mallbyte_api.Examples.Settled.{attempted, settled, given_up}

checked_out : checkout same same whole "A-1" 20 ali request shop ≡ ok (100, ordered)
unfolding checkout validate covers order_items order_item add_fulfillment apply_discount
    available_stock first_available fits new_item new_order ◌+ℤ◌ ◌-ℤ◌ validate_discount_for_cart
    get_discount_by_code find_code validate_for_cart is_started is_expired has_total_usage_left
    has_user_usage_left get_user_usage_count cart_subtotal calculate_discount_amount
    get_eligible_subtotal targeted_subtotal is_eligible total_price count_usages
    apply_discount_to_order has_usage available_quantity reserve with_stock find_fulfillment
    calculate_total with_discount with_total
checked_out = refl

tried : Lifecycle.create ali 100 ordered ≡ ok (104, attempted)
unfolding Lifecycle.create Lifecycle.existing_attempt Lifecycle.new_attempt Lifecycle.validate_order
tried = refl

paid_for : mark_success sellers 35 "R-1" (some (aware 30)) 104 attempted ≡ ok settled
unfolding mark_success capture_time captured check_payable mark_paid paid_history pay_seller
    pay_sellers reference_taken sale_of sell_item sell_items Movement.clean Movement.create
    Movement.get_or_create Movement.low_stock_alert Movement.moved_stock available_quantity
    release_reservation with_stock ◌+ℤ◌ ◌-ℤ◌ items_of sellers_of find_fulfillment calculate_total
    with_total cancel_attempts cancel_events cancelled_attempt has_other_success
paid_for = refl

cancelled : Cancel.cancel (some 3) 40 100 attempted ≡ ok given_up
unfolding Cancel.cancel Cancel.delete_usage Cancel.give_back Cancel.release_items
    Cancel.return_discount Cancel.usage_of available_quantity release_reservation with_stock
    items_of with_total calculate_total ◌+ℤ◌ ◌-ℤ◌ cancel_attempts cancel_events cancelled_attempt
cancelled = refl

no_items : items_of 100 shop.items ≡ []
unfolding items_of
no_items = refl

checkout_effect_example :
    (bought : List CartItem) × (discount : Option ℕ) × (validate same same whole 20 ali request shop
      ≡ ok (bought, discount))
    × (100 ≡ shop.next_key)
    × (price_of (items_of 100 ordered.items) ≡ cart_subtotal bought)
    × ((p v : ℕ)
        → (quantity_at p v ordered.ledger.stocks ≡ quantity_at p v shop.ledger.stocks)
          × (reserved_at p v ordered.ledger.stocks
              ≡ reserved_at p v shop.ledger.stocks + taken_by p v (items_of 100 ordered.items)))
    × (ordered.ledger.movements ≡ shop.ledger.movements)
    × AllSound ordered.ledger.stocks
checkout_effect_example =
    checkout_effect same same whole "A-1" 20 ali request 100 shop ordered checked_out no_items
      (omega arith, tt)

create_payable_example :
    (order : Order) × (p : Payment) × (lookup 100 attempted.orders ≡ some order)
    × (lookup 104 attempted.payments ≡ some p)
    × (p.order ≡ 100)
    × (p.status ≡ AttemptStatus.pending)
    × (p.amount ≡ order.total_amount)
    × (0 < p.amount)
    × (is_pending_payment order.status ≡ true)
    × (is_open order.payment_status ≡ true)
create_payable_example =
    create_payable ali 100 ordered tried
      (record { keyed = tt; below = tt; once = λ order. omega arith })

mark_success-excludes-create_example : Lifecycle.create ali 100 settled ≢ ok (105, settled)
mark_success-excludes-create_example =
    mark_success-excludes-create sellers 35 "R-1" (some (aware 30)) 104 attempted settled paid_for
      refl ali 105 settled

mark_success_effect_example :
    (p : Payment) × (order : Order) × (at : ℕ) × (((some (aware 30) ≡ none) × (at ≡ 35))
      ⊎ (some (aware 30) ≡ some (aware at)))
    × (lookup 104 attempted.payments ≡ some p)
    × (lookup p.order attempted.orders ≡ some order)
    × (p.amount ≡ order.total_amount)
    × (lookup 104 settled.payments ≡ some (captured at "R-1" p))
    × (lookup p.order settled.orders ≡ some (mark_paid at order))
    × (unfinished p.order (some 104) settled.payments ≡ 0)
    × ((q w : ℕ)
        → (quantity_at q w settled.ledger.stocks + taken_by q w (items_of p.order attempted.items)
            ≡ quantity_at q w attempted.ledger.stocks)
          × (reserved_at q w settled.ledger.stocks + taken_by q w (items_of p.order attempted.items)
              ≡ reserved_at q w attempted.ledger.stocks))
mark_success_effect_example =
    mark_success_effect sellers 35 "R-1" (some (aware 30)) 104 attempted settled paid_for

one_attempt : IsKeyed attempted.payments × IsOnce attempted.payments
one_attempt = ((refl, tt), λ order. ground arith)

mark_success-IsOnce_example : IsKeyed settled.payments × IsOnce settled.payments
mark_success-IsOnce_example =
    mark_success-IsOnce sellers 35 "R-1" (some (aware 30)) 104 attempted settled paid_for
      one_attempt

counted : AllSound attempted.ledger.stocks × IsRecorded attempted.ledger
counted = ((omega arith, tt), λ p w. grind int_laws)

mark_success-IsRecorded_example : AllSound settled.ledger.stocks × IsRecorded settled.ledger
mark_success-IsRecorded_example =
    mark_success-IsRecorded sellers 35 "R-1" (some (aware 30)) 104 attempted settled paid_for
      counted

cancel_effect_example :
    (order : Order) × (lookup 100 attempted.orders ≡ some order)
    × (order.status ≡ pending_payment)
    × (is_open order.payment_status ≡ true)
    × (lookup 100 given_up.orders ≡ some (cancelled_order 40 order))
    × (unfinished 100 none given_up.payments ≡ 0)
    × (given_up.ledger.movements ≡ attempted.ledger.movements)
    × ((p v : ℕ)
        → (quantity_at p v given_up.ledger.stocks ≡ quantity_at p v attempted.ledger.stocks)
          × (reserved_at p v given_up.ledger.stocks + taken_by p v (items_of 100 attempted.items)
              ≡ reserved_at p v attempted.ledger.stocks))
cancel_effect_example = cancel_effect (some 3) 40 100 attempted given_up cancelled

cancel-excludes-payment_example : mark_success sellers 60 "R-2" none 104 given_up ≢ ok settled
cancel-excludes-payment_example =
    cancel-excludes-payment (some 3) 40 100 attempted given_up settled cancelled sellers 60 "R-2"
      none 104 refl refl

abbrev tenth_used : Discount
tenth_used = record tenth { used_count = 1 }

attempted_counted : AllCounted attempted
unfolding count_usages
attempted_counted pk d found = record {
  counted = ground arith;
  within = λ n limit. ground arith;
  each = λ n user limit. ground arith;
}

cancel-gives_back_example :
    (uses_of 100 given_up.usages ≡ 0)
    × ((n : ℕ) × (tenth_used.used_count ≡ n + 1)
        × (lookup 9 given_up.discounts ≡ some (record tenth_used { used_count = n })))
    × AllCounted given_up
cancel-gives_back_example =
    cancel-gives_back (some 3) 40 100 attempted given_up cancelled attempted_counted 103 refl refl
      (omega arith) refl
