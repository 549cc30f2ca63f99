-- ===== src/Examples/Preparing.antt =====
-- The seller of a paid order starts to prepare it.
use mallbyte_api.Common.Account.{User}
use mallbyte_api.Common.Table.{lookup}
use mallbyte_api.Common.{
  ℕ, ◌≡◌, ◌≢◌, ◌⊎◌, refl, true, false, none, some, [], ◌∷◌, if◌then◌else◌, ok, ◌+ℤ◌, ◌-ℤ◌,
}
use mallbyte_api.Market.Row.{Order, OrderStatus, processing, SellerOrderFulfillment}
use mallbyte_api.Market.State.{Market}
use mallbyte_api.Orders.Query.{is_paid, is_paid_order, items_of, find_fulfillment}
use mallbyte_api.Orders.Progress.{is_closed, seller_status}
use mallbyte_api.Orders.Progress.Prepared.{seller_status_effect}
use mallbyte_api.Examples.Shop.{seller_order}
use mallbyte_api.Examples.Settled.{paid_order, settled}

abbrev seller : User
seller = record { id = 7; is_staff = false; is_superuser = false }

abbrev prepared : Market
prepared = record settled {
  orders = (100, record paid_order { status = processing }) ∷ [];
  fulfillments = (102, seller_order processing) ∷ [];
  fulfillment_history =
      record {
        fulfillment = 102;
        old_status = OrderStatus.paid;
        new_status = processing;
        changed_by = some 7;
      }
      ∷ settled.fulfillment_history;
  order_history =
      record {
        order = 100;
        old_status = some OrderStatus.paid;
        new_status = processing;
        changed_by = some 7;
      }
      ∷ settled.order_history;
}

preparing : seller_status true seller 100 settled ≡ ok prepared
unfolding seller_status items_of find_fulfillment ◌+ℤ◌ ◌-ℤ◌
preparing = refl

seller_status_effect_example :
    (order : Order) × (lookup 100 settled.orders ≡ some order)
    × (is_paid order.payment_status ≡ true)
    × (is_closed order.status ≡ false)
    × (k : ℕ) × (f : SellerOrderFulfillment) × ((find_fulfillment 100 7 settled.fulfillments
          ≡ some (k, f))
        ⊎ ((find_fulfillment 100 7 settled.fulfillments ≡ none)
            × (k ≡ settled.next_key)
            × (f.status ≡ order.status)))
    × (f.order ≡ 100)
    × (f.seller ≡ 7)
    × (is_paid_order f.status ≡ true)
    × (lookup k prepared.fulfillments ≡ some (record f { status = processing }))
    × ((j : ℕ) → j ≢ k → lookup j prepared.fulfillments ≡ lookup j settled.fulfillments)
    × (after : Order) × (lookup 100 prepared.orders ≡ some after)
    × (after.status ≡ (if is_paid_order order.status then processing else order.status))
    × (after.payment_status ≡ order.payment_status)
seller_status_effect_example = seller_status_effect true seller 100 settled prepared preparing
