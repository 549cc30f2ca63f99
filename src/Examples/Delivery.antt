-- ===== src/Examples/Delivery.antt =====
-- A delivery.
use mallbyte_api.Common.Table.{lookup}
use mallbyte_api.Common.{
  ◌≡◌, ◌↔◌, refl, true, false, List, [], ◌∷◌, arith, none, some, ok, ◌+ℤ◌, ◌-ℤ◌,
}
use mallbyte_api.Market.Row.{Order, OrderStatus, pending_payment, processing, shipped, delivered}
use mallbyte_api.Orders.Query.{
  is_live, is_paid, is_delivered, items_of, sellers_of, find_fulfillment,
}
use mallbyte_api.Orders.Total.{calculate_total, with_total}
use mallbyte_api.Shipping.Status.{
  ensure_paid_order, has_legacy_active, statuses_of, all_of, any_of, is_shipped, is_begun,
  derived_status, moved_order, set_seller_status, sync_order_status,
}
use mallbyte_api.Shipping.Status.Sync.{derived_status_iff}
use mallbyte_api.Shipping.Create.{
  insert_sorted, sorted, choose, fulfillment_of, has_active, has_active_order, new_shipment,
  create_from_order,
}
use mallbyte_api.Shipping.Create.Fresh.{create-IsSingle}
use mallbyte_api.Shipping.Transition.{write, follow, mark_shipped}
use mallbyte_api.Shipping.Transition.Single.{IsSingle, Moves}
use mallbyte_api.Shipping.Transition.Change.{shipping, Change-IsSingle}
use mallbyte_api.Examples.Shop.{sellers}
use mallbyte_api.Examples.Settled.{settled}
use mallbyte_api.Examples.Parcel.{packed, sent}

packed_up : create_from_order sellers 100 (some 5) none none settled ≡ ok (105, packed)
unfolding create_from_order choose fulfillment_of has_active has_active_order insert_sorted
    new_shipment sorted ensure_paid_order has_legacy_active items_of sellers_of find_fulfillment
packed_up = refl

create-IsSingle_example :
    IsSingle packed
    × ((order : Order) × (lookup 100 settled.orders ≡ some order)
        × (is_paid order.payment_status ≡ true)
        × (is_live order.status ≡ true))
create-IsSingle_example =
    create-IsSingle sellers 100 (some 5) none none 105 settled packed packed_up (λ k. omega arith)

sent_off : mark_shipped "T" "" (some 5) 50 105 packed ≡ ok sent
unfolding mark_shipped follow write ensure_paid_order set_seller_status sync_order_status
    has_legacy_active statuses_of derived_status moved_order with_total calculate_total ◌+ℤ◌ ◌-ℤ◌
sent_off = refl

Change-IsSingle_example : Moves 105 packed sent × IsSingle sent
Change-IsSingle_example =
    Change-IsSingle 105 packed sent (shipping "T" "" (some 5) 50 sent_off) (λ k. ground arith)

abbrev half_sent : List OrderStatus
half_sent = shipped ∷ OrderStatus.paid ∷ []

derived_status_iff_example :
    ((derived_status false pending_payment half_sent ≡ delivered)
      ↔ (all_of is_delivered half_sent ≡ true))
    × ((derived_status false pending_payment half_sent ≡ shipped)
        ↔ ((all_of is_shipped half_sent ≡ true) × (all_of is_delivered half_sent ≡ false)))
    × ((derived_status false pending_payment half_sent ≡ processing)
        ↔ ((any_of is_begun half_sent ≡ true) × (all_of is_shipped half_sent ≡ false)))
    × ((derived_status false pending_payment half_sent ≡ OrderStatus.paid)
        ↔ (any_of is_begun half_sent ≡ false))
derived_status_iff_example = derived_status_iff pending_payment half_sent refl
