-- ===== src/Shipping/Status.antt =====
-- `_ensure_paid_order`, `_set_seller_status` and `_sync_order_status` of apps/shipping/models.py.
pub mod Sync
use mallbyte_api.Common.Table.{lookup, save}
use mallbyte_api.Common.{
  ℕ, zero, suc, ◌+◌, ◌-◌, ◌*◌, ◌/◌, ◌%◌, ◌≤◌, ◌<◌, min, ◌≡◌, refl, sym, ap, ◌∙◌, ◌≢◌, ◌↔◌, ◌⊎◌, inl,
  inr, Bool, true, false, not, ◌&&◌, ◌||◌, Option, none, some, List, [], ◌∷◌, ◌++◌, arith, ltb, leb,
  ◌==◌, if◌then◌else◌, Bool-cases, Option-cases, is_some, is_id, ℤ, pos, negsuc, pos_part, neg_part,
  sub_ℕ, ◌+ℤ◌, ◌-ℤ◌, ◌≤ℤ◌, ltb_ℤ, leb_ℤ, +ℤ_parts, -ℤ_parts, eq_of_parts, int_laws, Result, ok, err,
  ◌>>=◌, ◌>>◌, raise_if, or_raise, map_err, Result-cases,
}
use mallbyte_api.Market.Row.{
  Order, OrderStatus, pending_payment, paid, processing, shipped, delivered, SellerOrderFulfillment,
  OrderStatusHistory, SellerOrderFulfillmentHistory, Shipment, ShipmentStatus,
}
use mallbyte_api.Market.State.{Market}
use mallbyte_api.Orders.Query.{is_paid, is_live, is_delivered}
use mallbyte_api.Orders.Total.{with_total}
use mallbyte_api.Shipping.Failure.{Error, does_not_exist, not_paid_order}

abbrev pub order_code : OrderStatus → ℕ
order_code pending_payment = 0
order_code OrderStatus.paid = 1
order_code processing = 2
order_code OrderStatus.shipped = 3
order_code OrderStatus.delivered = 4
order_code OrderStatus.cancelled = 5
order_code OrderStatus.refunded = 6

abbrev pub same_status : OrderStatus → OrderStatus → Bool
same_status a b = order_code a == order_code b

unfoldable pub ensure_paid_order : Order → Result Error (Unit {0})
ensure_paid_order o =
    raise_if (not (is_paid o.payment_status && is_live o.status && not (is_delivered o.status)))
      not_paid_order

-- `exclude(status__in=[cancelled, returned])`
abbrev pub is_active : ShipmentStatus → Bool
is_active ShipmentStatus.cancelled = false
is_active ShipmentStatus.returned = false
is_active _ = true

-- An active shipment of the order as a whole, without a seller.
unfoldable pub has_legacy_active : ℕ → List (ℕ × Shipment) → Bool
has_legacy_active order [] = false
has_legacy_active order ((k, s) ∷ ss) =
    ((s.order == order) && not (is_some s.seller_fulfillment) && is_active s.status)
    || has_legacy_active order ss

-- `order.seller_fulfillments.values_list("status")`
unfoldable pub statuses_of : ℕ → List (ℕ × SellerOrderFulfillment) → List OrderStatus
statuses_of order [] = []
statuses_of order ((k, f) ∷ fs) =
    if f.order == order then f.status ∷ statuses_of order fs else statuses_of order fs

abbrev pub all_of : (OrderStatus → Bool) → List OrderStatus → Bool
all_of test [] = true
all_of test (s ∷ ss) = test s && all_of test ss

abbrev pub any_of : (OrderStatus → Bool) → List OrderStatus → Bool
any_of test [] = false
any_of test (s ∷ ss) = test s || any_of test ss

abbrev pub is_shipped : OrderStatus → Bool
is_shipped OrderStatus.shipped = true
is_shipped OrderStatus.delivered = true
is_shipped _ = false

abbrev pub is_begun : OrderStatus → Bool
is_begun processing = true
is_begun OrderStatus.shipped = true
is_begun OrderStatus.delivered = true
is_begun _ = false

abbrev pub is_empty : List OrderStatus → Bool
is_empty [] = true
is_empty (s ∷ ss) = false

-- The status of an order that follows from those of its sellers.
unfoldable pub derived_status : Bool → OrderStatus → List OrderStatus → OrderStatus
derived_status legacy_active fallback statuses =
    if legacy_active || is_empty statuses
    then fallback
    else if all_of is_delivered statuses
    then delivered
    else if all_of is_shipped statuses
    then shipped
    else if any_of is_begun statuses
    then processing
    else paid

-- The row of the order with its new status, and the time of its delivery set or taken back.
unfoldable pub moved_order : OrderStatus → ℕ → Order → Order
moved_order new at o = with_total (record o {
  status = new;
  delivered_at =
      if is_delivered new then some at else if is_delivered o.status then none else o.delivered_at;
})

unfoldable pub set_seller_status : Shipment → OrderStatus → Option ℕ → Market → Result Error Market
set_seller_status s new user db = elim s.seller_fulfillment [
  | none ↦ ok db
  | some k ↦ do
    f ← or_raise (lookup k db.fulfillments) does_not_exist
    let entry : SellerOrderFulfillmentHistory = record {
      fulfillment = k;
      old_status = f.status;
      new_status = new;
      changed_by = user;
    }
    ok (
        if same_status f.status new then db else record db {
          fulfillments = save k (record f { status = new }) db.fulfillments;
          fulfillment_history = entry ∷ db.fulfillment_history;
        })
]

-- `order` is the locked row under the key `pk`, `at` the time of a delivery.
unfoldable pub sync_order_status : ℕ → Order → OrderStatus → Option ℕ → ℕ → Market → Market
sync_order_status pk order fallback user at db =
    let new =
      derived_status (has_legacy_active pk db.shipments) fallback
        (statuses_of pk db.fulfillments) in
    let entry : OrderStatusHistory = record {
      order = pk;
      old_status = some order.status;
      new_status = new;
      changed_by = user;
    } in
    if same_status new order.status then db else record db {
      orders = save pk (moved_order new at order) db.orders;
      order_history = entry ∷ db.order_history;
    }
