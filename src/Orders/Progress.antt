-- ===== src/Orders/Progress.antt =====
-- The preparation of a paid order: `seller_status` and `update_status` of apps/orders/views.py with
-- their serializers, whose only choice of a status is `processing`.
pub mod Prepared
use mallbyte_api.Common.Account.{User}
use mallbyte_api.Common.Table.{lookup, save}
use mallbyte_api.Common.{
  ℕ, ◌+◌, Bool, true, false, not, ◌&&◌, ◌||◌, Option, none, some, List, [], ◌∷◌, ◌==◌,
  if◌then◌else◌, Result, ok, err, ◌>>=◌, ◌>>◌, raise_if, or_raise,
}
use mallbyte_api.Market.Row.{
  Product, Order, OrderItem, OrderStatus, pending_payment, paid, processing, PaymentStatus,
  SellerOrderFulfillment, SellerOrderFulfillmentHistory, OrderStatusHistory,
}
use mallbyte_api.Market.State.{Market}
use mallbyte_api.Orders.Failure.{
  Error, does_not_exist, not_seller, not_fulfillable, not_changeable, fulfillment_not_paid,
  not_paid,
}
use mallbyte_api.Orders.Total.{with_total}
use mallbyte_api.Orders.Query.{is_paid, is_paid_order, items_of, find_fulfillment}

-- `_get_seller_queryset`: an item of the order is of the seller.
unfoldable pub sells : ℕ → (ℕ → Product) → List OrderItem → Bool
sells seller catalog [] = false
sells seller catalog (i ∷ is) = ((catalog i.product).seller == seller) || sells seller catalog is

-- The part of the seller, made where there is none.
unfoldable pub get_fulfillment : ℕ → ℕ → Order → Market → (ℕ × SellerOrderFulfillment) × Market
get_fulfillment seller pk order db = elim (find_fulfillment pk seller db.fulfillments) [
  | some f ↦ (f, db)
  | none ↦
      let f : SellerOrderFulfillment = record {
        order = pk;
        seller = seller;
        status = if is_paid order.payment_status then order.status else pending_payment;
      } in
      (
        (db.next_key, f),
        record db { fulfillments = (db.next_key, f) ∷ db.fulfillments; next_key = db.next_key + 1 },
      )
]

abbrev pub is_closed : OrderStatus → Bool
is_closed OrderStatus.cancelled = true
is_closed OrderStatus.refunded = true
is_closed _ = false

-- `SellerOrderStatusUpdateSerializer`; the part is one of the order.
unfoldable pub check_seller_status : Order → SellerOrderFulfillment → Result Error (Unit {0})
check_seller_status order f = do
  raise_if (not (is_paid order.payment_status)) not_fulfillable
  raise_if (is_closed order.status) not_changeable
  raise_if (not (is_paid_order f.status)) fulfillment_not_paid

-- The order leaves `paid` for `processing`.
unfoldable pub start_processing : ℕ → ℕ → Order → Market → Market
unfolding with_total
start_processing user pk order db = record db {
  orders = save pk (with_total (record order { status = processing })) db.orders;
  order_history =
      record {
        order = pk;
        old_status = some order.status;
        new_status = processing;
        changed_by = some user;
      }
      ∷ db.order_history;
}

-- `is_seller` is the property of the user.
unfoldable pub seller_status : Bool → User → ℕ → Market → Result Error Market
unfolding sells get_fulfillment check_seller_status start_processing
seller_status is_seller user pk db = do
  raise_if (not is_seller) not_seller
  order ← or_raise (lookup pk db.orders) does_not_exist
  raise_if (not (sells user.id db.catalog (items_of pk db.items))) does_not_exist
  let ((k, f), db₁) = get_fulfillment user.id pk order db
  check_seller_status order f
  let entry : SellerOrderFulfillmentHistory = record {
    fulfillment = k;
    old_status = f.status;
    new_status = processing;
    changed_by = some user.id;
  }
  let db₂ : Market = record db₁ {
    fulfillments = save k (record f { status = processing }) db₁.fulfillments;
    fulfillment_history = entry ∷ db₁.fulfillment_history;
  }
  ok (if is_paid_order order.status then start_processing user.id pk order db₂ else db₂)

-- `update_status`, which administrators of products may call.
unfoldable pub update_status : User → ℕ → Market → Result Error Market
unfolding start_processing
update_status user pk db = do
  order ← or_raise (lookup pk db.orders) does_not_exist
  raise_if (not (is_paid_order order.status && is_paid order.payment_status)) not_paid
  ok (start_processing user.id pk order db)
