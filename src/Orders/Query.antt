-- ===== src/Orders/Query.antt =====
-- Tests on the statuses, and the queries that orders and payments share.
use mallbyte_api.Common.{
  ℕ, Bool, true, false, ◌&&◌, Option, none, some, List, [], ◌∷◌, ◌==◌, if◌then◌else◌,
}
use mallbyte_api.Market.Row.{
  OrderStatus, pending_payment, delivered, PaymentStatus, OrderItem, Product,
  SellerOrderFulfillment,
}

abbrev pub is_pending_payment : OrderStatus → Bool
is_pending_payment pending_payment = true
is_pending_payment _ = false

abbrev pub is_cancelled : OrderStatus → Bool
is_cancelled OrderStatus.cancelled = true
is_cancelled _ = false

abbrev pub is_paid_order : OrderStatus → Bool
is_paid_order OrderStatus.paid = true
is_paid_order _ = false

abbrev pub is_delivered : OrderStatus → Bool
is_delivered delivered = true
is_delivered _ = false

-- `not in {pending_payment, cancelled, refunded}`
abbrev pub is_live : OrderStatus → Bool
is_live pending_payment = false
is_live OrderStatus.cancelled = false
is_live OrderStatus.refunded = false
is_live _ = true

-- `in {unpaid, failed}`
abbrev pub is_open : PaymentStatus → Bool
is_open PaymentStatus.unpaid = true
is_open PaymentStatus.failed = true
is_open _ = false

abbrev pub is_paid : PaymentStatus → Bool
is_paid PaymentStatus.paid = true
is_paid _ = false

-- `order.items.all()`
unfoldable pub items_of : ℕ → List (ℕ × OrderItem) → List OrderItem
items_of order [] = []
items_of order ((k, i) ∷ is) = if i.order == order then i ∷ items_of order is else items_of order is

-- `order.items.values_list("product__seller_id")`
unfoldable pub sellers_of : (ℕ → Product) → List OrderItem → List ℕ
sellers_of catalog [] = []
sellers_of catalog (i ∷ is) = (catalog i.product).seller ∷ sellers_of catalog is

-- The fulfillment of a seller in an order.
unfoldable pub find_fulfillment :
    ℕ → ℕ → List (ℕ × SellerOrderFulfillment) → Option (ℕ × SellerOrderFulfillment)
find_fulfillment order seller [] = none
find_fulfillment order seller ((k, f) ∷ fs) =
    if (f.order == order) && (f.seller == seller)
    then some (k, f)
    else find_fulfillment order seller fs
