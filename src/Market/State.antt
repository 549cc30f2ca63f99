-- ===== src/Market/State.antt =====
-- The commerce tables. The items of an order stand in the order in which they were added; every
-- other table and log has its newest row first.
use mallbyte_api.Common.{ℕ, List}
use mallbyte_api.Inventory.Movement.{Ledger}
use mallbyte_api.Market.Row.{
  Product, CartItem, Order, OrderItem, SellerOrderFulfillment, SellerOrderFulfillmentHistory,
  OrderStatusHistory, Discount, DiscountUsage, Payment, PaymentEvent, Shipment, ShipmentEvent,
}

-- The products are read and not changed.
pub record Market : Type 0 where
  pub catalog : ℕ → Product
  pub ledger : Ledger
  pub active_warehouses : List ℕ
  pub carts : List (ℕ × List CartItem)
  pub orders : List (ℕ × Order)
  pub items : List (ℕ × OrderItem)
  pub fulfillments : List (ℕ × SellerOrderFulfillment)
  pub fulfillment_history : List SellerOrderFulfillmentHistory
  pub order_history : List OrderStatusHistory
  pub discounts : List (ℕ × Discount)
  pub usages : List (ℕ × DiscountUsage)
  pub payments : List (ℕ × Payment)
  pub payment_events : List PaymentEvent
  pub shipments : List (ℕ × Shipment)
  pub shipment_events : List ShipmentEvent
  pub next_key : ℕ
