-- ===== src/Market/Row.antt =====
-- The models of apps/orders, apps/discounts, apps/payments and apps/shipping as records and
-- enumerations. Money is in the whole units that the columns hold.
use Prim.Native.String.{String}
use mallbyte_api.Common.{ℕ, Bool, Option, List}

-- What the components read of a product.
pub record Product : Type 0 where
  pub seller : ℕ
  pub category : ℕ
  pub name : String
  pub sku : String

pub record CartItem : Type 0 where
  pub product : ℕ
  pub quantity : ℕ
  pub unit_price : ℕ

pub data OrderStatus : Type 0 where
  pending_payment paid processing shipped delivered cancelled refunded : OrderStatus

pub data PaymentStatus : Type 0 where
  unpaid paid failed refunded : PaymentStatus

-- The address snapshot of an order and of a shipment.
pub record Address : Type 0 where
  pub receiver_name : String
  pub receiver_phone : String
  pub province : String
  pub city : String
  pub address : String
  pub postal_code : String

pub record Order : Type 0 where
  pub order_number : String
  pub user : ℕ
  pub status : OrderStatus
  pub payment_status : PaymentStatus
  pub subtotal : ℕ
  pub discount_amount : ℕ
  pub shipping_cost : ℕ
  pub tax_amount : ℕ
  pub total_amount : ℕ
  pub address : Address
  pub customer_note : String
  pub paid_at : Option ℕ
  pub cancelled_at : Option ℕ
  pub delivered_at : Option ℕ

pub record OrderItem : Type 0 where
  pub order : ℕ
  pub product : ℕ
  pub warehouse : Option ℕ
  pub product_name : String
  pub product_sku : String
  pub quantity : ℕ
  pub unit_price : ℕ
  pub total_price : ℕ

pub record SellerOrderFulfillment : Type 0 where
  pub order : ℕ
  pub seller : ℕ
  pub status : OrderStatus

pub record SellerOrderFulfillmentHistory : Type 0 where
  pub fulfillment : ℕ
  pub old_status : OrderStatus
  pub new_status : OrderStatus
  pub changed_by : Option ℕ

pub record OrderStatusHistory : Type 0 where
  pub order : ℕ
  pub old_status : Option OrderStatus
  pub new_status : OrderStatus
  pub changed_by : Option ℕ

pub data DiscountType : Type 0 where
  percentage fixed_amount : DiscountType

pub record Discount : Type 0 where
  pub code : String
  pub discount_type : DiscountType
  pub value : ℕ
  pub max_discount_amount : Option ℕ
  pub min_order_amount : ℕ
  pub usage_limit_total : Option ℕ
  pub usage_limit_per_user : Option ℕ
  pub used_count : ℕ
  pub start_at : Option ℕ
  pub end_at : Option ℕ
  pub is_active : Bool
  pub applicable_products : List ℕ
  pub applicable_categories : List ℕ

pub record DiscountUsage : Type 0 where
  pub discount : ℕ
  pub user : ℕ
  pub order : ℕ
  pub code_snapshot : String
  pub discount_amount : ℕ

pub data Provider : Type 0 where
  mock cash_on_delivery zarinpal stripe : Provider

pub data AttemptStatus : Type 0 where
  pending success failed cancelled refunded : AttemptStatus

pub record Payment : Type 0 where
  pub order : ℕ
  pub user : ℕ
  pub provider : Provider
  pub status : AttemptStatus
  pub amount : ℕ
  pub currency : String
  pub gateway_reference : String
  pub failure_reason : String
  pub paid_at : Option ℕ
  pub failed_at : Option ℕ
  pub cancelled_at : Option ℕ
  pub refunded_at : Option ℕ
  pub created_by : Option ℕ

pub data EventType : Type 0 where
  payment_created payment_cancelled : EventType

pub record PaymentEvent : Type 0 where
  pub payment : ℕ
  pub event_type : EventType
  pub old_status : Option AttemptStatus
  pub new_status : AttemptStatus
  pub created_by : Option ℕ

pub data Carrier : Type 0 where
  post dhl tipax snapbox other : Carrier

pub data ShipmentStatus : Type 0 where
  pending ready_to_ship shipped in_transit out_for_delivery delivered : ShipmentStatus
  failed returned cancelled : ShipmentStatus

pub record Shipment : Type 0 where
  pub order : ℕ
  pub seller_fulfillment : Option ℕ
  pub user : ℕ
  pub carrier : Carrier
  pub status : ShipmentStatus
  pub tracking_number : String
  pub tracking_url : String
  pub shipping_cost : ℕ
  pub address : Address
  pub shipped_at : Option ℕ
  pub delivered_at : Option ℕ
  pub cancelled_at : Option ℕ
  pub created_by : Option ℕ

pub record ShipmentEvent : Type 0 where
  pub shipment : ℕ
  pub old_status : Option ShipmentStatus
  pub new_status : ShipmentStatus
  pub created_by : Option ℕ
