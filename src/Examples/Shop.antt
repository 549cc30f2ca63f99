-- ===== src/Examples/Shop.antt =====
-- A shop with one seller, one warehouse and one discount, and the tables after each step of a sale.
use Prim.Native.String.{String}
use mallbyte_api.Common.Account.{User}
use mallbyte_api.Common.{ℕ, ◌/◌, true, false, none, some, List, [], ◌∷◌, pos}
use mallbyte_api.Inventory.Stock.{Stock}
use mallbyte_api.Inventory.Movement.{StockMovement, Ledger, purchase, blank}
use mallbyte_api.Market.Row.{
  Product, CartItem, Address, Order, OrderItem, OrderStatus, pending_payment, unpaid,
  SellerOrderFulfillment, Discount, percentage, DiscountUsage,
}
use mallbyte_api.Market.State.{Market}
use mallbyte_api.Orders.Checkout.{Request}

abbrev pub ali : User
ali = record { id = 3; is_staff = false; is_superuser = false }

abbrev pub catalog : ℕ → Product
catalog p = record { seller = 7; category = 1; name = "Mug"; sku = "MUG" }

abbrev pub mugs : Stock
mugs = record {
  product = 1;
  warehouse = 1;
  quantity = 10;
  reserved_quantity = 0;
  low_stock_threshold = 5;
  updated_by = none;
}

abbrev pub bought : StockMovement
bought = record {
  product = 1;
  warehouse = 1;
  movement_type = purchase;
  quantity = pos 10;
  reference_id = blank;
  before_quantity = 0;
  after_quantity = 10;
  created_by = none;
}

abbrev pub cart : List CartItem
cart = record { product = 1; quantity = 4; unit_price = 25 } ∷ []

abbrev pub tenth : Discount
tenth = record {
  code = "TEN";
  discount_type = percentage;
  value = 10;
  max_discount_amount = some 50;
  min_order_amount = 20;
  usage_limit_total = some 2;
  usage_limit_per_user = some 1;
  used_count = 0;
  start_at = some 1;
  end_at = some 90;
  is_active = true;
  applicable_products = 1 ∷ [];
  applicable_categories = [];
}

abbrev pub stocked : Ledger
stocked = record {
  stocks = mugs ∷ [];
  movements = (1, bought) ∷ [];
  next_movement = 2;
  alerts = [];
}

abbrev pub shop : Market
shop = record {
  catalog = catalog;
  ledger = stocked;
  active_warehouses = 1 ∷ [];
  carts = (3, cart) ∷ [];
  orders = [];
  items = [];
  fulfillments = [];
  fulfillment_history = [];
  order_history = [];
  discounts = (9, tenth) ∷ [];
  usages = [];
  payments = [];
  payment_events = [];
  shipments = [];
  shipment_events = [];
  next_key = 100;
}

abbrev pub home : Address
home = record {
  receiver_name = "Ali";
  receiver_phone = "1";
  province = "P";
  city = "C";
  address = "A";
  postal_code = "9";
}

abbrev pub request : Request
request = record { address = home; customer_note = ""; discount_code = "TEN"; shipping_cost = 8 }

abbrev pub same : String → String
same s = s

-- A column of whole units cuts hundredths off.
abbrev pub whole : ℕ → ℕ
whole n = n / 100

abbrev pub sellers : List ℕ → List ℕ
sellers ss = ss

-- The order of the cart: 100 less a tenth, and 8 for shipping.
abbrev pub fresh_order : Order
fresh_order = record {
  order_number = "A-1";
  user = 3;
  status = pending_payment;
  payment_status = unpaid;
  subtotal = 100;
  discount_amount = 10;
  shipping_cost = 8;
  tax_amount = 0;
  total_amount = 98;
  address = home;
  customer_note = "";
  paid_at = none;
  cancelled_at = none;
  delivered_at = none;
}

abbrev pub four_mugs : OrderItem
four_mugs = record {
  order = 100;
  product = 1;
  warehouse = some 1;
  product_name = "Mug";
  product_sku = "MUG";
  quantity = 4;
  unit_price = 25;
  total_price = 100;
}

abbrev pub seller_order : OrderStatus → SellerOrderFulfillment
seller_order s = record { order = 100; seller = 7; status = s }

abbrev pub kept_mugs : Stock
kept_mugs = record mugs { reserved_quantity = 4; updated_by = some 3 }

abbrev pub holding : Ledger
holding = record stocked { stocks = kept_mugs ∷ [] }

abbrev pub used : DiscountUsage
used = record { discount = 9; user = 3; order = 100; code_snapshot = "TEN"; discount_amount = 10 }

-- The tables after the checkout.
abbrev pub ordered : Market
ordered = record shop {
  ledger = holding;
  carts = (3, []) ∷ [];
  orders = (100, fresh_order) ∷ [];
  items = (101, four_mugs) ∷ [];
  fulfillments = (102, seller_order pending_payment) ∷ [];
  order_history =
      record { order = 100; old_status = none; new_status = pending_payment; changed_by = some 3 }
      ∷ [];
  discounts = (9, record tenth { used_count = 1 }) ∷ [];
  usages = (103, used) ∷ [];
  next_key = 104;
}
