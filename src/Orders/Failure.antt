-- ===== src/Orders/Failure.antt =====
-- The exceptions of apps/orders: its own messages, and those of the methods that it calls.
use mallbyte_api.Inventory.Failure
use mallbyte_api.Discounts
use mallbyte_api.Discounts.Service

pub data Error : Type 0 where
  stock_error : Failure.Error → Error
  discount_invalid : Discounts.Error → Error
  discount_error : Service.ServiceError → Error
  does_not_exist integrity already_cancelled not_cancellable quantity_not_positive : Error
  cart_empty not_enough_stock not_paid : Error
  foreign_fulfillment not_fulfillable not_changeable fulfillment_not_paid not_seller : Error
