-- ===== src/Lib.antt =====
-- A model of the flow of goods and money in the Mallbyte API, a multi-seller shop in Django:
-- stock and its movements and transfers, carts and discounts, checkout, payments, cancellations,
-- shipments, returns, and the ledger of the sellers.
--
-- How the parts interact. A checkout turns a cart into an order, reserves its units in warehouses
-- and uses up a discount. A payment attempt for the order either completes, which sells the
-- reserved units, marks the order and its sellers paid and ends the other attempts; or it fails
-- or is cancelled. Cancelling the order instead gives the reservations and the discount back and
-- ends the attempts. A paid order is shipped seller by seller, and the order's status follows
-- from those of its sellers. Delivered items may be returned: the request is submitted, reviewed,
-- received and refunded. Every change of a stock counter other than a reservation is a stored
-- movement. Where the ledger of settlements is kept, the amounts of an order are allocated to its
-- items; a captured payment credits the sellers, and refunds and payouts are taken from their
-- balances.
--
-- Files and code.
-- - Common: numbers, results of code that raises, tables, and the account
--   (apps/accounts/models.py).
-- - Inventory/Stock, Movement, Transfer: `Stock`, `StockMovement` and `StockTransfer` of
--   apps/inventory/models.py, each method a function of the same name; the low stock alert is
--   `create_low_stock_notification_if_needed` of apps/inventory/services.py. Inventory/Session
--   runs any sequence of these calls, and a call that raises changes nothing. Inventory/Place
--   sees a method of one row at every place.
-- - Market/Row, Market/State: the records of apps/orders/models.py, apps/discounts/models.py,
--   apps/payments/models.py and apps/shipping/models.py, and the tables they stand in.
-- - Discounts, Discounts/Service: `Discount` of apps/discounts/models.py and
--   apps/discounts/services.py.
-- - Orders/Total, Orders/Cancel: `Order.calculate_total`, `Order.save` and `Order.cancel` of
--   apps/orders/models.py. Orders/Cart: `CartViewSet` of apps/orders/views.py with its
--   serializers. Orders/Progress: `seller_status` and `update_status` of apps/orders/views.py.
--   Orders/Checkout: `CheckoutSerializer` of apps/orders/serializers.py.
--   Orders/Query: tests and queries that the components share.
-- - Payments/Complete, Payments/Lifecycle, Payments/Attempt: `Payment.mark_success`,
--   `mark_failed` and `cancel` of apps/payments/models.py and `PaymentCreateSerializer` of
--   apps/payments/serializers.py.
-- - Shipping/Status, Shipping/Create, Shipping/Transition: `Shipment` of apps/shipping/models.py.
-- - Returns/Row: the records of apps/returns/models.py, with amounts in hundredths as their
--   columns hold them. Returns/Submit: `create_return_request` of apps/returns/services.py.
--   Returns/Review: its other services, each a function of the same name. Returns/Life: any of
--   them, one after another.
-- - Settlements/Row: the records of apps/settlements/models.py, with amounts in hundredths.
--   Settlements/Share, Build, Capture, Payout, Refund: `allocate`, `build_order_allocations`,
--   `post_captured_payment` with `seller_balance`, `post_confirmed_payout` and
--   `post_verified_refund` of apps/settlements/services.py; Refund/Line is the loop over the lines
--   of a refund, Refund/Replay the comparison with an earlier one and Refund/Check its guards.
--   Settlements/Policy: `payout_eligibility` of apps/settlements/settlement_policy.py.
-- - Examples: runs of a small shop, and the theorems applied to them.
--
-- How the code is modelled. An atomic block is a function into a result: an error leaves the
-- tables as they were. A method that locks its row is a function of the stored row. The clock is
-- an argument, one reading for each call. Keys come from a counter. Tables and logs have their
-- newest row first, the items of an order their oldest. A stock row is found by its product and
-- its warehouse, which a unique constraint makes a key. Counts and money are natural numbers,
-- which check constraints keep them, and signed quantities are integers. Money columns hold whole
-- units; a percentage of money is exact in hundredths, and the rounding of a column is a
-- parameter `store`. Python's `strip` and `upper`, the database's DISTINCT and the quotients of
-- Python's `decimal` are parameters too. The services of the settlements read the tables of the
-- shop; of these they change only a refunded payment.
-- Loops are recursion over the list that they visit, so no fuel is needed.
--
-- What is not modelled: automatic time stamps, notes, reasons and other free texts where no
-- operation reads them; notifications, other than the request of a low stock alert; the upper
-- ends of the columns' ranges; the rounding of an approved return to hundredths, which amounts
-- here are; rows of `DiscountUsage` without an order, which the code does not make; the calls
-- from checkout and payment into the ledger of settlements, which a setting switches off by
-- default; request handling, permissions and output; the other apps.
pub mod Common
pub mod Inventory
pub mod Market
pub mod Discounts
pub mod Orders
pub mod Payments
pub mod Shipping
pub mod Returns
pub mod Settlements
pub mod Examples
