-- ===== src/Market.antt =====
-- The rows of the commerce tables, and the tables together: carts, orders, payments, discounts,
-- fulfillments, and the stock ledger that they share.
pub mod Row
pub mod State
