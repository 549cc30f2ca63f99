-- ===== src/Shipping.antt =====
-- apps/shipping: shipments, and the fulfillment and order statuses that follow from them.
pub mod Failure
pub mod Status
pub mod Create
pub mod Transition
