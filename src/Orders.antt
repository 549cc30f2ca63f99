-- ===== src/Orders.antt =====
-- apps/orders: totals, checkout, cancellation and the status changes by staff and sellers.
pub mod Total
pub mod Failure
pub mod Query
pub mod Cancel
pub mod Checkout
pub mod Cart
pub mod Progress
