-- ===== src/Payments.antt =====
-- apps/payments: payment attempts, their completion, failure and cancellation.
pub mod Failure
pub mod Attempt
pub mod Complete
pub mod Lifecycle
