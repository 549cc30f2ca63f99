-- ===== src/Settlements.antt =====
-- apps/settlements: the ledger of the sellers.
pub mod Row
pub mod Failure
pub mod Share
pub mod Build
pub mod Capture
pub mod Policy
pub mod Payout
pub mod Refund
