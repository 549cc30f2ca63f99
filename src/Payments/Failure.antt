-- ===== src/Payments/Failure.antt =====
-- The exceptions of apps/payments: its own messages, and those of the stock methods.
use mallbyte_api.Inventory.Failure

pub data Error : Type 0 where
  stock_error : Failure.Error → Error
  does_not_exist integrity not_pending not_awaiting_payment already_paid amount_mismatch : Error
  no_warehouse naive_timestamp cannot_be_cancelled : Error
  not_payer order_total_zero active_amount_mismatch : Error
