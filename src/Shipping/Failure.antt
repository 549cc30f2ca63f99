-- ===== src/Shipping/Failure.antt =====
-- The exceptions of apps/shipping/models.py.
pub data Error : Type 0 where
  does_not_exist not_paid_order choose_seller no_seller_items no_items shipment_exists : Error
  not_pending not_shippable not_deliverable already_delivered already_cancelled : Error
