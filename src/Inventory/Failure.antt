-- ===== src/Inventory/Failure.antt =====
-- The exceptions of apps/inventory/models.py: a `ValidationError` for each message, and a missing
-- row.
pub data Error : Type 0 where
  reserve_not_positive not_enough_available release_not_positive release_above_reserved : Error
  reserved_above_total movement_zero movement_must_be_positive movement_must_be_negative : Error
  movement_immutable movement_not_enough_stock movement_below_reserved : Error
  same_warehouse transfer_not_positive user_required not_pending own_transfer not_approved : Error
  not_member not_in_transit not_cancellable does_not_exist : Error
