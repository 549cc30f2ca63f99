-- ===== src/Settlements/Failure.antt =====
-- What the services of the settlements raise: a `ValidationError` by its message, a row that
-- `objects.get` does not find, and an index out of range.

pub data Error : Type 0 where
  does_not_exist index_error : Error
  cannot_allocate empty_order has_snapshots gross_mismatch discount_exceeds : Error
  total_mismatch no_profile rate_out_of_range not_reconciled : Error
  not_captured missing_snapshots payment_mismatch currency_mismatch : Error
  evidence_required not_positive conflicting_key duplicate_reference : Error
  exceeds_eligible exceeds_balance : Error
  different_order payment_not_captured legacy_refunded return_not_approved : Error
  refund_currency breakdown_mismatch exceeds_captured items_not_unique : Error
  item_not_returned already_refunded unposted_capture invalid_line : Error
  exceeds_charged exceeds_approved negative_hold : Error
