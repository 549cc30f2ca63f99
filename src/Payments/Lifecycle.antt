-- ===== src/Payments/Lifecycle.antt =====
-- Payment attempts: their creation (`PaymentCreateSerializer` of apps/payments/serializers.py),
-- and `mark_failed` and `cancel` of apps/payments/models.py.
pub mod Attempts
pub mod Excluded
use Prim.Native.String.{String}
use mallbyte_api.Common.Account.{User}
use mallbyte_api.Common.Table.{lookup, save}
use mallbyte_api.Common.{
  ℕ, ◌+◌, Bool, true, false, not, ◌&&◌, ◌||◌, Option, none, some, List, [], ◌∷◌, ◌==◌,
  if◌then◌else◌, Result, ok, ◌>>=◌, ◌>>◌, raise_if, or_raise,
}
use mallbyte_api.Market.Row.{
  Order, Payment, PaymentEvent, Provider, mock, AttemptStatus, pending, payment_created,
}
use mallbyte_api.Market.State.{Market}
use mallbyte_api.Orders.Query.{is_pending_payment, is_open}
use mallbyte_api.Payments.Failure.{
  Error, does_not_exist, not_pending, not_awaiting_payment, cannot_be_cancelled, not_payer,
  order_total_zero, active_amount_mismatch,
}
use mallbyte_api.Payments.Attempt.{is_pending}

unfoldable pub validate_order : User → Order → Result Error (Unit {0})
validate_order user order = do
  raise_if (not (user.is_staff || user.is_superuser) && not (order.user == user.id)) not_payer
  raise_if (not (is_pending_payment order.status && is_open order.payment_status))
      not_awaiting_payment
  raise_if (order.total_amount == 0) order_total_zero

abbrev is_mock : Provider → Bool
is_mock mock = true
is_mock _ = false

-- The newest pending mock attempt of the order; the table has its newest row first.
unfoldable pub existing_attempt : ℕ → List (ℕ × Payment) → Option (ℕ × Payment)
existing_attempt order [] = none
existing_attempt order ((k, p) ∷ ps) =
    if (p.order == order) && is_mock p.provider && is_pending p.status
    then some (k, p)
    else existing_attempt order ps

unfoldable pub new_attempt : User → ℕ → Order → Payment
new_attempt user pk order = record {
  order = pk;
  user = order.user;
  provider = mock;
  status = pending;
  amount = order.total_amount;
  currency = "IRR";
  gateway_reference = "";
  failure_reason = "";
  paid_at = none;
  failed_at = none;
  cancelled_at = none;
  refunded_at = none;
  created_by = some user.id;
}

-- The key of the attempt to pay with: the pending one, or a new one.
unfoldable pub create : User → ℕ → Market → Result Error (ℕ × Market)
unfolding new_attempt
create user pk db = do
  order ← or_raise (lookup pk db.orders) does_not_exist
  validate_order user order
  elim (existing_attempt pk db.payments) [
    | some (k, p) ↦ do
      raise_if (not (p.amount == order.total_amount)) active_amount_mismatch
      ok (k, db)
    | none ↦ do
      let event : PaymentEvent = record {
        payment = db.next_key;
        event_type = payment_created;
        old_status = none;
        new_status = pending;
        created_by = some user.id;
      }
      ok (
        db.next_key,
        record db {
          payments = (db.next_key, new_attempt user pk order) ∷ db.payments;
          payment_events = event ∷ db.payment_events;
          next_key = db.next_key + 1;
        },
      )
  ]

unfoldable pub mark_failed : ℕ → String → ℕ → Market → Result Error Market
mark_failed now reason pk db = do
  p ← or_raise (lookup pk db.payments) does_not_exist
  raise_if (not (is_pending p.status)) not_pending
  let p' = record p { status = AttemptStatus.failed; failure_reason = reason; failed_at = some now }
  ok (record db { payments = save pk p' db.payments })

abbrev is_failed : AttemptStatus → Bool
is_failed AttemptStatus.failed = true
is_failed _ = false

unfoldable pub cancel : ℕ → String → ℕ → Market → Result Error Market
cancel now reason pk db = do
  p ← or_raise (lookup pk db.payments) does_not_exist
  raise_if (not (is_pending p.status || is_failed p.status)) cannot_be_cancelled
  let p' = record p {
    status = AttemptStatus.cancelled;
    failure_reason = reason;
    cancelled_at = some now;
  }
  ok (record db { payments = save pk p' db.payments })
