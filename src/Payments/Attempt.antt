-- ===== src/Payments/Attempt.antt =====
-- The pending attempts of an order, which end when the order is cancelled or another attempt
-- completes it.
pub mod Once
use Prim.Native.String.{String}
use mallbyte_api.Common.{
  ℕ, Bool, true, false, not, ◌&&◌, ◌||◌, Option, some, List, [], ◌∷◌, ◌==◌, if◌then◌else◌, is_id,
}
use mallbyte_api.Market.Row.{
  Payment, PaymentEvent, AttemptStatus, pending, success, payment_cancelled,
}

abbrev pub is_pending : AttemptStatus → Bool
is_pending pending = true
is_pending _ = false

abbrev pub is_success : AttemptStatus → Bool
is_success success = true
is_success _ = false

-- The pending attempts of `order`, without the one with the key `except`.
abbrev pub is_other_attempt : ℕ → Option ℕ → ℕ → Payment → Bool
is_other_attempt order except k p =
    (p.order == order) && is_pending p.status && not (is_id except k)

unfoldable pub cancelled_attempt : ℕ → String → Payment → Payment
cancelled_attempt now reason p = record p {
  status = AttemptStatus.cancelled;
  cancelled_at = some now;
  failure_reason = reason;
}

-- The loop that cancels them.
unfoldable pub cancel_attempts : ℕ → Option ℕ → ℕ → String → List (ℕ × Payment) → List (ℕ × Payment)
unfolding cancelled_attempt
cancel_attempts order except now reason [] = []
cancel_attempts order except now reason ((k, p) ∷ ps) =
    (k, if is_other_attempt order except k p then cancelled_attempt now reason p else p)
    ∷ cancel_attempts order except now reason ps

-- The events that the loop writes.
unfoldable pub cancel_events :
    ℕ → Option ℕ → Option ℕ → List (ℕ × Payment) → List PaymentEvent → List PaymentEvent
cancel_events order except by [] log = log
cancel_events order except by ((k, p) ∷ ps) log = cancel_events order except by ps (
    if is_other_attempt order except k p
    then record {
      payment = k;
      event_type = payment_cancelled;
      old_status = some pending;
      new_status = AttemptStatus.cancelled;
      created_by = by;
    }
      ∷ log
    else log)

-- `Payment.objects.filter(order=…, status=SUCCESS).exclude(pk=…).exists()`
unfoldable pub has_other_success : ℕ → ℕ → List (ℕ × Payment) → Bool
has_other_success order pk [] = false
has_other_success order pk ((k, p) ∷ ps) =
    ((p.order == order) && is_success p.status && not (k == pk)) || has_other_success order pk ps
