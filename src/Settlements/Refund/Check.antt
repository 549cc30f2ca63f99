-- ===== src/Settlements/Refund/Check.antt =====
-- The guards of `post_verified_refund`.
use Prim.Native.String.{String}
use text.Mathlib.Text.{◌==◌ as str_eq}
use mallbyte_api.Common.{
  ℕ, ◌+◌, ◌*◌, Bool, true, false, not, ◌&&◌, ◌||◌, none, some, List, [], ◌∷◌, ltb, ◌==◌,
  if◌then◌else◌, is_some, ℤ, pos, negsuc, ◌+ℤ◌, Result, ◌>>◌, raise_if,
}
use mallbyte_api.Market.Row.{OrderItem, Payment, AttemptStatus}
use mallbyte_api.Market.State.{Market}
use mallbyte_api.Returns.Row.{Status, ReturnRequest, ReturnItem, Returns}
use mallbyte_api.Settlements.Row.{
  ItemAllocation, ConfirmedRefund, SourceKey, capture_key, SellerLedgerEntry, Books,
}
use mallbyte_api.Settlements.Failure.{
  Error, duplicate_reference, different_order, payment_not_captured, legacy_refunded,
  return_not_approved, refund_currency, breakdown_mismatch, exceeds_captured, items_not_unique,
  item_not_returned, already_refunded, unposted_capture,
}
use mallbyte_api.Settlements.Capture.{is_captured, is_source}
use mallbyte_api.Settlements.Policy.{is_sale}
use mallbyte_api.Settlements.Refund.Line.{RefundLine, find_allocation, find_return_item}
use mallbyte_api.Settlements.Refund.Replay.{RefundData}

unfoldable pub has_refund_reference : ℕ → String → List (ℕ × ConfirmedRefund) → Bool
has_refund_reference payment reference [] = false
has_refund_reference payment reference ((k, r) ∷ rs) =
    ((r.payment == payment) && str_eq r.gateway_reference reference)
    || has_refund_reference payment reference rs

unfoldable pub has_refund : ℕ → List (ℕ × ConfirmedRefund) → Bool
has_refund payment [] = false
has_refund payment ((k, r) ∷ rs) = (r.payment == payment) || has_refund payment rs

-- The sum of the refunds of a payment.
unfoldable pub refunded_amount : ℕ → List (ℕ × ConfirmedRefund) → ℕ
refunded_amount payment [] = 0
refunded_amount payment ((k, r) ∷ rs) =
    (if r.payment == payment then r.amount else 0) + refunded_amount payment rs

abbrev pub is_refunded : AttemptStatus → Bool
is_refunded AttemptStatus.refunded = true
is_refunded _ = false

unfoldable pub is_approved : Status → Bool
is_approved Status.approved = true
is_approved Status.item_received = true
is_approved Status.inspecting = true
is_approved Status.refund_pending = true
is_approved Status.refunded = true
is_approved _ = false

abbrev pub is_closed : Status → Bool
is_closed Status.refunded = true
is_closed _ = false

abbrev pub is_amount : ℤ → ℕ → Bool
is_amount (pos n) m = n == m
is_amount (negsuc n) m = false

-- The sum of the breakdown.
unfoldable pub line_total : List RefundLine → ℤ
line_total [] = pos 0
line_total (line ∷ lines) = line.merchandise +ℤ line.shipping +ℤ line.tax +ℤ line_total lines

unfoldable pub has_line : ℕ → List RefundLine → Bool
has_line item [] = false
has_line item (line ∷ lines) = (line.order_item == item) || has_line item lines

-- `len({x["order_item_id"] for x in lines}) != len(lines)`
unfoldable pub repeats : List RefundLine → Bool
unfolding has_line
repeats [] = false
repeats (line ∷ lines) = has_line line.order_item lines || repeats lines

abbrev pub no_lines : List RefundLine → Bool
no_lines [] = true
no_lines (line ∷ lines) = false

-- Every line is of an item of the order with an allocation, and of the request.
unfoldable pub all_returned :
    (order request : ℕ)
    → List (ℕ × OrderItem)
    → List (ℕ × ItemAllocation)
    → List (ℕ × ReturnItem)
    → List RefundLine
    → Bool
unfolding find_allocation find_return_item
all_returned order request items rows returned [] = true
all_returned order request items rows returned (line ∷ lines) =
    is_some (find_allocation line.order_item order items rows)
    && is_some (find_return_item line.order_item request returned)
    && all_returned order request items rows returned lines

unfoldable pub has_sale : SourceKey → List SellerLedgerEntry → Bool
has_sale key [] = false
has_sale key (e ∷ es) = (is_source e.source_key key && is_sale e.kind) || has_sale key es

-- An allocation of a line whose sale is not in the ledger.
unfoldable pub lacks_sale :
    (payment order : ℕ)
    → List (ℕ × OrderItem)
    → List (ℕ × ItemAllocation)
    → List SellerLedgerEntry
    → List RefundLine
    → Bool
unfolding find_allocation has_sale
lacks_sale payment order items rows entries [] = false
lacks_sale payment order items rows entries (line ∷ lines) =
    elim (find_allocation line.order_item order items rows) [
      | none ↦ false
      | some (k, a) ↦ not (a.seller_payable == 0) && not (has_sale (capture_key payment k) entries)
    ]
    || lacks_sale payment order items rows entries lines

-- The guards on the payment and the request.
unfoldable pub check_refund :
    (String → String)
    → RefundData
    → ℕ
    → Payment
    → ReturnRequest
    → List (ℕ × ConfirmedRefund)
    → Result Error (Unit {0})
unfolding has_refund_reference has_refund is_approved line_total refunded_amount
check_refund upper d amount p request refunds = do
  raise_if (has_refund_reference d.payment d.gateway_reference refunds) duplicate_reference
  raise_if (not (request.order == p.order)) different_order
  raise_if (not (is_captured p.status)) payment_not_captured
  raise_if (is_refunded p.status && not (has_refund d.payment refunds)) legacy_refunded
  raise_if (not (is_approved request.status)) return_not_approved
  raise_if (not (str_eq (upper d.currency) (upper p.currency))) refund_currency
  raise_if (not (is_amount (line_total d.lines) amount)) breakdown_mismatch
  raise_if (ltb (100 * p.amount) (amount + refunded_amount d.payment refunds)) exceeds_captured

-- The guards on the lines.
unfoldable pub check_lines :
    RefundData → Payment → ReturnRequest → Market → Returns → Books → Result Error (Unit {0})
unfolding repeats all_returned lacks_sale
check_lines d p request db r b = do
  raise_if (no_lines d.lines || repeats d.lines) items_not_unique
  raise_if (not (all_returned p.order d.return_request db.items b.allocations r.items d.lines))
      item_not_returned
  raise_if (is_closed request.status) already_refunded
  raise_if (lacks_sale d.payment p.order db.items b.allocations b.entries d.lines) unposted_capture
