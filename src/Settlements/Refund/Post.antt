-- ===== src/Settlements/Refund/Post.antt =====
-- `post_verified_refund`: what it stores.
use Prim.Native.String.{String}
use text.Mathlib.Text.{◌==◌ as str_eq}
use mallbyte_api.Common.Table.{lookup, save}
use mallbyte_api.Common.{
  ℕ, ◌+◌, ◌*◌, not, Option, none, some, List, [], ◌∷◌, ◌==◌, if◌then◌else◌, pos, ◌-ℤ◌, Result, ok,
  ◌>>=◌, ◌>>◌, raise_if, or_raise,
}
use mallbyte_api.Market.Row.{Payment, AttemptStatus}
use mallbyte_api.Market.State.{Market}
use mallbyte_api.Returns.Row.{Returns}
use mallbyte_api.Settlements.Row.{
  ConfirmedRefund, RefundAllocation, refund, refund_key, SellerLedgerEntry, Books,
}
use mallbyte_api.Settlements.Failure.{Error, does_not_exist, conflicting_key}
use mallbyte_api.Settlements.Payout.{check_evidence, positive}
use mallbyte_api.Settlements.Refund.Line.{Refunded, refund_lines}
use mallbyte_api.Settlements.Refund.Check.{refunded_amount, is_amount, check_refund, check_lines}
use mallbyte_api.Settlements.Refund.Replay.{RefundData, refund_matches}

unfoldable pub find_refund : String → List (ℕ × ConfirmedRefund) → Option (ℕ × ConfirmedRefund)
find_refund key [] = none
find_refund key ((k, r) ∷ rs) =
    if str_eq r.idempotency_key key then some (k, r) else find_refund key rs

unfoldable pub refund_row : ℕ → Refunded → RefundAllocation
refund_row pk x = record {
  refund = pk;
  allocation = x.key;
  customer_amount = x.merchandise + x.shipping + x.tax;
  customer_merchandise = x.merchandise;
  customer_shipping = x.shipping;
  customer_tax = x.tax;
  seller_reversal = x.seller_debit;
  commission_reversal = x.commission_reversal;
}

unfoldable pub refund_entry : ℕ → ℕ → Refunded → SellerLedgerEntry
refund_entry pk at x = record {
  seller = x.allocation.seller;
  currency = x.allocation.currency;
  kind = refund;
  amount = pos 0 -ℤ x.seller_debit;
  source_key = refund_key pk x.key;
  allocation = some x.key;
  refund = some pk;
  occurred_at = at;
}

-- The loop that stores the lines.
unfoldable pub store_rows : ℕ → List Refunded → List RefundAllocation → List RefundAllocation
unfolding refund_row
store_rows pk [] rows = rows
store_rows pk (x ∷ xs) rows = store_rows pk xs (refund_row pk x ∷ rows)

unfoldable pub store_entries :
    ℕ → ℕ → List Refunded → List SellerLedgerEntry → List SellerLedgerEntry
unfolding refund_entry
store_entries pk at [] entries = entries
store_entries pk at (x ∷ xs) entries =
    store_entries pk at xs
      (if is_amount x.seller_debit 0 then entries else refund_entry pk at x ∷ entries)

unfoldable pub new_refund : (String → String) → RefundData → ℕ → ℕ → ConfirmedRefund
new_refund upper d amount at = record {
  payment = d.payment;
  return_request = d.return_request;
  gateway_reference = d.gateway_reference;
  idempotency_key = d.idempotency_key;
  currency = upper d.currency;
  amount = amount;
  confirmed_at = at;
}

unfoldable pub with_refund : (String → String) → RefundData → ℕ → ℕ → List Refunded → Books → Books
unfolding new_refund store_rows store_entries
with_refund upper d amount at done b = record b {
  refunds = (b.next_key, new_refund upper d amount at) ∷ b.refunds;
  refund_allocations = store_rows b.next_key done b.refund_allocations;
  entries = store_entries b.next_key at done b.entries;
  next_key = b.next_key + 1;
}

abbrev pub refunded_payment : ℕ → Payment → Payment
refunded_payment at p = record p { status = AttemptStatus.refunded; refunded_at = some at }

-- The payment is refunded once its refunds have reached its amount.
unfoldable pub settle_payment :
    RefundData → ℕ → Payment → List (ℕ × ConfirmedRefund) → Market → Market
unfolding refunded_amount
settle_payment d at p refunds db =
    if refunded_amount d.payment refunds == 100 * p.amount
    then record db { payments = save d.payment (refunded_payment at p) db.payments }
    else db

-- The key of the refund, the tables of the shop, whose payment may change, and the books. The call
-- runs alone here, so the second search under the locks finds what the first one found.
unfoldable pub post_verified_refund :
    (String → String) → RefundData → Market → Returns → Books → Result Error (ℕ × Market × Books)
unfolding check_evidence positive find_refund refund_matches check_refund check_lines refund_lines
    with_refund settle_payment
post_verified_refund upper d db r b = do
  at ← check_evidence d.gateway_reference d.idempotency_key d.confirmed_at
  amount ← positive d.amount
  elim (find_refund d.idempotency_key b.refunds) [
    | some (k, old) ↦ do
      raise_if (not (refund_matches upper d amount b.allocations b.refund_allocations (k, old)))
          conflicting_key
      ok (k, db, b)
    | none ↦ do
      p ← or_raise (lookup d.payment db.payments) does_not_exist
      order ← or_raise (lookup p.order db.orders) does_not_exist
      request ← or_raise (lookup d.return_request r.requests) does_not_exist
      check_refund upper d amount p request b.refunds
      check_lines d p request db r b
      done ←
          refund_lines p.order d.return_request db.items b.allocations r.items b.refunds
            b.refund_allocations d.lines
      let b' = with_refund upper d amount at done b
      ok (b.next_key, settle_payment d at p b'.refunds db, b')
  ]
