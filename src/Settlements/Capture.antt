-- ===== src/Settlements/Capture.antt =====
-- `post_captured_payment` and `seller_balance` of apps/settlements/services.py.
pub mod Posted
use Prim.Native.String.{String}
use text.Mathlib.Text.{◌==◌ as str_eq}
use mallbyte_api.Common.Table.{lookup}
use mallbyte_api.Common.{
  ℕ, ◌+◌, ◌*◌, Bool, true, false, not, ◌&&◌, ◌||◌, Option, none, some, List, [], ◌∷◌, ◌==◌,
  if◌then◌else◌, is_some, ℤ, pos, ◌+ℤ◌, Result, ok, err, ◌>>=◌, ◌>>◌, raise_if, or_raise,
}
use mallbyte_api.Market.Row.{Payment, AttemptStatus, success}
use mallbyte_api.Market.State.{Market}
use mallbyte_api.Settlements.Row.{
  ItemAllocation, Kind, sale, SourceKey, capture_key, refund_key, payout_key, SellerLedgerEntry,
  Books,
}
use mallbyte_api.Settlements.Failure.{
  Error, does_not_exist, not_captured, missing_snapshots, payment_mismatch, currency_mismatch,
}
use mallbyte_api.Settlements.Build.{order_items, order_allocations}

abbrev pub is_captured : AttemptStatus → Bool
is_captured success = true
is_captured AttemptStatus.refunded = true
is_captured _ = false

-- Equality of the texts that the keys stand for.
abbrev pub is_source : SourceKey → SourceKey → Bool
is_source (capture_key p a) (capture_key q b) = (p == q) && (a == b)
is_source (refund_key r a) (refund_key s b) = (r == s) && (a == b)
is_source (payout_key k) (payout_key j) = k == j
is_source _ _ = false

-- An entry with this `source_key` exists.
unfoldable pub has_source : SourceKey → List SellerLedgerEntry → Bool
has_source key [] = false
has_source key (e ∷ es) = is_source e.source_key key || has_source key es

-- The allocations and the items of an order are as many.
unfoldable pub is_as_long {ℓ κ} : {A : Type ℓ} {B : Type κ} → List A → List B → Bool
is_as_long [] [] = true
is_as_long (a ∷ rest) (b ∷ bs) = is_as_long rest bs
is_as_long _ _ = false

unfoldable pub other_currency : String → List (ℕ × ItemAllocation) → Bool
other_currency currency [] = false
other_currency currency ((k, a) ∷ rest) =
    not (str_eq a.currency currency) || other_currency currency rest

unfoldable pub sale_entry : ℕ → ℕ → (ℕ × ItemAllocation) → SellerLedgerEntry
sale_entry payment at (k, a) = record {
  seller = a.seller;
  currency = a.currency;
  kind = sale;
  amount = pos a.seller_payable;
  source_key = capture_key payment k;
  allocation = some k;
  refund = none;
  occurred_at = at;
}

-- One round of the loop: `get_or_create` unless the seller gets nothing.
unfoldable pub post_sale :
    ℕ → ℕ → (ℕ × ItemAllocation) → List SellerLedgerEntry → List SellerLedgerEntry
unfolding has_source sale_entry
post_sale payment at (k, a) entries =
    if (a.seller_payable == 0) || has_source (capture_key payment k) entries
    then entries
    else sale_entry payment at (k, a) ∷ entries

unfoldable pub post_sales :
    ℕ → ℕ → List (ℕ × ItemAllocation) → List SellerLedgerEntry → List SellerLedgerEntry
unfolding post_sale
post_sales payment at [] entries = entries
post_sales payment at (a ∷ rest) entries =
    post_sales payment at rest (post_sale payment at a entries)

-- `upper` is Python's, on the currency.
unfoldable pub post_captured_payment : (String → String) → ℕ → Market → Books → Result Error Books
unfolding is_as_long other_currency post_sales
post_captured_payment upper pk db b = do
  p ← or_raise (lookup pk db.payments) does_not_exist
  order ← or_raise (lookup p.order db.orders) does_not_exist
  raise_if (not (is_captured p.status)) not_captured
  at ← or_raise p.paid_at not_captured
  let allocations = order_allocations p.order db.items b.allocations
  raise_if (not (is_as_long allocations (order_items p.order db.items))) missing_snapshots
  raise_if (not (100 * p.amount == 100 * order.total_amount)) payment_mismatch
  raise_if (other_currency (upper p.currency) allocations) currency_mismatch
  ok (record b { entries = post_sales pk at allocations b.entries })

-- The sum of the entries of a seller in a currency.
unfoldable pub balance_of : ℕ → String → List SellerLedgerEntry → ℤ
balance_of seller currency [] = pos 0
balance_of seller currency (e ∷ es) =
    let rest = balance_of seller currency es in
    if (e.seller == seller) && str_eq e.currency currency then e.amount +ℤ rest else rest

unfoldable pub seller_balance : (String → String) → ℕ → String → Books → ℤ
unfolding balance_of
seller_balance upper seller currency b = balance_of seller (upper currency) b.entries
