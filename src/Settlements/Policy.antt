-- ===== src/Settlements/Policy.antt =====
-- apps/settlements/settlement_policy.py. The times are in seconds.
use Prim.Native.String.{String}
use text.Mathlib.Text.{◌==◌ as str_eq}
use mallbyte_api.Common.Table.{lookup}
use mallbyte_api.Common.{
  ℕ, ◌+◌, ◌*◌, Bool, true, false, not, ◌&&◌, ◌||◌, Option, none, some, List, [], ◌∷◌, leb, ◌==◌,
  if◌then◌else◌, ℤ, pos, negsuc, pos_part, ◌+ℤ◌, leb_ℤ, Result, ok, err,
}
use mallbyte_api.Market.Row.{Order, OrderStatus, SellerOrderFulfillment}
use mallbyte_api.Market.State.{Market}
use mallbyte_api.Returns.Row.{Status, ReturnRequest, ReturnItem, Returns}
use mallbyte_api.Settlements.Row.{ItemAllocation, Kind, sale, SellerLedgerEntry, Books}
use mallbyte_api.Settlements.Failure.{Error, negative_hold}
use mallbyte_api.Settlements.Capture.{seller_balance}

-- The statuses of `blocking_returns`.
unfoldable pub is_blocking : Status → Bool
is_blocking Status.submitted = true
is_blocking Status.under_review = true
is_blocking Status.approved = true
is_blocking Status.waiting_for_item = true
is_blocking Status.item_received = true
is_blocking Status.inspecting = true
is_blocking Status.refund_pending = true
is_blocking _ = false

-- `Exists(blocking_returns)` for an order item.
unfoldable pub has_blocking : ℕ → List (ℕ × ReturnRequest) → List (ℕ × ReturnItem) → Bool
unfolding is_blocking
has_blocking item requests [] = false
has_blocking item requests ((k, i) ∷ is) =
    ((i.order_item == item)
      && elim (lookup i.return_request requests) [ none ↦ false | some r ↦ is_blocking r.status ])
    || has_blocking item requests is

-- The rows of the history of the sellers' parts of the orders that say that a part was delivered:
-- the key of the part and the time of the row, which the tables of the market do not keep.
abbrev pub Deliveries : Type 0
Deliveries = List (ℕ × ℕ)

-- `Exists(delivered)`: a delivery of the seller's part of the order, at the cutoff or before.
unfoldable pub has_delivery :
    (order seller hold as_of : ℕ) → List (ℕ × SellerOrderFulfillment) → Deliveries → Bool
has_delivery order seller hold as_of parts [] = false
has_delivery order seller hold as_of parts ((k, created_at) ∷ rest) =
    (elim (lookup k parts) [ none ↦ false | some f ↦ (f.order == order) && (f.seller == seller) ]
      && leb (created_at + hold) as_of)
    || has_delivery order seller hold as_of parts rest

abbrev is_delivered : OrderStatus → Bool
is_delivered OrderStatus.delivered = true
is_delivered _ = false

-- The order itself was delivered at the cutoff or before.
unfoldable pub order_delivered : (hold as_of : ℕ) → Order → Bool
order_delivered hold as_of o =
    is_delivered o.status && elim o.delivered_at [ none ↦ false | some t ↦ leb (t + hold) as_of ]

-- The credit of an item is released.
unfoldable pub is_released :
    (seller hold as_of : ℕ) → Deliveries → Market → Returns → ItemAllocation → Bool
unfolding has_delivery order_delivered has_blocking
is_released seller hold as_of deliveries db r a = elim (lookup a.order_item db.items) [
  | none ↦ false
  | some i ↦
      (has_delivery i.order seller hold as_of db.fulfillments deliveries
        || elim (lookup i.order db.orders) [ none ↦ false | some o ↦ order_delivered hold as_of o ])
      && not (has_blocking a.order_item r.requests r.items)
]

abbrev pub is_sale : Kind → Bool
is_sale sale = true
is_sale _ = false

-- An entry of the seller in the currency, at `as_of` or before.
abbrev pub counts : ℕ → String → ℕ → SellerLedgerEntry → Bool
counts seller currency as_of e =
    (e.seller == seller) && str_eq e.currency currency && leb e.occurred_at as_of

-- The allocation of an entry is there, and its credit is released.
unfoldable pub entry_released :
    (seller hold as_of : ℕ)
    → Deliveries
    → Market
    → Returns
    → List (ℕ × ItemAllocation)
    → Option ℕ
    → Bool
unfolding is_released
entry_released seller hold as_of deliveries db r rows none = false
entry_released seller hold as_of deliveries db r rows (some k) = elim (lookup k rows) [
  | none ↦ false
  | some a ↦ is_released seller hold as_of deliveries db r a
]

-- `eligible_credits`
unfoldable pub eligible_credits :
    (seller : ℕ)
    → String
    → (hold as_of : ℕ) → Deliveries
    → Market
    → Returns
    → List (ℕ × ItemAllocation)
    → List SellerLedgerEntry
    → ℤ
unfolding entry_released
eligible_credits seller currency hold as_of deliveries db r rows [] = pos 0
eligible_credits seller currency hold as_of deliveries db r rows (e ∷ es) =
    let rest = eligible_credits seller currency hold as_of deliveries db r rows es in
    if counts seller currency as_of e
      && is_sale e.kind
      && entry_released seller hold as_of deliveries db r rows e.allocation
    then e.amount +ℤ rest
    else rest

-- `debits`
unfoldable pub debits : ℕ → String → ℕ → List SellerLedgerEntry → ℤ
debits seller currency as_of [] = pos 0
debits seller currency as_of (e ∷ es) =
    let rest = debits seller currency as_of es in
    if counts seller currency as_of e && not (is_sale e.kind) then e.amount +ℤ rest else rest

abbrev pub min_ℤ : ℤ → ℤ → ℤ
min_ℤ a b = if leb_ℤ a b then a else b

pub record Eligibility : Type 0 where
  pub currency : String
  pub ledger_balance : ℤ
  pub eligible_sale_credits : ℤ
  pub refund_and_payout_debits : ℤ
  pub withdrawable_amount : ℕ
  pub hold_days : ℕ
  pub evaluated_at : ℕ

-- `upper` is Python's, `hold_days` the setting `SETTLEMENTS_PAYOUT_HOLD_DAYS`.
unfoldable pub payout_eligibility :
    (String → String)
    → ℤ
    → Deliveries
    → ℕ
    → String
    → ℕ
    → Market
    → Returns
    → Books
    → Result Error Eligibility
unfolding eligible_credits debits
payout_eligibility upper (negsuc n) deliveries seller currency as_of db r b = err negative_hold
payout_eligibility upper (pos hold_days) deliveries seller currency as_of db r b =
    let hold = 86400 * hold_days in
    let eligible =
      eligible_credits seller (upper currency) hold as_of deliveries db r b.allocations b.entries in
    let spent = debits seller (upper currency) as_of b.entries in
    let total = seller_balance upper seller (upper currency) b in
    ok (record {
      currency = upper currency;
      ledger_balance = total;
      eligible_sale_credits = eligible;
      refund_and_payout_debits = spent;
      withdrawable_amount = pos_part (min_ℤ total (eligible +ℤ spent));
      hold_days = hold_days;
      evaluated_at = as_of;
    })
