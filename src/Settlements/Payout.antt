-- ===== src/Settlements/Payout.antt =====
-- `post_confirmed_payout` of apps/settlements/services.py.
pub mod Paid
pub mod Replay
pub mod Released
use Prim.Native.String.{String}
use text.Mathlib.Text.{◌==◌ as str_eq}
use mallbyte_api.Common.Table.{lookup}
use mallbyte_api.Common.{
  ℕ, ◌+◌, Bool, true, false, not, ◌&&◌, ◌||◌, Option, none, some, List, [], ◌∷◌, ltb, ◌==◌,
  if◌then◌else◌, is_some, ℤ, pos, negsuc, ◌-ℤ◌, ltb_ℤ, Result, ok, err, ◌>>=◌, ◌>>◌, raise_if,
  or_raise,
}
use mallbyte_api.Market.State.{Market}
use mallbyte_api.Returns.Row.{Returns}
use mallbyte_api.Payments.Complete.{Moment, aware, naive}
use mallbyte_api.Settlements.Row.{
  Accounts, payout, payout_key, SellerLedgerEntry, ConfirmedPayout, Books,
}
use mallbyte_api.Settlements.Failure.{
  Error, does_not_exist, evidence_required, not_positive, conflicting_key, duplicate_reference,
  exceeds_eligible, exceeds_balance,
}
use mallbyte_api.Settlements.Capture.{seller_balance}
use mallbyte_api.Settlements.Policy.{Deliveries, payout_eligibility}

-- The arguments, `amount` after `money`.
pub record PayoutData : Type 0 where
  pub seller : ℕ
  pub currency : String
  pub amount : ℤ
  pub external_reference : String
  pub idempotency_key : String
  pub confirmed_at : Option Moment

-- The settings `SETTLEMENTS_LEDGER_ENABLED` and `SETTLEMENTS_PAYOUT_HOLD_DAYS`.
pub record Settings : Type 0 where
  pub ledger_enabled : Bool
  pub hold_days : ℤ

-- The first guard: references, and a time with its zone.
unfoldable pub check_evidence : String → String → Option Moment → Result Error ℕ
check_evidence reference key none = err evidence_required
check_evidence reference key (some (naive t)) = err evidence_required
check_evidence reference key (some (aware t)) =
    if str_eq reference "" || str_eq key "" then err evidence_required else ok t

-- `if amount <= 0`
unfoldable pub positive : ℤ → Result Error ℕ
positive (negsuc n) = err not_positive
positive (pos amount) = if amount == 0 then err not_positive else ok amount

unfoldable pub find_payout : String → List (ℕ × ConfirmedPayout) → Option (ℕ × ConfirmedPayout)
find_payout key [] = none
find_payout key ((k, p) ∷ ps) =
    if str_eq p.idempotency_key key then some (k, p) else find_payout key ps

unfoldable pub has_payout_reference : String → List (ℕ × ConfirmedPayout) → Bool
has_payout_reference reference [] = false
has_payout_reference reference ((k, p) ∷ ps) =
    str_eq p.external_reference reference || has_payout_reference reference ps

-- The row under the idempotency key is the one of this call.
unfoldable pub payout_matches : (String → String) → PayoutData → ℕ → ConfirmedPayout → Bool
payout_matches upper d amount p =
    (p.seller == d.seller)
    && str_eq p.currency (upper d.currency)
    && (p.amount == amount)
    && str_eq p.external_reference d.external_reference

-- The check against the released balance.
unfoldable pub check_eligible :
    (String → String)
    → Settings
    → Deliveries
    → PayoutData
    → ℕ
    → ℕ
    → Market
    → Returns
    → Books
    → Result Error (Unit {0})
unfolding payout_eligibility
check_eligible upper settings deliveries d amount now db r b =
    if settings.ledger_enabled
    then (do
      eligible ←
          payout_eligibility upper settings.hold_days deliveries d.seller d.currency now db r b
      raise_if (ltb eligible.withdrawable_amount amount) exceeds_eligible)
    else ok tt

unfoldable pub payout_entry : (String → String) → PayoutData → ℕ → ℕ → ℕ → SellerLedgerEntry
payout_entry upper d amount at k = record {
  seller = d.seller;
  currency = upper d.currency;
  kind = payout;
  amount = pos 0 -ℤ pos amount;
  source_key = payout_key k;
  allocation = none;
  refund = none;
  occurred_at = at;
}

unfoldable pub payout_row : (String → String) → PayoutData → ℕ → ℕ → ConfirmedPayout
payout_row upper d amount at = record {
  seller = d.seller;
  currency = upper d.currency;
  amount = amount;
  external_reference = d.external_reference;
  idempotency_key = d.idempotency_key;
  confirmed_at = at;
}

-- What the call stores.
unfoldable pub with_payout : (String → String) → PayoutData → ℕ → ℕ → Books → Books
unfolding payout_entry payout_row
with_payout upper d amount at b = record b {
  payouts = (b.next_key, payout_row upper d amount at) ∷ b.payouts;
  entries = payout_entry upper d amount at b.next_key ∷ b.entries;
  next_key = b.next_key + 1;
}

-- The key of the payout and the books. The call runs alone here, so the second search under the
-- lock finds what the first one found.
unfoldable pub post_confirmed_payout :
    (String → String)
    → Settings
    → Accounts
    → Deliveries
    → ℕ
    → PayoutData
    → Market
    → Returns
    → Books
    → Result Error (ℕ × Books)
unfolding check_evidence positive find_payout has_payout_reference payout_matches check_eligible
    with_payout
post_confirmed_payout upper settings accounts deliveries now d db r b = do
  at ← check_evidence d.external_reference d.idempotency_key d.confirmed_at
  amount ← positive d.amount
  elim (find_payout d.idempotency_key b.payouts) [
    | some (k, p) ↦ do raise_if (not (payout_matches upper d amount p)) conflicting_key; ok (k, b)
    | none ↦ do
      user ← or_raise (lookup d.seller accounts.users) does_not_exist
      raise_if (has_payout_reference d.external_reference b.payouts) duplicate_reference
      check_eligible upper settings deliveries d amount now db r b
      raise_if (ltb_ℤ (seller_balance upper d.seller d.currency b) (pos amount)) exceeds_balance
      ok (b.next_key, with_payout upper d amount at b)
  ]
