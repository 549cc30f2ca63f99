-- ===== src/Settlements/Row.antt =====
-- The models of apps/settlements/models.py, and what the services read of apps/accounts. Amounts
-- are in hundredths, which the columns hold.
use Prim.Native.String.{String}
use mallbyte_api.Common.{ℕ, Option, List, ℤ}
use mallbyte_api.Common.Account.{User}

-- The users, and the commission rate of each seller with a profile, in hundredths of a percent.
pub record Accounts : Type 0 where
  pub users : List (ℕ × User)
  pub commission_rates : List (ℕ × ℤ)

pub record ItemAllocation : Type 0 where
  pub order_item : ℕ
  pub seller : ℕ
  pub currency : String
  pub quantity : ℕ
  pub gross : ℕ
  pub discount : ℕ
  pub shipping : ℕ
  pub tax : ℕ
  pub charged : ℕ
  pub merchandise_net : ℕ
  pub commission_rate : ℕ
  pub commission : ℕ
  pub seller_payable : ℕ

pub record ConfirmedRefund : Type 0 where
  pub payment : ℕ
  pub return_request : ℕ
  pub gateway_reference : String
  pub idempotency_key : String
  pub currency : String
  pub amount : ℕ
  pub confirmed_at : ℕ

pub record RefundAllocation : Type 0 where
  pub refund : ℕ
  pub allocation : ℕ
  pub customer_amount : ℕ
  pub customer_merchandise : ℕ
  pub customer_shipping : ℕ
  pub customer_tax : ℕ
  pub seller_reversal : ℤ
  pub commission_reversal : ℤ

pub data Kind : Type 0 where
  sale refund payout : Kind

-- The text `capture:…:…`, `refund:…:…` or `payout:…` of the keys it is made of.
pub data SourceKey : Type 0 where
  capture_key : ℕ → ℕ → SourceKey
  refund_key : ℕ → ℕ → SourceKey
  payout_key : ℕ → SourceKey

pub record SellerLedgerEntry : Type 0 where
  pub seller : ℕ
  pub currency : String
  pub kind : Kind
  pub amount : ℤ
  pub source_key : SourceKey
  pub allocation : Option ℕ
  pub refund : Option ℕ
  pub occurred_at : ℕ

pub record ConfirmedPayout : Type 0 where
  pub seller : ℕ
  pub currency : String
  pub amount : ℕ
  pub external_reference : String
  pub idempotency_key : String
  pub confirmed_at : ℕ

-- The tables that the services write. The allocations stand in the order of their keys; every
-- other table has its newest row first.
pub record Books : Type 0 where
  pub allocations : List (ℕ × ItemAllocation)
  pub refunds : List (ℕ × ConfirmedRefund)
  pub refund_allocations : List RefundAllocation
  pub entries : List SellerLedgerEntry
  pub payouts : List (ℕ × ConfirmedPayout)
  pub next_key : ℕ
