-- ===== src/Settlements/Refund/Replay.antt =====
-- `_refund_replay_matches`: the refund under the idempotency key is the one of the call.
use Prim.Native.String.{String}
use text.Mathlib.Text.{◌==◌ as str_eq}
use mallbyte_api.Common.Table.{lookup}
use mallbyte_api.Common.{
  ℕ, Bool, true, false, ◌&&◌, Option, none, some, List, [], ◌∷◌, ◌==◌, if◌then◌else◌, ℤ, pos,
  negsuc,
}
use mallbyte_api.Payments.Complete.{Moment}
use mallbyte_api.Settlements.Row.{ItemAllocation, ConfirmedRefund, RefundAllocation}
use mallbyte_api.Settlements.Refund.Line.{RefundLine}

-- The arguments, `confirmed_amount` after `money`.
pub record RefundData : Type 0 where
  pub payment : ℕ
  pub return_request : ℕ
  pub amount : ℤ
  pub currency : String
  pub gateway_reference : String
  pub idempotency_key : String
  pub lines : List RefundLine
  pub confirmed_at : Option Moment

-- The merchandise, the shipping and the tax of an item.
abbrev pub Amounts : Type 0
Amounts = ℤ × ℤ × ℤ

abbrev is_ℤ : ℤ → ℤ → Bool
is_ℤ (pos m) (pos n) = m == n
is_ℤ (negsuc m) (negsuc n) = m == n
is_ℤ _ _ = false

abbrev pub is_amounts : Amounts → Amounts → Bool
is_amounts (m, s, t) (m', s', t') = is_ℤ m m' && is_ℤ s s' && is_ℤ t t'

-- `previously`, in the order of the rows.
unfoldable pub previously :
    ℕ → List (ℕ × ItemAllocation) → List RefundAllocation → List (ℕ × Amounts)
previously refund allocations [] = []
previously refund allocations (x ∷ rest) =
    let below = previously refund allocations rest in
    if x.refund == refund
    then elim (lookup x.allocation allocations) [
      | none ↦ below
      | some a ↦
          (a.order_item, (pos x.customer_merchandise, pos x.customer_shipping, pos x.customer_tax))
          ∷ below
    ]
    else below

-- `proposed`, in the order of the lines.
unfoldable pub proposed : List RefundLine → List (ℕ × Amounts)
proposed [] = []
proposed (line ∷ lines) =
    (line.order_item, (line.merchandise, line.shipping, line.tax)) ∷ proposed lines

-- A dictionary that is built from pairs keeps the last value of a key.
unfoldable pub value_at : ℕ → List (ℕ × Amounts) → Option Amounts
value_at k [] = none
value_at k ((j, v) ∷ rest) = elim (value_at k rest) [
  | some w ↦ some w
  | none ↦ if k == j then some v else none
]

abbrev pub same_value : Option Amounts → Option Amounts → Bool
same_value none none = true
same_value (some v) (some w) = is_amounts v w
same_value _ _ = false

-- The keys of `ps` have the same values in two dictionaries.
unfoldable pub same_at : List (ℕ × Amounts) → List (ℕ × Amounts) → List (ℕ × Amounts) → Bool
unfolding value_at
same_at [] p q = true
same_at ((k, v) ∷ ps) p q = same_value (value_at k p) (value_at k q) && same_at ps p q

unfoldable pub refund_matches :
    (String → String)
    → RefundData
    → ℕ
    → List (ℕ × ItemAllocation)
    → List RefundAllocation
    → (ℕ × ConfirmedRefund)
    → Bool
unfolding previously proposed same_at
refund_matches upper d amount allocations rows (k, r) =
    let old = previously k allocations rows in
    let new = proposed d.lines in
    (r.payment == d.payment)
    && (r.return_request == d.return_request)
    && (r.amount == amount)
    && str_eq r.gateway_reference d.gateway_reference
    && str_eq r.currency (upper d.currency)
    && same_at old old new
    && same_at new old new
