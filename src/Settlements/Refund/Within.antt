-- ===== src/Settlements/Refund/Within.antt =====
-- The refunds of an allocation stay within what it charged and within what the seller got.
use mathlib.Core.Path.{subst}
use mallbyte_api.Common.{
  ℕ, ◌+◌, ◌≤◌, ◌<◌, ◌≡◌, sym, ◌≢◌, inl, inr, List, ◌∷◌, ◌==◌, leb_ℤ, ℤ, pos, ◌+ℤ◌, ◌-ℤ◌, ◌≤ℤ◌, ok,
  arith, int_laws, Bool-cases, Result-cases,
}
use mallbyte_api.Returns.Row.{ReturnItem}
use mallbyte_api.Settlements.Row.{ItemAllocation, ConfirmedRefund, RefundAllocation}
use mallbyte_api.Settlements.Policy.{min_ℤ}
use mallbyte_api.Settlements.Refund.Line.{
  RefundLine, Refunded, used, reversed, line_amounts, proportion, reversal, refund_line,
}
use mallbyte_api.Settlements.Refund.Post.{refund_row}

-- What the refunds of an allocation come to.
pub record Totals : Type 0 where
  pub merchandise : ℕ
  pub shipping : ℕ
  pub tax : ℕ
  pub seller_reversal : ℤ
  pub commission_reversal : ℤ

abbrev pub totals : ℕ → List RefundAllocation → Totals
totals k rows = record {
  merchandise = used (λ x. x.customer_merchandise) k rows;
  shipping = used (λ x. x.customer_shipping) k rows;
  tax = used (λ x. x.customer_tax) k rows;
  seller_reversal = reversed (λ x. x.seller_reversal) k rows;
  commission_reversal = reversed (λ x. x.commission_reversal) k rows;
}

-- What was taken back of an amount, when some of the merchandise was refunded: not below 0, at
-- most all, and all once the merchandise is.
abbrev pub IsPartOf : ℕ → ℕ → ℕ → ℤ → Type 0
IsPartOf total net refunded back =
    (pos 0 ≤ℤ back) × (back ≤ℤ pos total) × (refunded ≡ net → 0 < net → back ≡ pos total)

abbrev pub IsWithin : ItemAllocation → Totals → Type 0
IsWithin a t =
    (t.merchandise ≤ a.merchandise_net)
    × (t.shipping ≤ a.shipping)
    × (t.tax ≤ a.tax)
    × IsPartOf a.seller_payable a.merchandise_net t.merchandise t.seller_reversal
    × IsPartOf a.commission a.merchandise_net t.merchandise t.commission_reversal

less : (total n : ℕ) (old : ℤ) → pos n ≤ℤ pos total -ℤ old → pos n +ℤ old ≤ℤ pos total
less total n old le = grind int_laws

least_IsPartOf :
    (total n : ℕ) (old : ℤ)
    → pos 0 ≤ℤ old
    → old ≤ℤ pos total
    → (pos 0 ≤ℤ min_ℤ (pos n) (pos total -ℤ old) +ℤ old)
      × (min_ℤ (pos n) (pos total -ℤ old) +ℤ old ≤ℤ pos total)
least_IsPartOf total n old low high = elim (Bool-cases (leb_ℤ (pos n) (pos total -ℤ old))) [
  | inl first ↦ rw first (grind int_laws, less total n old (ground arith))
  | inr second ↦ rw second (grind int_laws, grind int_laws)
]

reversal-IsPartOf :
    (total net old_merch merch : ℕ) (old : ℤ)
    → IsPartOf total net old_merch old
    → merch + old_merch ≤ net
    → IsPartOf total net (merch + old_merch) (reversal total net old_merch merch old +ℤ old)
unfolding reversal
reversal-IsPartOf total net old_merch merch old v le = elim (Bool-cases (net == 0)) [
  | inl nothing ↦ rw nothing (grind int_laws, grind int_laws, λ e p. absurd (ground arith))
  | inr something ↦ elim (Bool-cases (old_merch + merch == net)) [
    | inl all ↦ rw (something, all) (grind int_laws, grind int_laws, λ e p. grind int_laws)
    | inr part ↦
        let (low, high) = least_IsPartOf total (proportion total merch net) old v.0 v.1 in
        rw (something, part) (low, high, λ e p. absurd (ground arith))
  ]
]

-- The totals with one more refund.
abbrev pub added : Refunded → Totals → Totals
added x t = record {
  merchandise = x.merchandise + t.merchandise;
  shipping = x.shipping + t.shipping;
  tax = x.tax + t.tax;
  seller_reversal = x.seller_debit +ℤ t.seller_reversal;
  commission_reversal = x.commission_reversal +ℤ t.commission_reversal;
}

pub totals-hit :
    (k pk : ℕ) (x : Refunded) (rows : List RefundAllocation)
    → x.key ≡ k
    → totals k (refund_row pk x ∷ rows) ≡ added x (totals k rows)
unfolding used reversed refund_row
totals-hit k pk x rows e = ground arith

pub totals-miss :
    (k pk : ℕ) (x : Refunded) (rows : List RefundAllocation)
    → x.key ≢ k
    → totals k (refund_row pk x ∷ rows) ≡ totals k rows
unfolding used reversed refund_row
totals-miss k pk x rows e = ground arith

pub refund_line-key :
    (request k : ℕ) (a : ItemAllocation) (item : ReturnItem) (refunds : List (ℕ × ConfirmedRefund))
    (prior : List RefundAllocation) (line : RefundLine) (x : Refunded)
    → refund_line request (k, a) item refunds prior line ≡ ok x
    → x.key ≡ k
unfolding refund_line
refund_line-key request k a item refunds prior line x h =
    elim (Result-cases (line_amounts line.merchandise line.shipping line.tax)) [
      | inr (failure, bad) ↦ ground arith
      | inl ((m, s, t), fine) ↦ ground arith
    ]

-- What a round of the loop gives when it succeeds.
pub refund_line-IsWithin :
    (request k : ℕ) (a : ItemAllocation) (item : ReturnItem) (refunds : List (ℕ × ConfirmedRefund))
    (prior : List RefundAllocation) (line : RefundLine) (x : Refunded)
    → refund_line request (k, a) item refunds prior line ≡ ok x
    → IsWithin a (totals k prior)
    → (x.key ≡ k) × IsWithin a (added x (totals k prior))
unfolding refund_line
refund_line-IsWithin request k a item refunds prior line x h v =
    elim (Result-cases (line_amounts line.merchandise line.shipping line.tax)) [
      | inr (failure, bad) ↦ ground arith
      | inl ((m, s, t), fine) ↦
          let old : Totals = totals k prior in
          let (key, merch, ship, tax, debit, back) : (x.key ≡ k)
              × (x.merchandise + old.merchandise ≤ a.merchandise_net)
              × (x.shipping + old.shipping ≤ a.shipping)
              × (x.tax + old.tax ≤ a.tax)
              × (x.seller_debit
                  ≡ reversal a.seller_payable a.merchandise_net old.merchandise x.merchandise
                      old.seller_reversal)
              × (x.commission_reversal
                  ≡ reversal a.commission a.merchandise_net old.merchandise x.merchandise
                      old.commission_reversal) =
            ground arith in
          (
            key,
            (
              merch,
              ship,
              tax,
              subst
                  (λ n.
                    IsPartOf a.seller_payable a.merchandise_net (x.merchandise + old.merchandise)
                      (n +ℤ old.seller_reversal))
                  (sym debit)
                  (reversal-IsPartOf a.seller_payable a.merchandise_net old.merchandise
                    x.merchandise old.seller_reversal v.3 merch),
              subst
                  (λ n.
                    IsPartOf a.commission a.merchandise_net (x.merchandise + old.merchandise)
                      (n +ℤ old.commission_reversal))
                  (sym back)
                  (reversal-IsPartOf a.commission a.merchandise_net old.merchandise x.merchandise
                    old.commission_reversal v.4 merch),
            ),
          )
    ]
