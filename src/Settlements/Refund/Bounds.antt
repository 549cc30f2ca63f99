-- ===== src/Settlements/Refund/Bounds.antt =====
-- What every refund keeps: the refunds within what was charged, and within what was captured.
use Prim.Native.String.{String}
use mathlib.Core.Path.{subst}
use mallbyte_api.Common.Table.{lookup, lookup-save_self, lookup-save_ne, IsKeyed}
use mallbyte_api.Common.{
  ℕ, ◌+◌, ◌*◌, ◌≤◌, ◌≡◌, refl, ap, sym, ◌∙◌, inl, inr, true, false, Option, some, List, ◌==◌,
  if◌then◌else◌, ok, arith, Bool-cases,
}
use mallbyte_api.Market.Row.{Payment}
use mallbyte_api.Market.State.{Market}
use mallbyte_api.Returns.Row.{ReturnRequest, Returns}
use mallbyte_api.Settlements.Row.{ItemAllocation, ConfirmedRefund, Books}
use mallbyte_api.Settlements.Refund.Line.{Refunded}
use mallbyte_api.Settlements.Refund.Replay.{RefundData}
use mallbyte_api.Settlements.Refund.Check.{repeats, refunded_amount, check_refund, check_lines}
use mallbyte_api.Settlements.Refund.Post.{
  refunded_payment, new_refund, with_refund, settle_payment, post_verified_refund,
}
use mallbyte_api.Settlements.Refund.Within.{totals, IsWithin}
use mallbyte_api.Settlements.Refund.Kept.{refund_lines-IsWithin}
use mallbyte_api.Settlements.Refund.Effect.{recorded}

-- The refunds of every allocation stay within it: the merchandise, the shipping and the tax within
-- what it charged, what was taken back within what the seller and the platform got, and all of it
-- once all of the merchandise was refunded.
abbrev pub AreWithin : Books → Type 0
AreWithin b =
    (k : ℕ) (a : ItemAllocation)
    → lookup k b.allocations ≡ some a
    → IsWithin a (totals k b.refund_allocations)

check_lines-distinct :
    (d : RefundData) (p : Payment) (request : ReturnRequest) (db : Market) (r : Returns) (b : Books)
    → check_lines d p request db r b ≡ ok tt
    → repeats d.lines ≡ false
unfolding check_lines
check_lines-distinct d p request db r b h = ground arith

-- Where the allocations have different keys, a refund that is recorded, or found again, keeps the
-- refunds of every allocation within it: the sums of the refunded merchandise, shipping and tax
-- within the amounts that it charged; what was taken back of the seller's part and of the
-- commission neither below 0 nor above them, and exactly all of them once all of the merchandise
-- was refunded.
pub post_verified_refund-AreWithin :
    (upper : String → String) (d : RefundData) (k : ℕ) (db db' : Market) (r : Returns)
    (b b' : Books)
    → IsKeyed b.allocations
    → AreWithin b
    → post_verified_refund upper d db r b ≡ ok (k, db', b')
    → AreWithin b'
unfolding with_refund
post_verified_refund-AreWithin upper d k db db' r b b' keyed v h =
    elim (recorded upper d db r b k db' b' h) [
      | inl x ↦ subst AreWithin (sym x.same) v
      | inr m ↦ subst AreWithin (sym m.stored) (λ j a at.
          refund_lines-IsWithin m.payment.order d.return_request db.items b.allocations keyed
            r.items b.refunds b.refund_allocations b.next_key j a d.lines m.done
            b.refund_allocations at
            (check_lines-distinct d m.payment m.request db r b m.lines_checked) m.lines_done refl
            (v j a at))
    ]

-- No payment has refunds above the amount that was captured.
abbrev pub AreCovered : Market → Books → Type 0
AreCovered db b =
    (pk : ℕ) (p : Payment)
    → lookup pk db.payments ≡ some p
    → refunded_amount pk b.refunds ≤ 100 * p.amount

check_refund-covered :
    (upper : String → String) (d : RefundData) (amount : ℕ) (p : Payment) (request : ReturnRequest)
    (refunds : List (ℕ × ConfirmedRefund))
    → check_refund upper d amount p request refunds ≡ ok tt
    → amount + refunded_amount d.payment refunds ≤ 100 * p.amount
unfolding check_refund
check_refund-covered upper d amount p request refunds h = ground arith

refunded_amount-with_refund :
    (upper : String → String) (d : RefundData) (amount at pk : ℕ) (done : List Refunded) (b : Books)
    → refunded_amount pk (with_refund upper d amount at done b).refunds
      ≡ (if d.payment == pk then amount else 0) + refunded_amount pk b.refunds
unfolding with_refund new_refund refunded_amount
refunded_amount-with_refund upper d amount at pk done b = refl

settle_payment-amount :
    (d : RefundData) (at pk : ℕ) (p new : Payment) (refunds : List (ℕ × ConfirmedRefund))
    (db : Market)
    → lookup d.payment db.payments ≡ some p
    → lookup pk (settle_payment d at p refunds db).payments ≡ some new
    → (old : Payment) × (lookup pk db.payments ≡ some old) × (old.amount ≡ new.amount)
unfolding settle_payment
settle_payment-amount d at pk p new refunds db paid h =
    elim (Bool-cases (refunded_amount d.payment refunds == 100 * p.amount)) [
      | inr less ↦ (new, ground arith, refl)
      | inl all ↦ elim (Bool-cases (pk == d.payment)) [
        | inl here ↦ (
          p,
          ap (λ n. lookup n db.payments) (ground arith) ∙ paid,
          ground (arith, lookup-save_self d.payment (refunded_payment at p) p db.payments paid),
        )
        | inr there ↦ (
          new,
          ground (arith, lookup-save_ne d.payment pk (refunded_payment at p) db.payments),
          refl,
        )
      ]
    ]

same_payment : (o : Option Payment) (a c : Payment) → o ≡ some a → o ≡ some c → a ≡ c
same_payment o a c h g = cc

key_eq : (a c : ℕ) → (a == c) ≡ true → a ≡ c
key_eq a c h = ground arith

covered :
    (payment pk amount : ℕ) (paid old new : Payment) (db : Market) (b : Books) (after : ℕ)
    → after ≡ (if payment == pk then amount else 0) + refunded_amount pk b.refunds
    → lookup payment db.payments ≡ some paid
    → lookup pk db.payments ≡ some old
    → old.amount ≡ new.amount
    → amount + refunded_amount payment b.refunds ≤ 100 * paid.amount
    → refunded_amount pk b.refunds ≤ 100 * old.amount
    → after ≤ 100 * new.amount
covered payment pk amount paid old new db b after e h g same le le' =
    elim (Bool-cases (payment == pk)) [
      | inl here ↦
          let one : paid ≡ old =
            same_payment (lookup pk db.payments) paid old
              (ap (λ n. lookup n db.payments) (ground arith) ∙ h) g in
          ground (
            arith,
            ap (λ n. refunded_amount n b.refunds) (key_eq payment pk here),
            ap (λ n. n.amount) one,
          )
      | inr there ↦ ground arith
    ]

-- Where no payment has refunds above its captured amount, none has after a refund that is recorded
-- or found again.
pub post_verified_refund-AreCovered :
    (upper : String → String) (d : RefundData) (k : ℕ) (db db' : Market) (r : Returns)
    (b b' : Books)
    → AreCovered db b
    → post_verified_refund upper d db r b ≡ ok (k, db', b')
    → AreCovered db' b'
post_verified_refund-AreCovered upper d k db db' r b b' v h pk p at =
    elim (recorded upper d db r b k db' b' h) [
      | inl x ↦
          subst (λ s. AreCovered s b') (sym x.same_db) (subst (AreCovered db) (sym x.same) v) pk p
            at
      | inr m ↦
          let (old, stored, amount) =
            settle_payment-amount d m.at pk m.payment p b'.refunds db m.paid
              (subst (λ s. lookup pk s.payments ≡ some p) m.settled at) in
          covered d.payment pk m.amount m.payment old p db b (refunded_amount pk b'.refunds)
            (ap (λ s. refunded_amount pk s.refunds) m.stored
              ∙ refunded_amount-with_refund upper d m.amount m.at pk m.done b)
            m.paid stored amount
            (check_refund-covered upper d m.amount m.payment m.request b.refunds m.checked)
            (v pk old stored)
    ]
