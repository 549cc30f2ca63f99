-- ===== src/Settlements/Payout/Released.antt =====
-- A payout takes its amount from what the seller can withdraw.
use mathlib.Core.Path.{subst}
use Prim.Native.String.{String}
use text.Mathlib.TextPositions.{eq_refl}
use mallbyte_api.Common.{
  ℕ, ◌+◌, ◌*◌, ◌≤◌, ◌<◌, ◌≡◌, ◌⊎◌, refl, ap, sym, ◌∙◌, inl, inr, true, none, some, List, ℤ, pos,
  negsuc, pos_part, ◌+ℤ◌, ◌-ℤ◌, ok, arith, int_laws, Result-cases,
}
use mallbyte_api.Market.State.{Market}
use mallbyte_api.Returns.Row.{Returns}
use mallbyte_api.Payments.Complete.{aware}
use mallbyte_api.Settlements.Row.{Accounts, ItemAllocation, Books}
use mallbyte_api.Settlements.Capture.{balance_of, seller_balance}
use mallbyte_api.Settlements.Policy.{
  Deliveries, Eligibility, eligible_credits, debits, min_ℤ, payout_eligibility,
}
use mallbyte_api.Settlements.Payout.{
  PayoutData, Settings, check_evidence, find_payout, check_eligible, payout_entry, with_payout,
  post_confirmed_payout,
}
use mallbyte_api.Settlements.Payout.Paid.{negated, paid, positive-ok, balance_of-with_payout}

-- The least of two balances falls with both.
min_ℤ-sub :
    (x y : ℤ) (n : ℕ)
    → n ≤ pos_part (min_ℤ x y)
    → 0 < n
    → pos_part (min_ℤ (x -ℤ pos n) (y -ℤ pos n)) + n ≡ pos_part (min_ℤ x y)
unfolding ◌-ℤ◌
min_ℤ-sub x y n le p = ground arith

moved : (x y : ℤ) (n : ℕ) → x +ℤ (y -ℤ pos n) ≡ (x +ℤ y) -ℤ pos n
moved x y n = grind int_laws

least_falls :
    (t t' c c' s s' : ℤ) (n w : ℕ)
    → t' ≡ t -ℤ pos n
    → c' ≡ c
    → s' ≡ s -ℤ pos n
    → w ≡ pos_part (min_ℤ t (c +ℤ s))
    → n ≤ w
    → 0 < n
    → pos_part (min_ℤ t' (c' +ℤ s')) + n ≡ w
least_falls t t' c c' s s' n w et ec es ew le p =
    rw (et, ec, es, moved c s n) (min_ℤ-sub t (c +ℤ s) n (subst (λ m. n ≤ m) ew le) p ∙ sym ew)

module _ (upper : String → String) (deliveries : Deliveries) (now : ℕ) (d : PayoutData)
    (db : Market) (r : Returns) (b : Books) (amount at : ℕ) where
  eligible_credits-kept :
      (hold : ℕ) (rows : List (ℕ × ItemAllocation))
      → eligible_credits d.seller
          (upper d.currency)
          hold
          now
          deliveries
          db
          r
          rows
          (with_payout upper d amount at b).entries
        ≡ eligible_credits d.seller (upper d.currency) hold now deliveries db r rows b.entries
  unfolding eligible_credits with_payout payout_entry
  eligible_credits-kept hold rows = ground arith

  debits-fall :
      at ≤ now
      → debits d.seller (upper d.currency) now (with_payout upper d amount at b).entries
        ≡ debits d.seller (upper d.currency) now b.entries -ℤ pos amount
  unfolding debits with_payout payout_entry
  debits-fall le = ground (
    arith,
    eq_refl (upper d.currency),
    negated amount (debits d.seller (upper d.currency) now b.entries),
  )

  total-falls :
      upper (upper d.currency) ≡ upper d.currency
      → seller_balance upper d.seller (upper d.currency) (with_payout upper d amount at b)
        ≡ seller_balance upper d.seller (upper d.currency) b -ℤ pos amount
  unfolding seller_balance
  total-falls same =
      balance_of-with_payout upper d amount at d.seller (upper (upper d.currency)) b
      ∙ ap (λ n. balance_of d.seller (upper (upper d.currency)) b.entries -ℤ pos n)
          (rw same (ground (arith, eq_refl (upper d.currency))))

  withdrawable-falls :
      (hold_days : ℕ) (e : Eligibility)
      → upper (upper d.currency) ≡ upper d.currency
      → at ≤ now
      → payout_eligibility upper (pos hold_days) deliveries d.seller d.currency now db r b ≡ ok e
      → amount ≤ e.withdrawable_amount
      → 0 < amount
      → (e' : Eligibility) × (payout_eligibility upper
            (pos hold_days)
            deliveries
            d.seller
            d.currency
            now
            db
            r
            (with_payout upper d amount at b)
          ≡ ok e')
        × (e'.withdrawable_amount + amount ≡ e.withdrawable_amount)
  unfolding payout_eligibility with_payout
  withdrawable-falls hold_days e same le h few p =
      let hold = 86400 * hold_days in
      (
        _,
        refl,
        least_falls (seller_balance upper d.seller (upper d.currency) b)
            (seller_balance upper d.seller (upper d.currency) (with_payout upper d amount at b))
            (eligible_credits d.seller (upper d.currency) hold now deliveries db r b.allocations
              b.entries)
            (eligible_credits d.seller (upper d.currency) hold now deliveries db r b.allocations
              (with_payout upper d amount at b).entries)
            (debits d.seller (upper d.currency) now b.entries)
            (debits d.seller (upper d.currency) now (with_payout upper d amount at b).entries)
            amount e.withdrawable_amount (total-falls same)
            (eligible_credits-kept hold b.allocations) (debits-fall le) (ground (arith, h)) few p,
      )

Hold-cases : (n : ℤ) → ((m : ℕ) × (n ≡ pos m)) ⊎ ((m : ℕ) × (n ≡ negsuc m))
Hold-cases (pos m) = inl (m, refl)
Hold-cases (negsuc m) = inr (m, refl)

released :
    (upper : String → String) (settings : Settings) (deliveries : Deliveries) (now : ℕ)
    (d : PayoutData) (amount : ℕ) (db : Market) (r : Returns) (b : Books)
    → settings.ledger_enabled ≡ true
    → check_eligible upper settings deliveries d amount now db r b ≡ ok tt
    → (hold_days : ℕ) × (settings.hold_days ≡ pos hold_days)
      × (e : Eligibility) × (payout_eligibility upper
            (pos hold_days)
            deliveries
            d.seller
            d.currency
            now
            db
            r
            b
          ≡ ok e)
      × (amount ≤ e.withdrawable_amount)
unfolding check_eligible payout_eligibility
released upper settings deliveries now d amount db r b on h =
    elim (Result-cases
      (payout_eligibility upper settings.hold_days deliveries d.seller d.currency now db r b)) [
        | inr (failure, bad) ↦ ground arith
        | inl (e, fine) ↦ elim (Hold-cases settings.hold_days) [
          | inl (n, same) ↦ (
            n,
            same,
            e,
            ap (λ m. payout_eligibility upper m deliveries d.seller d.currency now db r b)
                  (sym same)
                ∙ fine,
            ground arith,
          )
          | inr (n, same) ↦ ground arith
        ]
      ]

evidence_time :
    (d : PayoutData) (t t' : ℕ)
    → check_evidence d.external_reference d.idempotency_key (some (aware t)) ≡ ok t'
    → t ≡ t'
unfolding check_evidence
evidence_time d t t' h = ground arith

evidence_at :
    (d : PayoutData) (t t' : ℕ)
    → d.confirmed_at ≡ some (aware t)
    → check_evidence d.external_reference d.idempotency_key d.confirmed_at ≡ ok t'
    → t ≡ t'
evidence_at d t t' e h =
    evidence_time d t t' (ap (check_evidence d.external_reference d.idempotency_key) (sym e) ∙ h)

-- With the ledger enabled, where `upper` leaves a currency that it has made as it is, recording a
-- new payout that was confirmed by now takes exactly its amount from what the seller can withdraw
-- in the currency: the withdrawable amount before is the one after and the payout together.
pub post_confirmed_payout-released :
    (upper : String → String) (settings : Settings) (accounts : Accounts) (deliveries : Deliveries)
    (now k at : ℕ) (d : PayoutData) (db : Market) (r : Returns) (b b' : Books)
    → settings.ledger_enabled ≡ true
    → upper (upper d.currency) ≡ upper d.currency
    → d.confirmed_at ≡ some (aware at)
    → at ≤ now
    → find_payout d.idempotency_key b.payouts ≡ none
    → post_confirmed_payout upper settings accounts deliveries now d db r b ≡ ok (k, b')
    → (amount : ℕ) × (d.amount ≡ pos amount)
      × (e : Eligibility) × (e' : Eligibility) × (payout_eligibility upper settings.hold_days
            deliveries d.seller d.currency now db r b
          ≡ ok e)
      × (payout_eligibility upper settings.hold_days deliveries d.seller d.currency now db r b'
          ≡ ok e')
      × (e'.withdrawable_amount + amount ≡ e.withdrawable_amount)
post_confirmed_payout-released upper settings accounts deliveries now k at d db r b b' on same
      confirmed le new h =
    elim (paid upper settings accounts deliveries now d db r b k b' h) [
      | inl x ↦ cc
      | inr m ↦
          let (a_same, sign) = positive-ok d.amount m.amount m.sign in
          let (hold_days, held, e, fine, few) =
            released upper settings deliveries now d m.amount db r b on m.eligible in
          let (e', fine', falls) =
            withdrawable-falls upper deliveries now d db r b m.amount m.at hold_days e same
              (subst (λ t. t ≤ now) (evidence_at d at m.at confirmed m.evidence) le) fine few
              sign in
          (
            m.amount,
            a_same,
            e,
            e',
            ap (λ n. payout_eligibility upper n deliveries d.seller d.currency now db r b) held
                ∙ fine,
            ap (λ n. payout_eligibility upper n deliveries d.seller d.currency now db r b') held
                ∙ ap
                    (λ x.
                      payout_eligibility upper (pos hold_days) deliveries d.seller d.currency now db
                        r x)
                    m.stored
                ∙ fine',
            falls,
          )
    ]
