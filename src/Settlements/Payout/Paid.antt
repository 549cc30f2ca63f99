-- ===== src/Settlements/Payout/Paid.antt =====
-- What a recorded payout does to the balances.
use Prim.Native.String.{String}
use text.Mathlib.Text.{◌==◌ as str_eq}
use mallbyte_api.Common.Table.{lookup}
use mallbyte_api.Common.{
  ℕ, ◌<◌, ◌≡◌, ap, ◌∙◌, inl, inr, ◌⊎◌, true, false, ◌&&◌, none, some, ◌==◌, ltb_ℤ, ◌≤ℤ◌,
  if◌then◌else◌, ℤ, pos, ◌+ℤ◌, ◌-ℤ◌, ok, arith, int_laws, Option-cases, Result-cases,
}
use mallbyte_api.Market.State.{Market}
use mallbyte_api.Returns.Row.{Returns}
use mallbyte_api.Settlements.Row.{Accounts, ConfirmedPayout, Books}
use mallbyte_api.Settlements.Capture.{balance_of, seller_balance}
use mallbyte_api.Settlements.Policy.{Deliveries}
use mallbyte_api.Settlements.Payout.{
  PayoutData, Settings, check_evidence, positive, find_payout, has_payout_reference, payout_matches,
  check_eligible, payout_entry, with_payout, post_confirmed_payout,
}

module _ (upper : String → String) (settings : Settings) (accounts : Accounts)
    (deliveries : Deliveries) (now : ℕ) (d : PayoutData) (db : Market) (r : Returns)
    (b : Books) where
  -- A call that ends well found the payout, or made it after all the checks.
  pub record Replayed (k : ℕ) (b' : Books) : Type 0 where
    pub at : ℕ
    pub evidence : check_evidence d.external_reference d.idempotency_key d.confirmed_at ≡ ok at
    pub amount : ℕ
    pub sign : positive d.amount ≡ ok amount
    pub row : ConfirmedPayout
    pub found : find_payout d.idempotency_key b.payouts ≡ some (k, row)
    pub matches : payout_matches upper d amount row ≡ true
    pub same : b' ≡ b

  pub record Made (k : ℕ) (b' : Books) : Type 0 where
    pub at : ℕ
    pub evidence : check_evidence d.external_reference d.idempotency_key d.confirmed_at ≡ ok at
    pub amount : ℕ
    pub sign : positive d.amount ≡ ok amount
    pub fresh : find_payout d.idempotency_key b.payouts ≡ none
    pub unused : has_payout_reference d.external_reference b.payouts ≡ false
    pub eligible : check_eligible upper settings deliveries d amount now db r b ≡ ok tt
    pub covered : ltb_ℤ (seller_balance upper d.seller d.currency b) (pos amount) ≡ false
    pub key : k ≡ b.next_key
    pub stored : b' ≡ with_payout upper d amount at b

  pub paid :
      (k : ℕ) (b' : Books)
      → post_confirmed_payout upper settings accounts deliveries now d db r b ≡ ok (k, b')
      → Replayed k b' ⊎ Made k b'
  unfolding post_confirmed_payout
  paid k b' h =
      elim (Result-cases (check_evidence d.external_reference d.idempotency_key d.confirmed_at)) [
        | inr (failure, bad) ↦ ground arith
        | inl (at, evidence) ↦ elim (Result-cases (positive d.amount)) [
          | inr (failure, bad) ↦ ground arith
          | inl (amount, sign) ↦ elim (Option-cases (find_payout d.idempotency_key b.payouts)) [
            | inr ((j, row), found) ↦
                let (matches, key, same) : (payout_matches upper d amount row ≡ true)
                    × (j ≡ k)
                    × (b' ≡ b) =
                  ground arith in
                inl (record {
                  at = at;
                  evidence = evidence;
                  amount = amount;
                  sign = sign;
                  row = row;
                  found = found ∙ ap (λ n. some (n, row)) key;
                  matches = matches;
                  same = same;
                })
            | inl fresh ↦ elim (Option-cases (lookup d.seller accounts.users)) [
              | inl missing ↦ ground arith
              | inr (user, known) ↦
                  elim (Result-cases
                    (check_eligible upper settings deliveries d amount now db r b)) [
                      | inr (failure, bad) ↦ ground arith
                      | inl (done, eligible) ↦
                          let (unused, covered, key, stored) : (has_payout_reference
                                  d.external_reference b.payouts
                                ≡ false)
                              × (ltb_ℤ (seller_balance upper d.seller d.currency b) (pos amount)
                                  ≡ false)
                              × (k ≡ b.next_key)
                              × (b' ≡ with_payout upper d amount at b) =
                            ground arith in
                          inr (record {
                            at = at;
                            evidence = evidence;
                            amount = amount;
                            sign = sign;
                            fresh = fresh;
                            unused = unused;
                            eligible = eligible;
                            covered = covered;
                            key = key;
                            stored = stored;
                          })
                    ]
            ]
          ]
        ]
      ]

-ℤ_zero : (x : ℤ) → x -ℤ pos 0 ≡ x
-ℤ_zero x = grind int_laws

pub negated : (n : ℕ) (x : ℤ) → pos 0 -ℤ pos n +ℤ x ≡ x -ℤ pos n
negated n x = grind int_laws

pub balance_of-with_payout :
    (upper : String → String) (d : PayoutData) (amount at seller : ℕ) (currency : String)
    (b : Books)
    → balance_of seller currency (with_payout upper d amount at b).entries
      ≡ balance_of seller currency b.entries
        -ℤ pos (if (d.seller == seller) && str_eq (upper d.currency) currency then amount else 0)
unfolding with_payout payout_entry balance_of
balance_of-with_payout upper d amount at seller currency b = ground (
  arith,
  -ℤ_zero (balance_of seller currency b.entries),
  negated amount (balance_of seller currency b.entries),
)

pub positive-ok : (a : ℤ) (amount : ℕ) → positive a ≡ ok amount → (a ≡ pos amount) × (0 < amount)
unfolding positive
positive-ok a amount h = ground arith

at_least : (x : ℤ) (n : ℕ) → ltb_ℤ x (pos n) ≡ false → pos n ≤ℤ x
at_least x n h = ground arith

-- A call that ends well either finds the payout that was recorded under its idempotency key, and
-- then changes nothing, or records one. Then the amount is positive and at most the seller's
-- balance in the currency, no payout had the key or the external reference, and the balance of
-- each seller in each currency falls by the amount where they are those of the payout, and stays
-- as it is elsewhere.
pub post_confirmed_payout-balance :
    (upper : String → String) (settings : Settings) (accounts : Accounts) (deliveries : Deliveries)
    (now k : ℕ) (d : PayoutData) (db : Market) (r : Returns) (b b' : Books)
    → post_confirmed_payout upper settings accounts deliveries now d db r b ≡ ok (k, b')
    → (((row : ConfirmedPayout) × (find_payout d.idempotency_key b.payouts ≡ some (k, row)))
        × (b' ≡ b))
      ⊎ ((amount : ℕ) × (d.amount ≡ pos amount)
          × (0 < amount)
          × (pos amount ≤ℤ seller_balance upper d.seller d.currency b)
          × (find_payout d.idempotency_key b.payouts ≡ none)
          × (has_payout_reference d.external_reference b.payouts ≡ false)
          × ((seller : ℕ) (currency : String)
              → seller_balance upper seller currency b'
                ≡ seller_balance upper seller currency b
                  -ℤ pos (
                      if (d.seller == seller) && str_eq (upper d.currency) (upper currency)
                      then amount
                      else 0)))
unfolding seller_balance
post_confirmed_payout-balance upper settings accounts deliveries now k d db r b b' h =
    elim (paid upper settings accounts deliveries now d db r b k b' h) [
      | inl x ↦ inl ((x.row, x.found), x.same)
      | inr m ↦
          let (same, sign) = positive-ok d.amount m.amount m.sign in
          inr (
            m.amount,
            same,
            sign,
            at_least (seller_balance upper d.seller d.currency b) m.amount m.covered,
            m.fresh,
            m.unused,
            λ seller currency.
                ap (λ x. balance_of seller (upper currency) x.entries) m.stored
                ∙ balance_of-with_payout upper d m.amount m.at seller (upper currency) b,
          )
    ]
