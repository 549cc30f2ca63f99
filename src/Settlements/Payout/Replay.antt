-- ===== src/Settlements/Payout/Replay.antt =====
-- A payout that is reported twice is recorded once.
use Prim.Native.String.{String}
use text.Mathlib.TextPositions.{eq_refl}
use mallbyte_api.Common.{ℕ, ◌≡◌, refl, ap, sym, ◌∙◌, inl, inr, true, some, ok, arith}
use mallbyte_api.Market.State.{Market}
use mallbyte_api.Returns.Row.{Returns}
use mallbyte_api.Settlements.Row.{Accounts, ConfirmedPayout, Books}
use mallbyte_api.Settlements.Policy.{Deliveries}
use mallbyte_api.Settlements.Payout.{
  PayoutData, Settings, check_evidence, positive, find_payout, payout_matches, payout_row,
  with_payout, post_confirmed_payout,
}
use mallbyte_api.Settlements.Payout.Paid.{paid}

-- A call that finds its payout gives it back.
replays :
    (upper : String → String) (settings : Settings) (accounts : Accounts) (deliveries : Deliveries)
    (now k at amount : ℕ) (d : PayoutData) (db : Market) (r : Returns) (b : Books)
    (row : ConfirmedPayout)
    → check_evidence d.external_reference d.idempotency_key d.confirmed_at ≡ ok at
    → positive d.amount ≡ ok amount
    → find_payout d.idempotency_key b.payouts ≡ some (k, row)
    → payout_matches upper d amount row ≡ true
    → post_confirmed_payout upper settings accounts deliveries now d db r b ≡ ok (k, b)
unfolding post_confirmed_payout
replays upper settings accounts deliveries now k at amount d db r b row evidence sign found
      matches =
    ground arith

found_payout :
    (upper : String → String) (d : PayoutData) (amount at : ℕ) (b : Books)
    → (row : ConfirmedPayout) × (find_payout d.idempotency_key
          (with_payout upper d amount at b).payouts
        ≡ some (b.next_key, row))
      × (payout_matches upper d amount row ≡ true)
unfolding with_payout payout_row find_payout payout_matches
found_payout upper d amount at b = (
  payout_row upper d amount at,
  rw (eq_refl d.idempotency_key) refl,
  ground (arith, eq_refl (upper d.currency), eq_refl d.external_reference),
)

-- Recording a payout is safe to replay: after a call that ended well, the same call at any later
-- time, with whatever settings, deliveries and tables of the shop there are then, gives the same
-- payout and changes nothing.
pub post_confirmed_payout-replay :
    (upper : String → String) (settings settings' : Settings) (accounts accounts' : Accounts)
    (deliveries deliveries' : Deliveries) (now now' k : ℕ) (d : PayoutData) (db db' : Market)
    (r r' : Returns) (b b' : Books)
    → post_confirmed_payout upper settings accounts deliveries now d db r b ≡ ok (k, b')
    → post_confirmed_payout upper settings' accounts' deliveries' now' d db' r' b' ≡ ok (k, b')
post_confirmed_payout-replay upper settings settings' accounts accounts' deliveries deliveries' now
      now' k d db db' r r' b b' h =
    elim (paid upper settings accounts deliveries now d db r b k b' h) [
      | inl x ↦
          replays upper settings' accounts' deliveries' now' k x.at x.amount d db' r' b' x.row
            x.evidence x.sign (ap (λ c. find_payout d.idempotency_key c.payouts) x.same ∙ x.found)
            x.matches
      | inr m ↦
          let (row, found, matches) = found_payout upper d m.amount m.at b in
          replays upper settings' accounts' deliveries' now' k m.at m.amount d db' r' b' row
            m.evidence m.sign
            (ap (λ c. find_payout d.idempotency_key c.payouts) m.stored
              ∙ found
              ∙ ap (λ n. some (n, row)) (sym m.key))
            matches
    ]
