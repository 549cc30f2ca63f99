-- ===== src/Examples/Payout.antt =====
-- A payout to the seller of an order, and a refund of it.
use Prim.Native.String.{String}
use text.Mathlib.Text.{◌==◌ as str_eq}
use mallbyte_api.Common.{
  ℕ, ◌+◌, ◌<◌, ◌≡◌, refl, ◌⊎◌, true, false, none, some, [], ◌∷◌, pos, negsuc, ◌+ℤ◌, ◌-ℤ◌, ◌≤ℤ◌,
  ◌==◌, ◌&&◌, if◌then◌else◌, ok, arith,
}
use mallbyte_api.Returns.Row.{Status, ItemStatus, Returns}
use mallbyte_api.Payments.Complete.{aware}
use mallbyte_api.Settlements.Row.{ConfirmedPayout, Kind, payout, payout_key, refund_key, Books}
use mallbyte_api.Settlements.Build.{is_for}
use mallbyte_api.Settlements.Capture.{balance_of, seller_balance}
use mallbyte_api.Settlements.Policy.{Deliveries, Eligibility, payout_eligibility}
use mallbyte_api.Settlements.Payout.{
  PayoutData, Settings, find_payout, has_payout_reference, post_confirmed_payout,
}
use mallbyte_api.Settlements.Payout.Paid.{post_confirmed_payout-balance}
use mallbyte_api.Settlements.Payout.Replay.{post_confirmed_payout-replay}
use mallbyte_api.Settlements.Payout.Released.{post_confirmed_payout-released}
use mallbyte_api.Settlements.Refund.Line.{used, reversed, used_on_return, reversal}
use mallbyte_api.Settlements.Refund.Replay.{RefundData}
use mallbyte_api.Settlements.Refund.Check.{refunded_amount}
use mallbyte_api.Settlements.Refund.Post.{post_verified_refund}
use mallbyte_api.Settlements.Refund.Bounds.{
  AreWithin, AreCovered, post_verified_refund-AreWithin, post_verified_refund-AreCovered,
}
use mallbyte_api.Examples.Ledger.{accounts, credit, credited}
use mallbyte_api.Examples.Shop.{same}
use mallbyte_api.Examples.Settled.{settled}

-- A payout of 5000 hundredths, on the fifteenth day after the delivery.
abbrev transfer : PayoutData
transfer = record {
  seller = 7;
  currency = "IRR";
  amount = pos 5000;
  external_reference = "B-1";
  idempotency_key = "K-1";
  confirmed_at = some (aware 1300000);
}

abbrev settings : Settings
settings = record { ledger_enabled = true; hold_days = pos 14 }

abbrev no_returns : Returns
no_returns = record { requests = []; items = []; shipments = []; history = []; next_key = 1 }

abbrev deliveries : Deliveries
deliveries = (102, 40) ∷ []

abbrev paid_out : Books
paid_out = record credited {
  payouts =
      (
        201,
        record {
          seller = 7;
          currency = "IRR";
          amount = 5000;
          external_reference = "B-1";
          idempotency_key = "K-1";
          confirmed_at = 1300000;
        },
      )
      ∷ [];
  entries =
      record {
        seller = 7;
        currency = "IRR";
        kind = payout;
        amount = negsuc 4999;
        source_key = payout_key 201;
        allocation = none;
        refund = none;
        occurred_at = 1300000;
      }
      ∷ credit
      ∷ [];
  next_key = 202;
}

paying :
    post_confirmed_payout same settings accounts deliveries 1300001 transfer settled no_returns
      credited
    ≡ ok (201, paid_out)
unfolding post_confirmed_payout balance_of seller_balance ◌+ℤ◌ ◌-ℤ◌
paying = refl

post_confirmed_payout-balance_example :
    (((row : ConfirmedPayout) × (find_payout "K-1" credited.payouts ≡ some (201, row)))
      × (paid_out ≡ credited))
    ⊎ ((amount : ℕ) × (transfer.amount ≡ pos amount)
        × (0 < amount)
        × (pos amount ≤ℤ seller_balance same 7 "IRR" credited)
        × (find_payout "K-1" credited.payouts ≡ none)
        × (has_payout_reference "B-1" credited.payouts ≡ false)
        × ((seller : ℕ) (currency : String)
            → seller_balance same seller currency paid_out
              ≡ seller_balance same seller currency credited
                -ℤ pos (if (7 == seller) && str_eq "IRR" currency then amount else 0)))
post_confirmed_payout-balance_example =
    post_confirmed_payout-balance same settings accounts deliveries 1300001 201 transfer settled
      no_returns credited paid_out paying

-- The same report a second later.
post_confirmed_payout-replay_example :
    post_confirmed_payout same settings accounts deliveries 1300002 transfer settled no_returns
      paid_out
    ≡ ok (201, paid_out)
post_confirmed_payout-replay_example =
    post_confirmed_payout-replay same settings settings accounts accounts deliveries deliveries
      1300001 1300002 201 transfer settled settled no_returns no_returns credited paid_out paying

new_key : find_payout "K-1" credited.payouts ≡ none
unfolding find_payout
new_key = refl

post_confirmed_payout-released_example :
    (amount : ℕ) × (transfer.amount ≡ pos amount)
    × (e : Eligibility) × (e' : Eligibility) × (payout_eligibility same
          (pos 14)
          deliveries
          7
          "IRR"
          1300001
          settled
          no_returns
          credited
        ≡ ok e)
    × (payout_eligibility same (pos 14) deliveries 7 "IRR" 1300001 settled no_returns paid_out
        ≡ ok e')
    × (e'.withdrawable_amount + amount ≡ e.withdrawable_amount)
post_confirmed_payout-released_example =
    post_confirmed_payout-released same settings accounts deliveries 1300001 201 1300000 transfer
      settled no_returns credited paid_out refl refl refl (omega arith) new_key paying

-- A return of one mug, approved at 3000 hundredths.
abbrev returned : Returns
returned = record no_returns {
  requests =
      (
        1,
        record {
          customer = some 3;
          order = 100;
          status = Status.approved;
          total_requested_amount = 3000;
          total_approved_amount = 3000;
          reviewed_by = none;
          reviewed_at = none;
          closed_at = none;
        },
      )
      ∷ [];
  items =
      (
        2,
        record {
          return_request = 1;
          order_item = 101;
          quantity = 1;
          status = ItemStatus.approved;
          requested_refund_amount = 3000;
          approved_refund_amount = 3000;
        },
      )
      ∷ [];
  next_key = 3;
}

-- 2500 for the merchandise and 500 for the shipping.
abbrev refund_call : RefundData
refund_call = record {
  payment = 104;
  return_request = 1;
  amount = pos 3000;
  currency = "IRR";
  gateway_reference = "G-1";
  idempotency_key = "F-1";
  lines = record { order_item = 101; merchandise = pos 2500; shipping = pos 500; tax = pos 0 } ∷ [];
  confirmed_at = some (aware 50);
}

-- The seller gives back 2250 of 8100, the commission 250 of 900.
abbrev refunded : Books
refunded = record credited {
  refunds =
      (
        201,
        record {
          payment = 104;
          return_request = 1;
          gateway_reference = "G-1";
          idempotency_key = "F-1";
          currency = "IRR";
          amount = 3000;
          confirmed_at = 50;
        },
      )
      ∷ [];
  refund_allocations =
      record {
        refund = 201;
        allocation = 200;
        customer_amount = 3000;
        customer_merchandise = 2500;
        customer_shipping = 500;
        customer_tax = 0;
        seller_reversal = pos 2250;
        commission_reversal = pos 250;
      }
      ∷ [];
  entries =
      record {
        seller = 7;
        currency = "IRR";
        kind = Kind.refund;
        amount = negsuc 2249;
        source_key = refund_key 201 200;
        allocation = some 200;
        refund = some 201;
        occurred_at = 50;
      }
      ∷ credit
      ∷ [];
  next_key = 202;
}

refunding :
    post_verified_refund same refund_call settled returned credited ≡ ok (201, settled, refunded)
unfolding post_verified_refund is_for used reversed used_on_return reversal ◌+ℤ◌ ◌-ℤ◌
refunding = refl

credited-AreWithin : AreWithin credited
unfolding used reversed
credited-AreWithin k a h = ground arith

credited-AreCovered : AreCovered settled credited
unfolding refunded_amount
credited-AreCovered pk p h = ground arith

post_verified_refund-AreWithin_example : AreWithin refunded
post_verified_refund-AreWithin_example =
    post_verified_refund-AreWithin same refund_call 201 settled settled returned credited refunded
      (refl, tt) credited-AreWithin refunding

post_verified_refund-AreCovered_example : AreCovered settled refunded
post_verified_refund-AreCovered_example =
    post_verified_refund-AreCovered same refund_call 201 settled settled returned credited refunded
      credited-AreCovered refunding
