-- ===== src/Examples/Returning.antt =====
-- A return of a delivered item, and one of three items, approved in part.
use mallbyte_api.Common.Account.{User, is_admin_user}
use mallbyte_api.Common.Table.{lookup}
use mallbyte_api.Common.{ℕ, ◌≤◌, ◌≡◌, refl, true, false, none, some, [], ◌∷◌, pos, ok, err, arith}
use mallbyte_api.Returns.Row.{
  Status, submitted, ReturnRequest, requested, ItemStatus, ReturnItem, Returns,
}
use mallbyte_api.Market.State.{Market}
use mallbyte_api.Market.Row.{delivered}
use mallbyte_api.Orders.Query.{find_fulfillment}
use mallbyte_api.Returns.Submit.{
  ItemData, create_return_request, create_items, create_item, returned_quantity, new_return_item,
  new_request, get_already_returned_quantity, is_counted, was_delivered, has_return_item,
  above_available,
}
use mallbyte_api.Returns.Submit.Covered.{IsCovered, IsFiled, create_return_request-IsCovered}
use mallbyte_api.Returns.Life.{then, stop, submitting}
use mallbyte_api.Returns.Life.Reachable.{reachable-IsCovered}
use mallbyte_api.Examples.Shop.{ali, seller_order}
use mallbyte_api.Examples.Parcel.{sent}
use mallbyte_api.Returns.Review.{
  is_reviewable, moved, has_items, requested_total, last_funded_id, item_amount, allocate,
  approve_return_request,
}
use mallbyte_api.Returns.Review.Allocation.{approved_total}
use mallbyte_api.Returns.Review.Effect.{approve_return_request_effect}

abbrev clerk : User
clerk = record { id = 8; is_staff = true; is_superuser = false }

abbrev asked : ReturnRequest
asked = record {
  customer = some 3;
  order = 100;
  status = submitted;
  total_requested_amount = 3000;
  total_approved_amount = 0;
  reviewed_by = none;
  reviewed_at = none;
  closed_at = none;
}

-- One unit for 1000 hundredths.
abbrev item : ℕ → ReturnItem
item k = record {
  return_request = 1;
  order_item = k;
  quantity = 1;
  status = requested;
  requested_refund_amount = 1000;
  approved_refund_amount = 0;
}

abbrev granted : ℕ → ℕ → ReturnItem
granted k amount = record (item k) { status = ItemStatus.approved; approved_refund_amount = amount }

abbrev filed : Returns
filed = record {
  requests = (1, asked) ∷ [];
  items = (11, item 21) ∷ (12, item 22) ∷ (13, item 23) ∷ [];
  shipments = [];
  history = [];
  next_key = 14;
}

-- Of 2999 hundredths the last item gets one more than was requested for it.
abbrev reviewed : Returns
reviewed = record filed {
  requests =
      (
        1,
        record asked {
          status = Status.approved;
          total_approved_amount = 2999;
          reviewed_by = some 8;
          reviewed_at = some 70;
        },
      )
      ∷ [];
  items = (11, granted 21 999) ∷ (12, granted 22 999) ∷ (13, granted 23 1001) ∷ [];
  history =
      record {
        return_request = 1;
        old_status = some submitted;
        new_status = Status.approved;
        changed_by = 8;
      }
      ∷ [];
}

approved_in_part : approve_return_request clerk 70 (some (pos 2999)) 1 filed ≡ ok reviewed
unfolding approve_return_request moved has_items requested_total last_funded_id item_amount allocate
    is_admin_user
approved_in_part = refl

approve_return_request_effect_example :
    (old new : ReturnRequest) × (lookup 1 filed.requests ≡ some old)
    × (is_reviewable old.status ≡ true)
    × (requested_total 1 filed.items ≡ old.total_requested_amount)
    × (lookup 1 reviewed.requests ≡ some new)
    × (new.status ≡ Status.approved)
    × (new.total_approved_amount ≤ new.total_requested_amount)
    × (approved_total 1 reviewed.items ≡ new.total_approved_amount)
approve_return_request_effect_example =
    approve_return_request_effect clerk 70 (some (pos 2999)) 1 filed reviewed approved_in_part
      (refl, (refl, (refl, tt)))

-- The shop after the delivery.
abbrev arrived : Market
arrived = record sent { fulfillments = (102, seller_order delivered) ∷ [] }

abbrev unreturned : Returns
unreturned = record { requests = []; items = []; shipments = []; history = []; next_key = 1 }

abbrev three_back : ItemData
three_back = record { order_item = 101; quantity = pos 3 }

abbrev handed_in : Returns
handed_in = record {
  requests = (1, record asked { total_requested_amount = 7500 }) ∷ [];
  items = (2, record (item 101) { quantity = 3; requested_refund_amount = 7500 }) ∷ [];
  shipments = [];
  history =
      record { return_request = 1; old_status = none; new_status = submitted; changed_by = 3 } ∷ [];
  next_key = 3;
}

submitted_return :
    create_return_request ali 100 (three_back ∷ []) arrived unreturned ≡ ok (1, handed_in)
unfolding create_return_request create_items create_item returned_quantity new_return_item
    new_request get_already_returned_quantity was_delivered has_return_item find_fulfillment
submitted_return = refl

-- Two more of the four are one too many.
two_more :
    create_return_request ali 100
      (record { order_item = 101; quantity = pos 2 } ∷ [])
      arrived
      handed_in
    ≡ err above_available
unfolding create_return_request create_items create_item returned_quantity new_return_item
    new_request get_already_returned_quantity is_counted was_delivered has_return_item
    find_fulfillment
two_more = refl

none_returned : IsCovered arrived unreturned
unfolding get_already_returned_quantity
none_returned k i found = omega arith

create_return_request-IsCovered_example : IsCovered arrived handed_in
create_return_request-IsCovered_example =
    create_return_request-IsCovered ali 100 (three_back ∷ []) arrived unreturned handed_in 1
      submitted_return tt none_returned

reachable-IsCovered_example : IsFiled handed_in × IsCovered arrived handed_in
reachable-IsCovered_example =
    reachable-IsCovered (then (submitting ali 100 1 (three_back ∷ []) submitted_return) stop)
      (tt, none_returned)
