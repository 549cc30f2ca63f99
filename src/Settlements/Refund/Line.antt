-- ===== src/Settlements/Refund/Line.antt =====
-- The loop of `post_verified_refund` over the lines: what a line refunds, and what it takes back
-- from the seller and from the commission.
use mallbyte_api.Common.Table.{lookup}
use mallbyte_api.Common.{
  ℕ, ◌+◌, ◌*◌, ◌/◌, Bool, false, ◌&&◌, ◌||◌, Option, none, some, List, [], ◌∷◌, ltb, ◌==◌,
  if◌then◌else◌, ℤ, pos, ◌+ℤ◌, ◌-ℤ◌, Result, ok, err, ◌>>=◌, ◌>>◌, raise_if, or_raise,
}
use mallbyte_api.Market.Row.{OrderItem}
use mallbyte_api.Returns.Row.{ReturnItem}
use mallbyte_api.Settlements.Row.{ItemAllocation, ConfirmedRefund, RefundAllocation}
use mallbyte_api.Settlements.Failure.{
  Error, item_not_returned, invalid_line, exceeds_charged, exceeds_approved,
}
use mallbyte_api.Settlements.Build.{is_for}
use mallbyte_api.Settlements.Policy.{min_ℤ}

-- A line of the breakdown, its amounts after `money`, 0 where the line has none.
pub record RefundLine : Type 0 where
  pub order_item : ℕ
  pub merchandise : ℤ
  pub shipping : ℤ
  pub tax : ℤ

-- An entry of `refund_lines`, with the key of its allocation.
pub record Refunded : Type 0 where
  pub key : ℕ
  pub allocation : ItemAllocation
  pub merchandise : ℕ
  pub shipping : ℕ
  pub tax : ℕ
  pub seller_debit : ℤ
  pub commission_reversal : ℤ

-- `existing_items[item]`: the allocation of an item of the order.
unfoldable pub find_allocation :
    ℕ → ℕ → List (ℕ × OrderItem) → List (ℕ × ItemAllocation) → Option (ℕ × ItemAllocation)
find_allocation item order items [] = none
find_allocation item order items ((k, a) ∷ rest) =
    if (a.order_item == item) && is_for order items a
    then some (k, a)
    else find_allocation item order items rest

-- `return_items[item]`: the item of the request.
unfoldable pub find_return_item : ℕ → ℕ → List (ℕ × ReturnItem) → Option ReturnItem
find_return_item item request [] = none
find_return_item item request ((k, i) ∷ rest) =
    if (i.order_item == item) && (i.return_request == request)
    then some i
    else find_return_item item request rest

-- A column summed over the rows of `prior`.
unfoldable pub used : (RefundAllocation → ℕ) → ℕ → List RefundAllocation → ℕ
used column k [] = 0
used column k (a ∷ rest) = (if a.allocation == k then column a else 0) + used column k rest

unfoldable pub reversed : (RefundAllocation → ℤ) → ℕ → List RefundAllocation → ℤ
reversed column k [] = pos 0
reversed column k (a ∷ rest) =
    let below = reversed column k rest in if a.allocation == k then column a +ℤ below else below

unfoldable pub is_of_request : ℕ → List (ℕ × ConfirmedRefund) → RefundAllocation → Bool
is_of_request request refunds a = elim (lookup a.refund refunds) [
  | none ↦ false
  | some r ↦ r.return_request == request
]

-- `used_on_return`
unfoldable pub used_on_return : ℕ → ℕ → List (ℕ × ConfirmedRefund) → List RefundAllocation → ℕ
unfolding is_of_request
used_on_return request k refunds [] = 0
used_on_return request k refunds (a ∷ rest) =
    (if (a.allocation == k) && is_of_request request refunds a then a.customer_amount else 0)
    + used_on_return request k refunds rest

-- `min(merch, ship, tax) < 0 or merch + ship + tax <= 0`
unfoldable pub line_amounts : (merch ship tax : ℤ) → Result Error (ℕ × ℕ × ℕ)
line_amounts (pos m) (pos s) (pos t) = if m + s + t == 0 then err invalid_line else ok (m, s, t)
line_amounts _ _ _ = err invalid_line

-- `money(total * merch / merchandise_net)`, a half rounded up. At amounts of the columns the 28
-- digits of `decimal` round the quotient to the same hundredth.
unfoldable pub proportion : ℕ → ℕ → ℕ → ℕ
proportion total merch merchandise_net =
    (2 * total * merch + merchandise_net) / (2 * merchandise_net)

-- What a refund takes back of the seller's part or of the commission; the refund that completes
-- the merchandise takes what is left.
unfoldable pub reversal : (total merchandise_net used_merch merch : ℕ) → ℤ → ℤ
unfolding proportion
reversal total merchandise_net used_merch merch old =
    if merchandise_net == 0
    then pos 0
    else if used_merch + merch == merchandise_net
    then pos total -ℤ old
    else min_ℤ (pos (proportion total merch merchandise_net)) (pos total -ℤ old)

-- One round of the loop. The table is the one before the refund, in every round.
unfoldable pub refund_line :
    ℕ
    → (ℕ × ItemAllocation)
    → ReturnItem
    → List (ℕ × ConfirmedRefund)
    → List RefundAllocation
    → RefundLine
    → Result Error Refunded
unfolding line_amounts used reversed used_on_return reversal
refund_line request (k, a) item refunds prior line = do
  (merch, ship, tax) ← line_amounts line.merchandise line.shipping line.tax
  let used_merch = used (λ x. x.customer_merchandise) k prior
  raise_if
      (ltb a.merchandise_net (merch + used_merch)
        || ltb a.shipping (ship + used (λ x. x.customer_shipping) k prior)
        || ltb a.tax (tax + used (λ x. x.customer_tax) k prior))
      exceeds_charged
  raise_if
      (ltb item.approved_refund_amount
        (used_on_return request k refunds prior + merch + ship + tax))
      exceeds_approved
  ok (record {
    key = k;
    allocation = a;
    merchandise = merch;
    shipping = ship;
    tax = tax;
    seller_debit =
        reversal a.seller_payable a.merchandise_net used_merch merch
          (reversed (λ x. x.seller_reversal) k prior);
    commission_reversal =
        reversal a.commission a.merchandise_net used_merch merch
          (reversed (λ x. x.commission_reversal) k prior);
  })

-- A line without an allocation or a return item does not come here.
unfoldable pub refund_lines :
    (order request : ℕ)
    → List (ℕ × OrderItem)
    → List (ℕ × ItemAllocation)
    → List (ℕ × ReturnItem)
    → List (ℕ × ConfirmedRefund)
    → List RefundAllocation
    → List RefundLine
    → Result Error (List Refunded)
unfolding find_allocation find_return_item refund_line
refund_lines order request items rows returned refunds prior [] = ok []
refund_lines order request items rows returned refunds prior (line ∷ lines) = do
  a ← or_raise (find_allocation line.order_item order items rows) item_not_returned
  item ← or_raise (find_return_item line.order_item request returned) item_not_returned
  done ← refund_line request a item refunds prior line
  rest ← refund_lines order request items rows returned refunds prior lines
  ok (done ∷ rest)
