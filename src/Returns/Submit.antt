-- ===== src/Returns/Submit.antt =====
-- `create_return_request` of apps/returns/services.py.
pub mod Covered
use mallbyte_api.Common.Account.{User}
use mallbyte_api.Common.Table.{lookup, save}
use mallbyte_api.Common.{
  ℕ, ◌+◌, ◌*◌, Bool, true, false, not, ◌&&◌, ◌||◌, none, some, List, [], ◌∷◌, ◌++◌, ◌==◌,
  if◌then◌else◌, ℤ, pos, negsuc, err, sub_ℕ, ltb_ℤ, Result, ok, ◌>>=◌, ◌>>◌, raise_if, or_raise,
}
use mallbyte_api.Market.Row.{Order, OrderItem, OrderStatus}
use mallbyte_api.Market.State.{Market}
use mallbyte_api.Orders.Query.{is_paid, is_live, is_delivered, find_fulfillment}
use mallbyte_api.Returns.Row.{
  Status, submitted, ReturnRequest, requested, ReturnItem, ReturnStatusHistory, Returns,
}

pub data Error : Type 0 where
  does_not_exist integrity not_your_order not_returnable no_items : Error
  wrong_order not_delivered not_positive above_available : Error

-- `in [rejected, cancelled]`
abbrev pub is_dropped : Status → Bool
is_dropped Status.rejected = true
is_dropped Status.cancelled = true
is_dropped _ = false

-- Whether the request of an item is neither rejected nor cancelled.
unfoldable pub is_counted : List (ℕ × ReturnRequest) → ReturnItem → Bool
is_counted requests i = elim (lookup i.return_request requests) [
  | none ↦ false
  | some request ↦ not (is_dropped request.status)
]

unfoldable pub get_already_returned_quantity :
    ℕ → List (ℕ × ReturnRequest) → List (ℕ × ReturnItem) → ℕ
unfolding is_counted
get_already_returned_quantity order_item requests [] = 0
get_already_returned_quantity order_item requests ((k, i) ∷ is) =
    (if (i.order_item == order_item) && is_counted requests i then i.quantity else 0)
    + get_already_returned_quantity order_item requests is

-- The item was delivered: by its seller, or with the whole order where no seller is recorded.
unfoldable pub was_delivered : ℕ → Order → OrderItem → Market → Bool
was_delivered order_pk order i db =
    elim (find_fulfillment order_pk (db.catalog i.product).seller db.fulfillments) [
      | some (k, f) ↦ is_delivered f.status
      | none ↦ is_delivered order.status
    ]

-- What the request says of an item.
pub record ItemData : Type 0 where
  pub order_item : ℕ
  pub quantity : ℤ

-- `quantity <= 0`, and the quantity elsewhere.
unfoldable pub returned_quantity : ℤ → Result Error ℕ
returned_quantity (negsuc n) = err not_positive
returned_quantity (pos n) = if n == 0 then err not_positive else ok n

-- `unique_order_item_per_return_request`
unfoldable pub has_return_item : ℕ → ℕ → List (ℕ × ReturnItem) → Bool
has_return_item request order_item [] = false
has_return_item request order_item ((k, i) ∷ is) =
    ((i.return_request == request) && (i.order_item == order_item))
    || has_return_item request order_item is

unfoldable pub new_return_item : ℕ → ℕ → ℕ → OrderItem → ReturnItem
new_return_item request order_item quantity i = record {
  return_request = request;
  order_item = order_item;
  quantity = quantity;
  status = requested;
  requested_refund_amount = 100 * (i.unit_price * quantity);
  approved_refund_amount = 0;
}

-- One round of the loop over the items: the amount that it adds, and the tables.
unfoldable pub create_item :
    ℕ → ℕ → Order → Market → ItemData → Returns → Result Error (ℕ × Returns)
unfolding new_return_item
create_item request order_pk order db d r = do
  i ← or_raise (lookup d.order_item db.items) does_not_exist
  raise_if (not (i.order == order_pk)) wrong_order
  raise_if (not (was_delivered order_pk order i db)) not_delivered
  quantity ← returned_quantity d.quantity
  let already = get_already_returned_quantity d.order_item r.requests r.items
  raise_if (ltb_ℤ (sub_ℕ i.quantity already) (pos quantity)) above_available
  raise_if (has_return_item request d.order_item r.items) integrity
  ok (
    100 * (i.unit_price * quantity),
    record r {
      items = r.items ++ (r.next_key, new_return_item request d.order_item quantity i) ∷ [];
      next_key = r.next_key + 1;
    },
  )

unfoldable pub create_items :
    ℕ → ℕ → Order → Market → List ItemData → ℕ → Returns → Result Error (ℕ × Returns)
create_items request order_pk order db [] total r = ok (total, r)
create_items request order_pk order db (d ∷ ds) total r = do
  (amount, r') ← create_item request order_pk order db d r
  create_items request order_pk order db ds (total + amount) r'

abbrev pub is_nil : List ItemData → Bool
is_nil [] = true
is_nil (d ∷ ds) = false

unfoldable pub new_request : ℕ → User → ReturnRequest
new_request order_pk customer = record {
  customer = some customer.id;
  order = order_pk;
  status = submitted;
  total_requested_amount = 0;
  total_approved_amount = 0;
  reviewed_by = none;
  reviewed_at = none;
  closed_at = none;
}

-- The key of the new request, and the tables with it.
unfoldable pub create_return_request :
    User → ℕ → List ItemData → Market → Returns → Result Error (ℕ × Returns)
unfolding new_request
create_return_request customer order_pk items db r = do
  order ← or_raise (lookup order_pk db.orders) does_not_exist
  raise_if (not (order.user == customer.id)) not_your_order
  raise_if (not (is_paid order.payment_status && is_live order.status)) not_returnable
  raise_if (is_nil items) no_items
  let request = r.next_key
  let row = new_request order_pk customer
  let r₁ : Returns = record r { requests = (request, row) ∷ r.requests; next_key = request + 1 }
  (total, r₂) ← create_items request order_pk order db items 0 r₁
  let entry : ReturnStatusHistory = record {
    return_request = request;
    old_status = none;
    new_status = submitted;
    changed_by = customer.id;
  }
  ok (
    request,
    record r₂ {
      requests = save request (record row { total_requested_amount = total }) r₂.requests;
      history = entry ∷ r₂.history;
    },
  )
