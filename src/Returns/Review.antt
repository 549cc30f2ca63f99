-- ===== src/Returns/Review.antt =====
-- The services of apps/returns/services.py on a submitted request, with
-- `SETTLEMENTS_LEDGER_ENABLED` off, as it is by default.
pub mod Allocation
pub mod Effect
use mallbyte_api.Common.Account.{User, is_admin_user}
use mallbyte_api.Common.Table.{lookup, save}
use mallbyte_api.Common.{
  ℕ, ◌+◌, ◌-◌, ◌*◌, ◌/◌, Bool, true, false, not, ◌&&◌, ◌||◌, Option, none, some, List, [], ◌∷◌, ltb,
  ◌==◌, if◌then◌else◌, is_id, ℤ, pos, pos_part, ltb_ℤ, Result, ok, ◌>>=◌, ◌>>◌, raise_if, or_raise,
}
use mallbyte_api.Returns.Row.{
  Status, draft, submitted, under_review, waiting_for_item, item_received, inspecting,
  refund_pending, ReturnRequest, ItemStatus, received, ReturnItem, ReturnShipment,
  ReturnStatusHistory, Returns,
}

pub data Error : Type 0 where
  does_not_exist not_customer not_admin not_cancellable not_approvable no_items : Error
  total_mismatch amount_out_of_range not_rejectable not_receivable not_refundable : Error

-- `in [draft, submitted, under_review]`
abbrev pub is_open : Status → Bool
is_open draft = true
is_open submitted = true
is_open under_review = true
is_open _ = false

-- `in [submitted, under_review]`
abbrev pub is_reviewable : Status → Bool
is_reviewable submitted = true
is_reviewable under_review = true
is_reviewable _ = false

abbrev pub is_awaited : Status → Bool
is_awaited Status.approved = true
is_awaited waiting_for_item = true
is_awaited _ = false

abbrev pub is_refundable : Status → Bool
is_refundable item_received = true
is_refundable inspecting = true
is_refundable refund_pending = true
is_refundable _ = false

-- The row of the request with its new status, and the history entry.
unfoldable pub moved : ℕ → ReturnRequest → ReturnRequest → User → Returns → Returns
moved pk old new user r =
    let entry : ReturnStatusHistory = record {
      return_request = pk;
      old_status = some old.status;
      new_status = new.status;
      changed_by = user.id;
    } in
    record r { requests = save pk new r.requests; history = entry ∷ r.history }

-- `for item in return_request.items.all()` with a status and an amount to write.
unfoldable pub mark_items :
    ℕ → (ReturnItem → ReturnItem) → List (ℕ × ReturnItem) → List (ℕ × ReturnItem)
mark_items pk write [] = []
mark_items pk write ((k, i) ∷ is) =
    (k, if i.return_request == pk then write i else i) ∷ mark_items pk write is

unfoldable pub cancel_return_request : User → ℕ → ℕ → Returns → Result Error Returns
unfolding is_admin_user
cancel_return_request user now pk r = do
  request ← or_raise (lookup pk r.requests) does_not_exist
  raise_if (not (is_admin_user user) && not (is_id request.customer user.id)) not_customer
  raise_if (not (is_open request.status)) not_cancellable
  ok (moved pk request (record request { status = Status.cancelled; closed_at = some now }) user r)

unfoldable pub has_items : ℕ → List (ℕ × ReturnItem) → Bool
has_items pk [] = false
has_items pk ((k, i) ∷ is) = (i.return_request == pk) || has_items pk is

-- The sum of the requested amounts of the items of a request.
unfoldable pub requested_total : ℕ → List (ℕ × ReturnItem) → ℕ
requested_total pk [] = 0
requested_total pk ((k, i) ∷ is) =
    (if i.return_request == pk then i.requested_refund_amount else 0) + requested_total pk is

-- `funded[-1] if funded else None`
unfoldable pub last_funded_id : ℕ → List (ℕ × ReturnItem) → Option ℕ
last_funded_id pk [] = none
last_funded_id pk ((k, i) ∷ is) = elim (last_funded_id pk is) [
  | some j ↦ some j
  | none ↦ if (i.return_request == pk) && ltb 0 i.requested_refund_amount then some k else none
]

-- The amount of one item: its share rounded down, or what is left where it is the last.
unfoldable pub item_amount : ℕ → ℕ → Option ℕ → ℕ → ℕ → ReturnItem → ℕ
item_amount approved total last allocated k i =
    if (i.requested_refund_amount == 0) || (total == 0)
    then 0
    else if is_id last k
    then approved - allocated
    else approved * i.requested_refund_amount / total

-- The loop that allocates the approved amount to the items of the request.
unfoldable pub allocate : ℕ → ℕ → ℕ → Option ℕ → ℕ → List (ℕ × ReturnItem) → List (ℕ × ReturnItem)
allocate pk approved total last allocated [] = []
allocate pk approved total last allocated ((k, i) ∷ is) =
    let amount =
      if i.return_request == pk then item_amount approved total last allocated k i else 0 in
    let rest = allocate pk approved total last (allocated + amount) is in
    (
      k,
      if i.return_request == pk
          then record i { status = ItemStatus.approved; approved_refund_amount = amount }
          else i,
    )
    ∷ rest

-- The whole requested amount where no amount is given.
abbrev pub amount_or : ℕ → Option ℤ → ℤ
amount_or total none = pos total
amount_or total (some a) = a

unfoldable pub approve_return_request : User → ℕ → Option ℤ → ℕ → Returns → Result Error Returns
approve_return_request user now amount pk r = do
  request ← or_raise (lookup pk r.requests) does_not_exist
  raise_if (not (is_admin_user user)) not_admin
  raise_if (not (is_reviewable request.status)) not_approvable
  raise_if (not (has_items pk r.items)) no_items
  let total = requested_total pk r.items
  raise_if (not (total == request.total_requested_amount)) total_mismatch
  let approved_amount = amount_or total amount
  raise_if (ltb_ℤ approved_amount (pos 0) || ltb_ℤ (pos total) approved_amount) amount_out_of_range
  let approved = pos_part approved_amount
  let request' = record request {
    status = Status.approved;
    total_approved_amount = approved;
    reviewed_by = some user.id;
    reviewed_at = some now;
  }
  let r' = moved pk request request' user r
  ok (record r' { items = allocate pk approved total (last_funded_id pk r.items) 0 r.items })

unfoldable pub reject_return_request : User → ℕ → ℕ → Returns → Result Error Returns
reject_return_request user now pk r = do
  request ← or_raise (lookup pk r.requests) does_not_exist
  raise_if (not (is_admin_user user)) not_admin
  raise_if (not (is_reviewable request.status)) not_rejectable
  let request' = record request {
    status = Status.rejected;
    total_approved_amount = 0;
    reviewed_by = some user.id;
    reviewed_at = some now;
    closed_at = some now;
  }
  let r' = moved pk request request' user r
  ok (record r' {
    items =
        mark_items pk (λ i. record i { status = ItemStatus.rejected; approved_refund_amount = 0 })
          r.items;
  })

-- `get_or_create` of the shipment of the request, and its time of receipt.
unfoldable pub receive_shipment : ℕ → ℕ → List ReturnShipment → List ReturnShipment
receive_shipment pk now [] = record { return_request = pk; received_at = some now } ∷ []
receive_shipment pk now (s ∷ ss) =
    let rest = receive_shipment pk now ss in
    if s.return_request == pk then record s { received_at = some now } ∷ ss else s ∷ rest

unfoldable pub mark_return_item_received : User → ℕ → ℕ → Returns → Result Error Returns
mark_return_item_received user now pk r = do
  request ← or_raise (lookup pk r.requests) does_not_exist
  raise_if (not (is_admin_user user)) not_admin
  raise_if (not (is_awaited request.status)) not_receivable
  let r' = moved pk request (record request { status = item_received }) user r
  ok (record r' {
    items = mark_items pk (λ i. record i { status = received }) r.items;
    shipments = receive_shipment pk now r.shipments;
  })

unfoldable pub mark_return_refunded : User → ℕ → ℕ → Returns → Result Error Returns
mark_return_refunded user now pk r = do
  request ← or_raise (lookup pk r.requests) does_not_exist
  raise_if (not (is_admin_user user)) not_admin
  raise_if (not (is_refundable request.status)) not_refundable
  let request' = record request { status = Status.refunded; closed_at = some now }
  let r' = moved pk request request' user r
  ok (record r' { items = mark_items pk (λ i. record i { status = ItemStatus.refunded }) r.items })
