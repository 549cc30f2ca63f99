-- ===== src/Inventory/Transfer/Review.antt =====
-- Who handles a transfer of apps/inventory/models.py: its requester and its approver.
use mallbyte_api.Common.Table.{AllRows, lookup-AllRows, save-AllRows}
use mallbyte_api.Common.Account.{User}
use Prim.Native.String.{String}
use mallbyte_api.Common.{
  ℕ, ◌<◌, ◌≡◌, ◌≢◌, Bool, true, false, not, Option, none, some, arith, is_id, ok,
}
use mallbyte_api.Inventory.Transfer.{
  Status, approved, in_transit, completed, StockTransfer, Inventory, request, approve, ship,
  receive, cancel,
}
use mallbyte_api.Inventory.Transfer.Step.{approve_inv, ship_inv, receive_inv, cancel_inv}

abbrev past_review : Status → Bool
past_review approved = true
past_review in_transit = true
past_review completed = true
past_review _ = false

-- `approved_by` is set, and is not `requested_by`.
abbrev two_people : StockTransfer → Bool
two_people t = elim t.approved_by [ none ↦ false | some a ↦ not (is_id t.requested_by a) ]

pub record IsReviewed (t : StockTransfer) : Type 0 where
  pub places : t.from_warehouse ≢ t.to_warehouse
  pub positive : 0 < t.quantity
  pub four_eyes : past_review t.status ≡ true → two_people t ≡ true

-- Every stored transfer is between two warehouses, is of at least one unit, and, once approved,
-- names an approver who did not request it.
abbrev pub AllReviewed : Inventory → Type 0
AllReviewed inv = AllRows IsReviewed inv.transfers

-- A new request meets it.
pub request-AllReviewed :
    (from to product quantity : ℕ) (by : Option ℕ) (inv inv' : Inventory)
    → request from to product quantity by inv ≡ ok inv'
    → AllReviewed inv
    → AllReviewed inv'
unfolding request
request-AllReviewed from to product quantity by inv inv' h v = ground arith

pub approve-AllReviewed :
    (user : Option User) (now pk : ℕ) (inv inv' : Inventory)
    → approve user now pk inv ≡ ok inv'
    → AllReviewed inv
    → AllReviewed inv'
approve-AllReviewed user now pk inv inv' h v =
    let (u, t, who, found, was, other, new) = approve_inv user now pk inv inv' h in
    let old = lookup-AllRows IsReviewed pk t inv.transfers v found in
    rw new (save-AllRows IsReviewed pk _ inv.transfers v (ground arith))

pub cancel-AllReviewed :
    (user : Option User) (pk : ℕ) (inv inv' : Inventory)
    → cancel user pk inv ≡ ok inv'
    → AllReviewed inv
    → AllReviewed inv'
cancel-AllReviewed user pk inv inv' h v =
    let (u, t, who, found, was, other, new) = cancel_inv user pk inv inv' h in
    let old = lookup-AllRows IsReviewed pk t inv.transfers v found in
    rw new (save-AllRows IsReviewed pk _ inv.transfers v (ground arith))

pub ship-AllReviewed :
    (strip : String → String) (user : Option User) (number : Option String) (now pk : ℕ)
    (inv inv' : Inventory)
    → ship strip user number now pk inv ≡ ok inv'
    → AllReviewed inv
    → AllReviewed inv'
ship-AllReviewed strip user number now pk inv inv' h v =
    let (u, t, l, who, found, was, may, made, new) = ship_inv strip user number now pk inv inv' h in
    let old = lookup-AllRows IsReviewed pk t inv.transfers v found in
    rw new (save-AllRows IsReviewed pk _ inv.transfers v (ground arith))

pub receive-AllReviewed :
    (user : Option User) (now pk : ℕ) (inv inv' : Inventory)
    → receive user now pk inv ≡ ok inv'
    → AllReviewed inv
    → AllReviewed inv'
receive-AllReviewed user now pk inv inv' h v =
    let (u, t, l, who, found, was, may, made, new) = receive_inv user now pk inv inv' h in
    let old = lookup-AllRows IsReviewed pk t inv.transfers v found in
    rw new (save-AllRows IsReviewed pk _ inv.transfers v (ground arith))
