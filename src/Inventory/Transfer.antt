-- ===== src/Inventory/Transfer.antt =====
-- `class StockTransfer` of apps/inventory/models.py: the transfer of a product between two
-- warehouses. Each method locks its row, so it is a function of the stored row and the tables.
pub mod Step
pub mod Review
pub mod Conservation
use mallbyte_api.Common.Table.{lookup, save}
use mallbyte_api.Common.Account.{User}
use Prim.Native.String.{String}
use mallbyte_api.Common.{
  ℕ, ◌+◌, Bool, true, false, not, ◌&&◌, ◌||◌, Option, none, some, List, [], ◌∷◌, ◌==◌, is_id, pos,
  ◌-ℤ◌, Result, ok, ◌>>=◌, ◌>>◌, raise_if, or_raise,
}
use mallbyte_api.Inventory.Failure.{
  Error, same_warehouse, transfer_not_positive, user_required, not_pending, own_transfer,
  not_approved, not_member, not_in_transit, not_cancellable, does_not_exist,
}
use mallbyte_api.Inventory.Movement.{
  StockMovement, Ledger, transfer_in, transfer_out, transfer, create,
}

pub data Status : Type 0 where
  pending approved in_transit completed cancelled : Status

pub record StockTransfer : Type 0 where
  pub from_warehouse : ℕ
  pub to_warehouse : ℕ
  pub product : ℕ
  pub quantity : ℕ
  pub status : Status
  pub tracking_number : String
  pub shipped_at : Option ℕ
  pub received_at : Option ℕ
  pub requested_by : Option ℕ
  pub approved_by : Option ℕ
  pub approved_at : Option ℕ
  pub shipped_by : Option ℕ
  pub received_by : Option ℕ

pub record WarehouseMembership : Type 0 where
  pub user : ℕ
  pub warehouse : ℕ
  pub is_active : Bool

pub record Inventory : Type 0 where
  pub ledger : Ledger
  pub transfers : List (ℕ × StockTransfer)
  pub next_transfer : ℕ
  pub memberships : List WarehouseMembership

abbrev pub is_pending : Status → Bool
is_pending pending = true
is_pending _ = false

abbrev pub is_approved : Status → Bool
is_approved approved = true
is_approved _ = false

abbrev pub is_in_transit : Status → Bool
is_in_transit in_transit = true
is_in_transit _ = false

abbrev user_or_raise : Option User → Result Error User
user_or_raise user = or_raise user user_required

-- `WarehouseMembership.objects.filter(user=…, warehouse=…, is_active=True).exists()`
unfoldable pub has_membership : ℕ → ℕ → List WarehouseMembership → Bool
has_membership u w [] = false
has_membership u w (m ∷ ms) =
    ((m.user == u) && (m.warehouse == w) && m.is_active) || has_membership u w ms

-- The membership guard of `ship` and `receive`.
unfoldable pub may_handle : User → ℕ → List WarehouseMembership → Bool
may_handle user warehouse memberships =
    user.is_superuser || has_membership user.id warehouse memberships

unfoldable pub clean : StockTransfer → Result Error (Unit {0})
clean t = do
  raise_if (t.from_warehouse == t.to_warehouse) same_warehouse
  raise_if (t.quantity == 0) transfer_not_positive

-- `save` of a new transfer, which a request creates with the default status.
unfoldable pub request : ℕ → ℕ → ℕ → ℕ → Option ℕ → Inventory → Result Error Inventory
unfolding clean
request from_warehouse to_warehouse product quantity requested_by inv = do
  let t : StockTransfer = record {
    from_warehouse = from_warehouse;
    to_warehouse = to_warehouse;
    product = product;
    quantity = quantity;
    status = pending;
    tracking_number = "";
    shipped_at = none;
    received_at = none;
    requested_by = requested_by;
    approved_by = none;
    approved_at = none;
    shipped_by = none;
    received_by = none;
  }
  clean t
  ok (record inv {
    transfers = (inv.next_transfer, t) ∷ inv.transfers;
    next_transfer = inv.next_transfer + 1;
  })

unfoldable pub approve : Option User → ℕ → ℕ → Inventory → Result Error Inventory
unfolding clean
approve user now pk inv = do
  approver ← user_or_raise user
  t ← or_raise (lookup pk inv.transfers) does_not_exist
  raise_if (not (is_pending t.status)) not_pending
  raise_if (is_id t.requested_by approver.id) own_transfer
  let t' = record t { status = approved; approved_by = some approver.id; approved_at = some now }
  clean t'
  ok (record inv { transfers = save pk t' inv.transfers })

-- The movement that `ship` creates.
unfoldable pub issue : User → ℕ → StockTransfer → StockMovement
issue user pk t = record {
  product = t.product;
  warehouse = t.from_warehouse;
  movement_type = transfer_out;
  quantity = pos 0 -ℤ pos t.quantity;
  reference_id = transfer pk;
  before_quantity = 0;
  after_quantity = 0;
  created_by = some user.id;
}

-- The movement that `receive` creates.
unfoldable pub receipt : User → ℕ → StockTransfer → StockMovement
receipt user pk t = record {
  product = t.product;
  warehouse = t.to_warehouse;
  movement_type = transfer_in;
  quantity = pos t.quantity;
  reference_id = transfer pk;
  before_quantity = 0;
  after_quantity = 0;
  created_by = some user.id;
}

-- `if tracking_number: … = tracking_number.strip()`; `strip` is Python's.
abbrev pub tracked : (String → String) → Option String → String → String
tracked strip none old = old
tracked strip (some String.[]) old = old
tracked strip (some new) old = strip new

unfoldable pub ship :
    (String → String) → Option User → Option String → ℕ → ℕ → Inventory → Result Error Inventory
unfolding clean
ship strip user tracking_number now pk inv = do
  shipper ← user_or_raise user
  t ← or_raise (lookup pk inv.transfers) does_not_exist
  raise_if (not (is_approved t.status)) not_approved
  raise_if (not (may_handle shipper t.from_warehouse inv.memberships)) not_member
  ledger ← create (issue shipper pk t) inv.ledger
  let t' = record t {
    status = in_transit;
    shipped_by = some shipper.id;
    shipped_at = some now;
    tracking_number = tracked strip tracking_number t.tracking_number;
  }
  clean t'
  ok (record inv { ledger = ledger; transfers = save pk t' inv.transfers })

unfoldable pub receive : Option User → ℕ → ℕ → Inventory → Result Error Inventory
unfolding clean
receive user now pk inv = do
  receiver ← user_or_raise user
  t ← or_raise (lookup pk inv.transfers) does_not_exist
  raise_if (not (is_in_transit t.status)) not_in_transit
  raise_if (not (may_handle receiver t.to_warehouse inv.memberships)) not_member
  ledger ← create (receipt receiver pk t) inv.ledger
  let t' = record t { status = completed; received_by = some receiver.id; received_at = some now }
  clean t'
  ok (record inv { ledger = ledger; transfers = save pk t' inv.transfers })

unfoldable pub cancel : Option User → ℕ → Inventory → Result Error Inventory
unfolding clean
cancel user pk inv = do
  canceller ← user_or_raise user
  t ← or_raise (lookup pk inv.transfers) does_not_exist
  raise_if (not (is_pending t.status || is_approved t.status)) not_cancellable
  raise_if (is_id t.requested_by canceller.id) own_transfer
  let t' = record t { status = cancelled }
  clean t'
  ok (record inv { transfers = save pk t' inv.transfers })
