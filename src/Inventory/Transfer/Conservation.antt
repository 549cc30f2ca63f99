-- ===== src/Inventory/Transfer/Conservation.antt =====
-- Units of a product over all warehouses and all trucks.
use mallbyte_api.Common.Table.{sum_rows, sum_rows-save}
use mallbyte_api.Common.Account.{User}
use Prim.Native.String.{String}
use mallbyte_api.Common.{ℕ, ◌+◌, ◌≡◌, ◌&&◌, Option, some, arith, ◌==◌, if◌then◌else◌, int_laws, ok}
use mallbyte_api.Inventory.Stock.Table.{units}
use mallbyte_api.Inventory.Movement.Audit.{create-units}
use mallbyte_api.Inventory.Transfer.{
  approved, completed, cancelled, StockTransfer, Inventory, is_in_transit, request, approve, issue,
  receipt, ship, receive, cancel,
}
use mallbyte_api.Inventory.Transfer.Step.{
  approve_inv, ship_inv, receive_inv, cancel_inv, shipped_row,
}

abbrev carried : ℕ → StockTransfer → ℕ
carried p t = if is_in_transit t.status && (t.product == p) then t.quantity else 0

-- The units of a product in warehouses and on the way between them.
abbrev pub units_owned : ℕ → Inventory → ℕ
units_owned p inv = units p inv.ledger.stocks + sum_rows (carried p) inv.transfers

pub request-units :
    (from to product quantity : ℕ) (by : Option ℕ) (inv inv' : Inventory) (p : ℕ)
    → request from to product quantity by inv ≡ ok inv'
    → units_owned p inv' ≡ units_owned p inv
unfolding request
request-units from to product quantity by inv inv' p h = ground arith

pub approve-units :
    (user : Option User) (now pk : ℕ) (inv inv' : Inventory) (p : ℕ)
    → approve user now pk inv ≡ ok inv'
    → units_owned p inv' ≡ units_owned p inv
approve-units user now pk inv inv' p h =
    let (u, t, who, found, was, other, new) = approve_inv user now pk inv inv' h in
    let t' = record t { status = approved; approved_by = some u.id; approved_at = some now } in
    rw new (ground (arith, sum_rows-save (carried p) pk t' t inv.transfers))

pub cancel-units :
    (user : Option User) (pk : ℕ) (inv inv' : Inventory) (p : ℕ)
    → cancel user pk inv ≡ ok inv'
    → units_owned p inv' ≡ units_owned p inv
cancel-units user pk inv inv' p h =
    let (u, t, who, found, was, other, new) = cancel_inv user pk inv inv' h in
    let t' = record t { status = cancelled } in
    rw new (ground (arith, sum_rows-save (carried p) pk t' t inv.transfers))

-- What leaves the source warehouse is on the way.
pub ship-units :
    (strip : String → String) (user : Option User) (number : Option String) (now pk : ℕ)
    (inv inv' : Inventory) (p : ℕ)
    → ship strip user number now pk inv ≡ ok inv'
    → units_owned p inv' ≡ units_owned p inv
unfolding issue
ship-units strip user number now pk inv inv' p h =
    let (u, t, l, who, found, was, may, made, new) = ship_inv strip user number now pk inv inv' h in
    let t' = shipped_row strip u number now t in
    rw new (
      grind (
        int_laws,
        sum_rows-save (carried p) pk t' t inv.transfers,
        create-units (issue u pk t) inv.ledger l p made,
      ))

-- What was on the way is in the target warehouse.
pub receive-units :
    (user : Option User) (now pk : ℕ) (inv inv' : Inventory) (p : ℕ)
    → receive user now pk inv ≡ ok inv'
    → units_owned p inv' ≡ units_owned p inv
unfolding receipt
receive-units user now pk inv inv' p h =
    let (u, t, l, who, found, was, may, made, new) = receive_inv user now pk inv inv' h in
    let t' = record t { status = completed; received_by = some u.id; received_at = some now } in
    rw new (
      grind (
        int_laws,
        sum_rows-save (carried p) pk t' t inv.transfers,
        create-units (receipt u pk t) inv.ledger l p made,
      ))
