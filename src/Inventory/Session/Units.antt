-- ===== src/Inventory/Session/Units.antt =====
-- Transfers and reservations neither make nor lose units.
use Prim.Native.String.{String}
use mallbyte_api.Common.{
  ℕ, ◌≡◌, inl, inr, arith, ◌==◌, if◌then◌else◌, ℤ, pos, ◌+ℤ◌, int_laws, Result, ok, Result-cases,
}
use mallbyte_api.Inventory.Failure.{Error}
use mallbyte_api.Inventory.Stock.{Stock, reserve, release_reservation, with_stock}
use mallbyte_api.Inventory.Movement.{create}
use mallbyte_api.Inventory.Movement.Audit.{create-units}
use mallbyte_api.Inventory.Transfer.{Inventory}
use mallbyte_api.Inventory.Transfer.Conservation.{
  units_owned, request-units, approve-units, ship-units, receive-units, cancel-units,
}
use mallbyte_api.Inventory.Session.{
  Call, reserving, releasing, moving, requesting, approving, receiving, shipping, cancelling, apply,
  on_stocks,
}
use mallbyte_api.Inventory.Place.{
  KeepsTotal, reserve-KeepsTotal, release-KeepsTotal, with_stock-units,
}

-- The units of `p` that a call brings in from outside, or takes out: those of a movement that is
-- entered on its own.
abbrev pub brought : ℕ → Call → ℤ
brought p (moving m) = if p == m.product then m.quantity else pos 0
brought p _ = pos 0

on_stocks-units :
    (p w : ℕ) (method : Stock → Result Error Stock) (inv inv' : Inventory) (q : ℕ)
    → KeepsTotal method
    → on_stocks inv (with_stock p w method inv.ledger.stocks) ≡ ok inv'
    → units_owned q inv' ≡ units_owned q inv
on_stocks-units p w method inv inv' q keep h =
    elim (Result-cases (with_stock p w method inv.ledger.stocks)) [
      | inr (e, raised) ↦ ground arith
      | inl (t', done) ↦
          ground (arith, with_stock-units p w method inv.ledger.stocks t' keep done q)
    ]

module _ (strip : String → String) where
  -- A call that succeeds changes the units of a product, in warehouses and on the way, by what a
  -- movement brings in, and by nothing else: no transfer loses or makes a unit.
  pub apply-units :
      (c : Call) (inv inv' : Inventory) (p : ℕ)
      → apply strip c inv ≡ ok inv'
      → pos (units_owned p inv') ≡ pos (units_owned p inv) +ℤ brought p c
  unfolding apply
  apply-units (reserving q w n user) inv inv' p h =
      omega
        (int_laws, on_stocks-units q w (reserve n user) inv inv' p (reserve-KeepsTotal n user) h)
  apply-units (releasing q w n user) inv inv' p h = omega (
    int_laws,
    on_stocks-units q w (release_reservation n user) inv inv' p (release-KeepsTotal n user) h,
  )
  apply-units (moving m) inv inv' p h = elim (Result-cases (create m inv.ledger)) [
    | inr (e, raised) ↦ ground arith
    | inl (l, made) ↦
        let new : inv' ≡ record inv { ledger = l } = ground arith in
        rw new (grind (int_laws, create-units m inv.ledger l p made))
  ]
  apply-units (requesting from to q n by) inv inv' p h =
      omega (int_laws, request-units from to q n by inv inv' p h)
  apply-units (approving user now pk) inv inv' p h =
      omega (int_laws, approve-units user now pk inv inv' p h)
  apply-units (receiving user now pk) inv inv' p h =
      omega (int_laws, receive-units user now pk inv inv' p h)
  apply-units (shipping user number now pk) inv inv' p h =
      omega (int_laws, ship-units strip user number now pk inv inv' p h)
  apply-units (cancelling user pk) inv inv' p h =
      omega (int_laws, cancel-units user pk inv inv' p h)
